-- ===== src/Tcp/Segment.antt =====
-- The segment header of src/tcp.h and its conversions in src/tcp.c.
use xstack_io.Prelude.{
  ℕ, ◌-◌, ◌*◌, ◌/◌, ◌^◌, List, [], ◌∷◌, Option, none, some, bit_and, u16, htons, ntohs, htonl,
  ntohl, le_bytes16, le_bytes32, le16, le32, take, ltb, ◌||◌, if◌then◌else◌,
}
use xstack_io.Prelude.Int.{ℤ, pos, neg}
use xstack_io.Prelude.Errno.{einval}
use xstack_io.Checksum.{add_bytes}
use xstack_io.Tcp.{Sockaddr, TcpHdr, tcp_doff_mask, tcp_doff_off}

-- `sizeof(struct tcp_hdr)`
abbrev pub tcp_hdr_bytes_size : ℕ
tcp_hdr_bytes_size = 20

abbrev pub ip_proto_tcp : ℕ
ip_proto_tcp = 6

unfoldable pub tcp_hdr_size : TcpHdr → ℤ
tcp_hdr_size hdr =
    let doff = bit_and hdr.tcp_flags tcp_doff_mask / 2 ^ tcp_doff_off in
    if ltb doff 5 || ltb 15 doff then neg einval else pos (doff * 4)

-- The bytes of the packed struct in memory before `rest`, and the struct that bytes stand for.
abbrev pub tcp_hdr_bytes : TcpHdr → List ℕ → List ℕ
tcp_hdr_bytes h rest = le_bytes16 h.tcp_sport (
    le_bytes16 h.tcp_dport (
      le_bytes32 h.tcp_seqno (
        le_bytes32 h.tcp_ack_num (
          le_bytes16 h.tcp_flags (
            le_bytes16 h.tcp_win_size
              (le_bytes16 h.tcp_checksum (le_bytes16 h.tcp_urg_ptr rest)))))))

-- `none` if there are fewer than 20 bytes.
unfoldable pub tcp_hdr_of : List ℕ → Option (TcpHdr × List ℕ)
tcp_hdr_of
      (s0 ∷ s1 ∷ d0 ∷ d1 ∷ q0 ∷ q1 ∷ q2 ∷ q3 ∷ a0 ∷ a1 ∷ a2 ∷ a3 ∷ f0 ∷ f1 ∷ w0 ∷ w1 ∷ c0 ∷ c1 ∷ u0
        ∷ u1 ∷ rest) =
    some (
      record {
        tcp_sport = le16 s0 s1;
        tcp_dport = le16 d0 d1;
        tcp_seqno = le32 q0 q1 q2 q3;
        tcp_ack_num = le32 a0 a1 a2 a3;
        tcp_flags = le16 f0 f1;
        tcp_win_size = le16 w0 w1;
        tcp_checksum = le16 c0 c1;
        tcp_urg_ptr = le16 u0 u1;
      },
      rest,
    )
tcp_hdr_of _ = none

-- `pseudo_header` in memory
abbrev pub pseudo_header : Sockaddr → Sockaddr → ℕ → List ℕ
pseudo_header src dst bsize =
    le_bytes32 (htonl src.inet4_addr)
      (le_bytes32 (htonl dst.inet4_addr) (0 ∷ ip_proto_tcp ∷ le_bytes16 (htons (u16 bsize)) []))

-- `segment` is the `bsize` bytes at `dp`, with the length that is put in the pseudo header.
unfoldable pub tcp_checksum : Sockaddr → Sockaddr → ℕ → List ℕ → ℕ
tcp_checksum src dst bsize segment =
    u16 (2 ^ 32 - 1 - add_bytes (add_bytes 0xffff (pseudo_header src dst bsize)) segment)

-- `rest` is what lies behind `net`; `bsize` bytes from its start are summed.
unfoldable pub tcp_hton : Sockaddr → Sockaddr → TcpHdr → ℕ → List ℕ → TcpHdr
unfolding tcp_checksum
tcp_hton src dst host bsize rest =
    let net : TcpHdr = record {
      tcp_sport = htons host.tcp_sport;
      tcp_dport = htons host.tcp_dport;
      tcp_seqno = htonl host.tcp_seqno;
      tcp_ack_num = htonl host.tcp_ack_num;
      tcp_flags = htons host.tcp_flags;
      tcp_win_size = htons host.tcp_win_size;
      tcp_urg_ptr = htons host.tcp_urg_ptr;
      tcp_checksum = 0;
    } in
    record net { tcp_checksum = tcp_checksum src dst bsize (take bsize (tcp_hdr_bytes net rest)) }

-- In place, so that the checksum field stays.
unfoldable pub tcp_ntoh : TcpHdr → TcpHdr
tcp_ntoh net = record net {
  tcp_sport = ntohs net.tcp_sport;
  tcp_dport = ntohs net.tcp_dport;
  tcp_seqno = ntohl net.tcp_seqno;
  tcp_ack_num = ntohl net.tcp_ack_num;
  tcp_flags = ntohs net.tcp_flags;
  tcp_win_size = ntohs net.tcp_win_size;
  tcp_urg_ptr = ntohs net.tcp_urg_ptr;
}
