-- ===== src/Tcp/Checksum.antt =====
-- The checksum of the segments that are sent verifies at the receiver.
use xstack_io.Prelude.{
  All-append, All-take, take-append, ℕ, ◌-◌, ◌≤◌, ◌≡◌, refl, ◌∙◌, ap, arith, List, [], ◌∷◌, ◌++◌,
  All, take, le_bytes16, le_bytes32, htons, htonl,
}
use xstack_io.Checksum.{ip_checksum}
use xstack_io.Checksum.Sum.{IsByte}
use xstack_io.Checksum.Verify.{ip_checksum_verifies}
use xstack_io.Tcp.{Sockaddr, TcpHdr}
use xstack_io.Tcp.Segment.{pseudo_header, tcp_checksum, tcp_hdr_bytes, tcp_hton}

-- The two loops of `tcp_checksum` run over the pseudo header and the segment as one buffer.
tcp_checksum-eq-ip_checksum :
    (src dst : Sockaddr) (bsize : ℕ) (segment : List ℕ)
    → tcp_checksum src dst bsize segment ≡ ip_checksum (pseudo_header src dst bsize ++ segment)
unfolding tcp_checksum ip_checksum
tcp_checksum-eq-ip_checksum src dst bsize segment = refl

-- The header before and after its checksum, in network order.
abbrev front : TcpHdr → List ℕ
front h = le_bytes16 (htons h.tcp_sport) (
    le_bytes16 (htons h.tcp_dport) (
      le_bytes32 (htonl h.tcp_seqno) (
        le_bytes32 (htonl h.tcp_ack_num)
          (le_bytes16 (htons h.tcp_flags) (le_bytes16 (htons h.tcp_win_size) [])))))

abbrev back : TcpHdr → List ℕ → List ℕ
back h rest = le_bytes16 (htons h.tcp_urg_ptr) rest

front-bytes : (h : TcpHdr) → All IsByte (front h)
front-bytes h = omega arith

pseudo-bytes : (src dst : Sockaddr) (bsize : ℕ) → All IsByte (pseudo_header src dst bsize)
pseudo-bytes src dst bsize = omega arith

-- A segment of `bsize` bytes, with options and data that are bytes, leaves `tcp_hton` with a
-- checksum that verifies: over the pseudo header and the segment it is 0 at the receiver.
pub tcp_hton_verifies :
    (src dst : Sockaddr) (h : TcpHdr) (bsize : ℕ) (rest : List ℕ)
    → All IsByte rest
    → 20 ≤ bsize
    → tcp_checksum src dst bsize (take bsize (tcp_hdr_bytes (tcp_hton src dst h bsize rest) rest))
      ≡ 0
unfolding tcp_hton
tcp_hton_verifies src dst h bsize rest bytes long =
    let tail = take (bsize - 18) (back h rest) in
    let summed = tcp_checksum src dst bsize in
    let before = pseudo_header src dst bsize ++ front h in
    let zeroed : take bsize (tcp_hdr_bytes net rest) ≡ front h ++ (0 ∷ 0 ∷ tail) =
      take-append bsize (front h ++ (0 ∷ 0 ∷ [])) (back h rest) (omega arith) in
    let c = summed (take bsize (tcp_hdr_bytes net rest)) in
    let c' : c ≡ ip_checksum (before ++ (0 ∷ 0 ∷ tail)) =
      ap summed zeroed ∙ tcp_checksum-eq-ip_checksum src dst bsize (front h ++ (0 ∷ 0 ∷ tail)) in
    ap summed (take-append bsize (front h ++ le_bytes16 c []) (back h rest) (omega arith))
    ∙ ap (λ (k : ℕ). summed (front h ++ le_bytes16 k tail)) c'
    ∙ tcp_checksum-eq-ip_checksum src dst bsize
        (front h ++ le_bytes16 (ip_checksum (before ++ (0 ∷ 0 ∷ tail))) tail)
    ∙ ip_checksum_verifies before tail refl
        (All-append IsByte (pseudo_header src dst bsize) (front h) (pseudo-bytes src dst bsize)
          (front-bytes h))
        (All-take IsByte (bsize - 18) (back h rest) (omega arith, (omega arith, bytes)))
  where
    net : TcpHdr
    net = record h {
      tcp_sport = htons h.tcp_sport;
      tcp_dport = htons h.tcp_dport;
      tcp_seqno = htonl h.tcp_seqno;
      tcp_ack_num = htonl h.tcp_ack_num;
      tcp_flags = htons h.tcp_flags;
      tcp_win_size = htons h.tcp_win_size;
      tcp_urg_ptr = htons h.tcp_urg_ptr;
      tcp_checksum = 0;
    }
