-- ===== src/IpHdr.antt =====
-- The IP header of src/xstack_ip.h and the functions of src/ip.c that convert it: `ip_hton`,
-- `ip_ntoh`, `ip_reply_header`. A header is the record of its fields as they stand in memory; the
-- options and the data behind it are a list of bytes.
pub mod Convert
mod Tests
use xstack_io.Prelude.{
  ℕ, ◌+◌, ◌*◌, ◌%◌, ◌/◌, ◌^◌, List, [], ◌∷◌, ◌++◌, Bool, not, ◌||◌, bit_and, u16, htons, ntohs,
  htonl, ntohl, take, le_bytes16, le_bytes32, ◌==◌, size,
}
use xstack_io.Checksum.{ip_checksum}

-- `struct ip_hdr`
pub record IpHdr : Type 0 where
  pub ip_vhl : ℕ  -- uint8_t
  pub ip_tos : ℕ  -- uint8_t
  pub ip_len : ℕ  -- uint16_t
  pub ip_id : ℕ  -- uint16_t
  pub ip_foff : ℕ  -- uint16_t
  pub ip_ttl : ℕ  -- uint8_t
  pub ip_proto : ℕ  -- uint8_t
  pub ip_csum : ℕ  -- uint16_t
  pub ip_src : ℕ  -- uint32_t
  pub ip_dst : ℕ  -- uint32_t

abbrev pub ip_vhl_default : ℕ
ip_vhl_default = 0x45

abbrev pub ip_tos_default : ℕ
ip_tos_default = 0

abbrev pub ip_toff_default : ℕ
ip_toff_default = 0x4000

abbrev pub ip_ttl_default : ℕ
ip_ttl_default = 64

abbrev pub ip_flags_mf : ℕ
ip_flags_mf = 0x2000

-- `sizeof(struct ip_hdr)`
abbrev pub ip_hdr_size : ℕ
ip_hdr_size = 20

unfoldable pub ip_hdr_hlen : IpHdr → ℕ
ip_hdr_hlen ip = bit_and ip.ip_vhl 0x0f * 4

unfoldable pub ip_fragment_is_frag : IpHdr → Bool
ip_fragment_is_frag hdr =
    not (bit_and hdr.ip_foff ip_flags_mf == 0) || not (bit_and hdr.ip_foff 0x1fff == 0)

-- The bytes of the packed struct in memory, and the bytes behind it.
abbrev pub ip_hdr_bytes : IpHdr → List ℕ → List ℕ
ip_hdr_bytes h rest =
    h.ip_vhl
    ∷ h.ip_tos
    ∷ le_bytes16 h.ip_len (
        le_bytes16 h.ip_id (
          le_bytes16 h.ip_foff (
            h.ip_ttl
            ∷ h.ip_proto
            ∷ le_bytes16 h.ip_csum (le_bytes32 h.ip_src (le_bytes32 h.ip_dst rest)))))

-- `rest` is what lies behind `net` in memory; the checksum reads it if the header has options.
unfoldable pub ip_hton : IpHdr → List ℕ → IpHdr
unfolding ip_hdr_hlen
ip_hton host rest =
    let hlen = ip_hdr_hlen host in
    let net : IpHdr = record host {
      ip_len = htons host.ip_len;
      ip_id = htons host.ip_id;
      ip_foff = htons host.ip_foff;
      ip_src = htonl host.ip_src;
      ip_dst = htonl host.ip_dst;
      ip_csum = 0;
    } in
    record net { ip_csum = ip_checksum (take hlen (ip_hdr_bytes net rest)) }

-- The host header and the length that the function returns.
unfoldable pub ip_ntoh : IpHdr → IpHdr × ℕ
unfolding ip_hdr_hlen
ip_ntoh net =
    let host : IpHdr = record net {
      ip_len = ntohs net.ip_len;
      ip_id = ntohs net.ip_id;
      ip_foff = ntohs net.ip_foff;
      ip_src = ntohl net.ip_src;
      ip_dst = ntohl net.ip_dst;
    } in
    (host, ip_hdr_hlen host)

-- The header that is sent back, in network order, and the size that the function returns.
unfoldable pub ip_reply_header : IpHdr → ℕ → List ℕ → IpHdr × ℕ
ip_reply_header ip bsize rest =
    let total = size (bsize + ip_hdr_hlen ip) in
    (
      ip_hton
          (record ip {
            ip_src = ip.ip_dst;
            ip_dst = ip.ip_src;
            ip_ttl = ip_ttl_default;
            ip_len = u16 total;
          })
          rest,
      total,
    )
