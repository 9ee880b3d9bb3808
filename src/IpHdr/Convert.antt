-- ===== src/IpHdr/Convert.antt =====
-- The conversions are inverse, and what is sent carries a checksum that verifies.
use xstack_io.Prelude.{
  All-take, take-append, ℕ, ◌+◌, ◌-◌, ◌*◌, ◌%◌, ◌^◌, ◌≤◌, ◌<◌, ◌≡◌, refl, ◌∙◌, ap, arith, List, [],
  ◌∷◌, ◌++◌, All, take, swap16-swap16, swap32-swap32, swap16-lt, swap32-lt, le_bytes16, le_bytes32,
  htons, htonl, u16, size,
}
use xstack_io.Prelude.Bits.{bit_and_low}
use xstack_io.Checksum.{ip_checksum}
use xstack_io.Checksum.Sum.{IsByte, ip_checksum-lt}
use xstack_io.Checksum.Verify.{ip_checksum_verifies}
use xstack_io.IpHdr.{
  IpHdr, ip_hdr_hlen, ip_hdr_bytes, ip_hton, ip_ntoh, ip_reply_header, ip_ttl_default,
}

-- Every field fits its C type.
pub record IsHdr (h : IpHdr) : Type 0 where
  pub vhl : h.ip_vhl < 2 ^ 8
  pub tos : h.ip_tos < 2 ^ 8
  pub len : h.ip_len < 2 ^ 16
  pub id : h.ip_id < 2 ^ 16
  pub foff : h.ip_foff < 2 ^ 16
  pub ttl : h.ip_ttl < 2 ^ 8
  pub proto : h.ip_proto < 2 ^ 8
  pub csum : h.ip_csum < 2 ^ 16
  pub src : h.ip_src < 2 ^ 32
  pub dst : h.ip_dst < 2 ^ 32

pub ip_hdr_hlen_lem : (h : IpHdr) → ip_hdr_hlen h ≡ h.ip_vhl % 16 * 4
unfolding ip_hdr_hlen
ip_hdr_hlen_lem h = ap (λ (t : ℕ). t * 4) (bit_and_low 4 h.ip_vhl)

-- A header that is sent and received again is the same but for the checksum that `ip_hton` fills
-- in, and the length that `ip_ntoh` returns is that of the header sent.
pub ip_ntoh-ip_hton :
    (h : IpHdr) (rest : List ℕ)
    → IsHdr h
    → ip_ntoh (ip_hton h rest) ≡ (record h { ip_csum = (ip_hton h rest).ip_csum }, ip_hdr_hlen h)
unfolding ip_ntoh ip_hton
ip_ntoh-ip_hton h rest ok = rw (
  swap16-swap16 h.ip_len ok.len,
  swap16-swap16 h.ip_id ok.id,
  swap16-swap16 h.ip_foff ok.foff,
  swap32-swap32 h.ip_src ok.src,
  swap32-swap32 h.ip_dst ok.dst,
)

pub ip_hton-IsHdr : (h : IpHdr) (rest : List ℕ) → IsHdr h → IsHdr (ip_hton h rest)
unfolding ip_hton
ip_hton-IsHdr h rest ok = record {
  vhl = ok.vhl;
  tos = ok.tos;
  len = swap16-lt h.ip_len;
  id = swap16-lt h.ip_id;
  foff = swap16-lt h.ip_foff;
  ttl = ok.ttl;
  proto = ok.proto;
  csum = ip_checksum-lt _;
  src = swap32-lt h.ip_src;
  dst = swap32-lt h.ip_dst;
}

-- The network header up to its checksum, and what follows the checksum.
abbrev front : IpHdr → List ℕ
front h =
    h.ip_vhl
    ∷ h.ip_tos
    ∷ le_bytes16 (htons h.ip_len)
        (le_bytes16 (htons h.ip_id) (le_bytes16 (htons h.ip_foff) (h.ip_ttl ∷ h.ip_proto ∷ [])))

abbrev back : IpHdr → List ℕ → List ℕ
back h rest = le_bytes32 (htonl h.ip_src) (le_bytes32 (htonl h.ip_dst) rest)

bytes32-bytes : (x : ℕ) (rest : List ℕ) → All IsByte rest → All IsByte (le_bytes32 x rest)
bytes32-bytes x rest h = (omega arith, (omega arith, (omega arith, (omega arith, h))))

front-bytes : (h : IpHdr) → IsHdr h → All IsByte (front h)
front-bytes h ok = omega arith

-- Let the header claim at least 20 bytes, and let its options be bytes. The checksum of the
-- header that `ip_hton` makes, options included, is 0: the receiver accepts it.
pub ip_hton_verifies :
    (h : IpHdr) (rest : List ℕ)
    → IsHdr h
    → All IsByte rest
    → 20 ≤ ip_hdr_hlen h
    → ip_checksum (take (ip_hdr_hlen h) (ip_hdr_bytes (ip_hton h rest) rest)) ≡ 0
unfolding ip_hton
ip_hton_verifies h rest ok bytes long =
    let n = ip_hdr_hlen h in
    let tail = take (n - 12) (back h rest) in
    let zeroed : take n (ip_hdr_bytes net rest) ≡ front h ++ (0 ∷ 0 ∷ tail) =
      take-append n (front h ++ (0 ∷ 0 ∷ [])) (back h rest) (omega arith) in
    let c = ip_checksum (take n (ip_hdr_bytes net rest)) in
    ap ip_checksum (take-append n (front h ++ le_bytes16 c []) (back h rest) (omega arith))
    ∙ ap (λ (k : ℕ). ip_checksum (front h ++ le_bytes16 k tail)) (ap ip_checksum zeroed)
    ∙ ip_checksum_verifies (front h) tail refl (front-bytes h ok) (
        All-take IsByte (n - 12) (back h rest) (
          bytes32-bytes (htonl h.ip_src) (le_bytes32 (htonl h.ip_dst) rest)
            (bytes32-bytes (htonl h.ip_dst) rest bytes)))
  where
    net : IpHdr
    net = record h {
      ip_len = htons h.ip_len;
      ip_id = htons h.ip_id;
      ip_foff = htons h.ip_foff;
      ip_src = htonl h.ip_src;
      ip_dst = htonl h.ip_dst;
      ip_csum = 0;
    }

-- A reply goes back where the packet came from, with a fresh time to live and the length of its
-- header and `bsize` bytes of data, which is also what the function returns; the receiver reads
-- just these fields, and the other ones as they were.
pub ip_reply_header_lem :
    (h : IpHdr) (bsize : ℕ) (rest : List ℕ)
    → IsHdr h
    → bsize + ip_hdr_hlen h < 2 ^ 16
    → let (net, total) = ip_reply_header h bsize rest in
      (total ≡ bsize + ip_hdr_hlen h)
      × ((ip_ntoh net).0 ≡ record h {
        ip_src = h.ip_dst;
        ip_dst = h.ip_src;
        ip_ttl = ip_ttl_default;
        ip_len = bsize + ip_hdr_hlen h;
        ip_csum = net.ip_csum;
      })
unfolding ip_reply_header
ip_reply_header_lem h bsize rest ok small =
    let total = bsize + ip_hdr_hlen h in
    let whole : size total ≡ total = omega arith in
    let len : u16 (size total) ≡ total = omega arith in
    (whole, rw len (ap (λ p. p.0) (ip_ntoh-ip_hton (reply total) rest (reply-IsHdr total small))))
  where
    reply : ℕ → IpHdr
    reply n = record h { ip_src = h.ip_dst; ip_dst = h.ip_src; ip_ttl = ip_ttl_default; ip_len = n }

    reply-IsHdr : (n : ℕ) → n < 2 ^ 16 → IsHdr (reply n)
    reply-IsHdr n p = omega (arith, ok.src)
