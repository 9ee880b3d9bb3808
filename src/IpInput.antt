-- ===== src/IpInput.antt =====
-- `ip_input` of src/ip.c: what becomes of a packet. The packet is its header and the memory behind
-- it. The ARP cache, the routes and the fragment buffers are one state, which the other parts of the
-- stack change; a protocol handler gets the header and its data and returns its value and the data
-- as it leaves them.
pub mod Verdict
pub mod Unbound
mod Tests
use xstack_io.Prelude.{
  ℕ, ◌+◌, ◌-◌, ◌*◌, ◌%◌, ◌/◌, ◌^◌, List, [], ◌∷◌, ◌++◌, Option, none, some, Bool, not, take, drop,
  bit_and, size, size_sub, ltb, ◌==◌, if◌then◌else◌,
}
use xstack_io.Prelude.Int.{ℤ, pos, neg, pos_part, ltb_ℤ, eqb_ℤ, to_int}
use xstack_io.Prelude.Errno.{enotsock}
use xstack_io.Ether.{MacAddr, EtherHdr}
use xstack_io.IpHdr.{IpHdr, ip_hdr_size, ip_hdr_hlen, ip_ntoh, ip_reply_header, ip_fragment_is_frag}
use xstack_io.Icmp.{icmp_generate_dest_unreachable}

abbrev pub icmp_code_hostunreac : ℕ
icmp_code_hostunreac = 1

abbrev pub icmp_code_protounreac : ℕ
icmp_code_protounreac = 2

abbrev pub icmp_code_portunreac : ℕ
icmp_code_portunreac = 3

abbrev pub IpHandler : Type 0 → Type 0
IpHandler W = IpHdr → List ℕ → W → ℤ × List ℕ × W

-- The parts of the stack that `ip_input` calls.
pub record IpStack (W : Type 0) : Type 0 where
  pub arp_cache_insert : ℕ → MacAddr → W → W
  pub has_iface : ℕ → W → Bool  -- ip_route_find_by_iface returns 0
  pub ip_fragment_input : IpHdr → List ℕ → W → W
  pub handlers : List (ℕ × IpHandler W)

unfoldable pub find_proto : {W : Type 0} → ℕ → List (ℕ × IpHandler W) → Option (IpHandler W)
find_proto proto [] = none
find_proto proto ((id, fn) ∷ rest) =
    let later = find_proto proto rest in if id == proto then some fn else later

-- The return value, the header and the memory behind it as they are left, and the state.
abbrev pub Result : Type 0 → Type 0
Result W = ℤ × IpHdr × List ℕ × W

-- The memory that a function of the data behind a header of `hlen` bytes leaves.
abbrev pub replace_data : ℕ → List ℕ → List ℕ → List ℕ
replace_data hlen rest written = take (hlen - ip_hdr_size) rest ++ written

unfoldable pub unreachable : {W : Type 0} → IpHdr → ℕ → List ℕ → ℕ → ℕ → W → Result W
unreachable ip code rest hlen bsize w =
    let (retval, net, buf) =
      icmp_generate_dest_unreachable ip code (drop (hlen - ip_hdr_size) rest)
        (size_sub bsize hlen) in
    (retval, net, replace_data hlen rest buf, w)

-- The call of a protocol's handler and what its value leads to.
unfoldable pub handle : {W : Type 0} → IpHandler W → IpHdr → List ℕ → ℕ → ℕ → W → Result W
unfolding unreachable
handle fn ip rest hlen bsize w =
    let room = drop (hlen - ip_hdr_size) rest in
    let n = size_sub bsize hlen in
    let (retval, written, w') = fn ip (take n room) w in
    let rest' = replace_data hlen rest (written ++ drop n room) in
    let (net, total) = ip_reply_header ip (pos_part retval) rest' in
    if ltb_ℤ (pos 0) retval
    then (to_int total, net, rest', w')
    else if eqb_ℤ retval (neg enotsock)
    then unreachable ip icmp_code_portunreac rest' hlen bsize w'
    else (retval, ip, rest', w')

-- A packet for this host, in host order.
unfoldable pub deliver : {W : Type 0} → IpStack W → IpHdr → List ℕ → ℕ → ℕ → W → Result W
unfolding find_proto handle unreachable
deliver stack ip rest hlen bsize w =
    if ip_fragment_is_frag ip
    then (pos 0, ip, rest, stack.ip_fragment_input ip (drop (hlen - ip_hdr_size) rest) w)
    else elim (find_proto ip.ip_proto stack.handlers) [
      | some fn ↦ handle fn ip rest hlen bsize w
      | none ↦ unreachable ip icmp_code_protounreac rest hlen bsize w
    ]

unfoldable pub learn : {W : Type 0} → IpStack W → Option EtherHdr → IpHdr → W → W
learn stack none ip w = w
learn stack (some e_hdr) ip w = stack.arp_cache_insert ip.ip_src e_hdr.h_src w

unfoldable pub host_order : Option EtherHdr → IpHdr → IpHdr
host_order none ip = ip
host_order (some e_hdr) ip = (ip_ntoh ip).0

unfoldable pub ip_input :
    {W : Type 0} → IpStack W → Option EtherHdr → IpHdr → List ℕ → ℕ → W → Result W
unfolding deliver learn host_order ip_hdr_hlen unreachable
ip_input stack e_hdr net rest bsize w =
    let ip = host_order e_hdr net in
    let hlen = ip_hdr_hlen ip in
    let w' = learn stack e_hdr ip w in
    if not (bit_and ip.ip_vhl 0x40 == 0x40)
    then (pos 0, ip, rest, w)
    else if ltb hlen 20
    then (pos 0, ip, rest, w)
    else if not (ip.ip_len == bsize)
    then (pos 0, ip, rest, w)
    else if not (stack.has_iface ip.ip_dst w')
    then unreachable ip icmp_code_hostunreac rest hlen bsize w'
    else deliver stack ip rest hlen bsize w'
