-- ===== src/Icmp.antt =====
-- src/icmp.c and src/xstack_icmp.h: the echo reply and the destination unreachable message. A
-- message is the list of bytes from its first one to the end of the frame's buffer.
pub mod Reply
mod Tests
use xstack_io.Prelude.{
  ℕ, ◌+◌, ◌*◌, ◌%◌, ◌/◌, ◌^◌, List, [], ◌∷◌, ◌++◌, length, take, drop, set, get_or, min, size, ltb,
  ◌==◌, if◌then◌else◌,
}
use xstack_io.Prelude.Int.{ℤ, neg, to_int}
use xstack_io.Prelude.Errno.{ebadmsg, enomsg}
use xstack_io.Checksum.{ip_checksum}
use xstack_io.IpHdr.{IpHdr, ip_hdr_bytes, ip_hton, ip_reply_header, ip_vhl_default, ip_tos_default}

abbrev pub icmp_type_echo_reply : ℕ
icmp_type_echo_reply = 0

abbrev pub icmp_type_destunreac : ℕ
icmp_type_destunreac = 3

abbrev pub icmp_type_echo_request : ℕ
icmp_type_echo_request = 8

-- `sizeof(struct icmp)`, and `sizeof(struct icmp_destunreac)` with its header of 20 bytes and its
-- data of 8
abbrev pub icmp_size : ℕ
icmp_size = 8

abbrev pub icmp_destunreac_size : ℕ
icmp_destunreac_size = 36

abbrev pub ip_proto_icmp : ℕ
ip_proto_icmp = 1

-- `icmp_csum`, the bytes 2 and 3, as `uint16_t`
abbrev pub set_icmp_csum : List ℕ → ℕ → List ℕ
set_icmp_csum msg csum = set (set msg 2 (csum % 256)) 3 (csum / 256 % 256)

-- The payload is `bsize` bytes. `icmp_ntoh` copies the fields that are read.
unfoldable pub icmp_input : List ℕ → ℤ × List ℕ
icmp_input payload =
    let bsize = length payload in
    let zeroed = set_icmp_csum (set payload 0 icmp_type_echo_reply) 0 in
    if ltb bsize icmp_size
    then (neg ebadmsg, payload)
    else if get_or payload 0 0 == icmp_type_echo_request
    then (to_int bsize, set_icmp_csum zeroed (ip_checksum zeroed))
    else (neg enomsg, payload)

-- The return value, the header that goes out, and the buffer. `bsize` is the size of the data of
-- the packet that cannot be delivered, which stand at the start of the buffer.
unfoldable pub icmp_generate_dest_unreachable : IpHdr → ℕ → List ℕ → ℕ → ℤ × IpHdr × List ℕ
icmp_generate_dest_unreachable hdr code buf bsize =
    let n = min 8 bsize in
    let msg_size = icmp_destunreac_size + n in
    let moved = take 28 buf ++ (take n buf ++ drop (28 + n) buf) in
    let msg = icmp_type_destunreac ∷ code ∷ 0 ∷ 0 ∷ 0 ∷ 0 ∷ 0 ∷ 0 ∷ drop 8 moved in
    let summed = set_icmp_csum msg (ip_checksum (take msg_size msg)) in
    let rest = drop 28 summed in
    let quoted = take 8 summed ++ ip_hdr_bytes (ip_hton hdr rest) rest in
    let hdr' : IpHdr = record hdr {
      ip_vhl = ip_vhl_default;
      ip_tos = ip_tos_default;
      ip_proto = ip_proto_icmp;
    } in
    let (net, total) = ip_reply_header hdr' msg_size [] in
    (to_int (size (msg_size + total)), net, quoted)
