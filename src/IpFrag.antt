-- ===== src/IpFrag.antt =====
-- The fragmentation of src/ip.c: `ip_off_round`, `next_fragment_size` and `ip_send_fragments`. A
-- packet is its header in network order, the options and the data. The loop runs on fuel, one round
-- for each byte and one more, which IpFrag/Loop.antt shows to be enough.
pub mod Packets
pub mod Loop
mod Tests
use xstack_io.Prelude.{
  ℕ, zero, suc, ◌+◌, ◌-◌, ◌*◌, ◌/◌, ◌%◌, ◌^◌, List, [], ◌∷◌, ◌++◌, Option, none, some, length, take,
  drop, bit_and, bit_or, u16, size, size_sub, ltb, ◌==◌, if◌then◌else◌,
}
use xstack_io.Prelude.Int.{ℤ, pos, is_neg, ◌+ℤ◌}
use xstack_io.Ether.{MacAddr, ether_data_len, ether_proto_ipv4}
use xstack_io.Ether.Send.{EtherLinux, Wire, Sendto, ether_send}
use xstack_io.IpHdr.{IpHdr, ip_hdr_size, ip_hdr_bytes, ip_hton, ip_ntoh, ip_flags_mf}

-- `(plen + 7) & ~7`, with `~7` of type `int` extended to `size_t`
abbrev pub ip_off_round : ℕ → ℕ
ip_off_round plen = bit_and (size (plen + 7)) (2 ^ 64 - 8)

unfoldable pub next_fragment_size : ℕ → ℕ → ℕ → ℕ
next_fragment_size bytes hlen mtu =
    let most = ip_off_round (size_sub (size_sub mtu hlen) 8) in
    if ltb bytes most then bytes else most

-- The header of a fragment of `plen` bytes at `offset` with `bytes` to come.
unfoldable pub fragment_hdr : IpHdr → ℕ → ℕ → ℕ → ℕ → IpHdr
fragment_hdr h hlen plen bytes offset = record h {
  ip_len = u16 (hlen + plen);
  ip_foff = u16 (bit_or (if bytes == 0 then 0 else ip_flags_mf) (offset / 2 ^ 3));
}

module _ (ether_if : List EtherLinux) (sendto : Sendto) (handle : ℕ) (dst_mac : MacAddr)
    (opts : List ℕ) where
  -- One round: the fragment of `plen` bytes is moved to the front of the data and sent, with
  -- `bytes` left after it. The result is the data, the value of `ether_send` and the wire.
  unfoldable pub send_fragment : IpHdr → ℕ → List ℕ → ℕ → ℕ → ℕ → Wire → List ℕ × ℤ × Wire
  unfolding fragment_hdr
  send_fragment h hlen buf plen bytes offset wire =
      let host = fragment_hdr h hlen plen bytes offset in
      let net = ip_hton host (opts ++ buf) in
      let buf' = take plen (drop offset buf) ++ drop plen buf in
      let payload = ip_hdr_bytes net (opts ++ buf') in
      let (eret, wire') =
        ether_send ether_if sendto handle dst_mac ether_proto_ipv4 (take host.ip_len payload)
          wire in
      (buf', eret, wire')

  -- `none` stands for the fuel that has run out.
  unfoldable pub send_fragments : ℕ → IpHdr → ℕ → List ℕ → ℕ → ℕ → ℤ → Wire → Option (ℤ × Wire)
  unfolding send_fragment next_fragment_size
  send_fragments zero h hlen buf bytes offset retval wire = none
  send_fragments (suc fuel) h hlen buf bytes offset retval wire =
      let plen = next_fragment_size bytes hlen ether_data_len in
      let left = bytes - plen in
      let (buf', eret, wire') = send_fragment h hlen buf plen left offset wire in
      let rest =
        send_fragments fuel h hlen buf' left (size (offset + plen)) (retval +ℤ eret) wire' in
      if is_neg eret
      then some (eret, wire')
      else if left == 0
      then some (retval +ℤ eret, wire')
      else rest

  -- `net` is the header of the packet, of 20 bytes and the options, as it stands in the buffer.
  unfoldable pub ip_send_fragments : IpHdr → List ℕ → Wire → Option (ℤ × Wire)
  unfolding send_fragments
  ip_send_fragments net buf wire =
      let (ip_hdr, hlen) = ip_ntoh net in
      send_fragments (suc (length buf)) ip_hdr hlen buf (length buf) 0 (pos 0) wire
