-- ===== src/IpFragment.antt =====
-- src/ip_fragment.c: the reassembly of fragmented packets. Each packet has one of four buffers, in a
-- tree by source, destination, protocol and identification. `ip_input` and `ip_send` of src/ip.c, with
-- the state `W` of the rest of the stack, are arguments. `none` is a write beyond the payload array.
mod Tests
pub mod Map
pub mod Piece
pub mod Valid
pub mod Complete
pub mod Deliver
pub mod Reassembly
use xstack_io.Prelude.{
  ℕ, zero, suc, ◌+◌, ◌-◌, min, ◌*◌, ◌/◌, ◌%◌, ◌^◌, List, [], ◌∷◌, ◌++◌, Option, none, some, Bool,
  true, not, ◌&&◌, length, take, drop, replicate, set, get_or, bit_and, bit_or, ltb, ◌==◌,
  if◌then◌else◌, size_sub, u16,
}
use xstack_io.Prelude.Int.{ℤ, pos, negsuc, neg, ◌-ℤ◌, ltb_ℤ}
use xstack_io.Prelude.Errno.{emsgsize, enobufs}
use xstack_io.IpHdr.{IpHdr, ip_flags_mf, ip_hdr_hlen, ip_ntoh}
use xstack_io.Prelude.Slices.{splice}
use xstack_io.RbTree.{RbTree}

-- FRAG_MAP_SIZE
abbrev pub frag_map_size : ℕ
frag_map_size = 256

abbrev pub ip_max_bytes : ℕ
ip_max_bytes = 65535

abbrev pub xstack_ip_fragment_tlb : ℕ
xstack_ip_fragment_tlb = 15

-- The links of the tree are left out.
pub record PacketBuf : Type 0 where
  pub reserved : ℕ
  pub timer : ℤ
  pub fragmap : List ℕ  -- uint32_t
  pub ip_hdr : IpHdr
  pub payload : List ℕ

-- The static variables of the file.
pub record FragState (T : Type 0) : Type 0 where
  pub packet_buffer : List PacketBuf
  pub packet_buffer_head : T

-- `struct bufid` of `packet_buf_cmp`
abbrev pub BufId : Type 0
BufId = ℕ × (ℕ × (ℕ × ℕ))

abbrev pub bufid : IpHdr → BufId
bufid hdr = (hdr.ip_src, (hdr.ip_dst, (hdr.ip_proto, hdr.ip_id)))

-- What `memset` clears is FRAG_MAP_SIZE bytes, which are 64 words.
unfoldable pub fragmap_init : List ℕ → List ℕ
fragmap_init map = replicate (frag_map_size / 4) 0 ++ drop (frag_map_size / 4) map

unfoldable pub fragmap_set : List ℕ → ℕ → List ℕ
fragmap_set map i = set map (i / 32) (bit_or (get_or map (i / 32) 0) (2 ^ (i % 32)))

unfoldable pub fragmap_clear : List ℕ → ℕ → List ℕ
fragmap_clear map i = set map (i / 32) (bit_and (get_or map (i / 32) 0) (2 ^ 32 - 1 - 2 ^ (i % 32)))

unfoldable pub fragmap_tst : List ℕ → ℕ → Bool
fragmap_tst map i = not (bit_and (get_or map (i / 32) 0) (2 ^ (i % 32)) == 0)

-- The loop that marks `left` units from `i` on.
unfoldable pub mark_units : ℕ → ℕ → List ℕ → List ℕ
unfolding fragmap_set
mark_units zero i map = map
mark_units (suc left) i map = mark_units left (i + 1) (fragmap_set map i)

-- The loop that tests `left` units from `i` on: `!t` after it.
unfoldable pub all_units : ℕ → ℕ → List ℕ → Bool
unfolding fragmap_tst
all_units zero i map = true
all_units (suc left) i map = fragmap_tst map i && all_units left (i + 1) map

-- `off`
unfoldable pub frag_off : IpHdr → ℕ
frag_off ip_hdr = bit_and ip_hdr.ip_foff 0x1fff * 8

-- `ip_hdr->ip_len - ip_hdr_hlen(ip_hdr)`, a `size_t`
unfoldable pub frag_len : IpHdr → ℕ
unfolding ip_hdr_hlen
frag_len ip_hdr = size_sub ip_hdr.ip_len (ip_hdr_hlen ip_hdr)

-- The copy of the data and its mark, for data that ends within the payload.
unfoldable pub store_fragment : IpHdr → List ℕ → PacketBuf → PacketBuf
unfolding frag_off frag_len mark_units
store_fragment ip_hdr rx_packet p =
    let off = frag_off ip_hdr in
    let n = frag_len ip_hdr in
    record p {
      payload = splice off n rx_packet p.payload;
      fragmap = mark_units ((n + 7) / 8) (off / 8) p.fragmap;
    }

-- The header that the buffer keeps: the first fragment's, with the length from the last one.
unfoldable pub keep_header : IpHdr → IpHdr → IpHdr
unfolding frag_off frag_len
keep_header ip_hdr kept =
    if frag_off ip_hdr == 0
    then record ip_hdr { ip_len = 0; ip_foff = 0 }
    else if bit_and ip_hdr.ip_foff ip_flags_mf == 0
    then record kept { ip_len = u16 (frag_len ip_hdr + frag_off ip_hdr) }
    else kept

-- A zeroed buffer.
abbrev pub no_buf : PacketBuf
no_buf = record {
  reserved = 0;
  timer = pos 0;
  fragmap = replicate frag_map_size 0;
  ip_hdr = record {
    ip_vhl = 0;
    ip_tos = 0;
    ip_len = 0;
    ip_id = 0;
    ip_foff = 0;
    ip_ttl = 0;
    ip_proto = 0;
    ip_csum = 0;
    ip_src = 0;
    ip_dst = 0;
  };
  payload = replicate ip_max_bytes 0;
}

-- The first buffer that the test-and-set gets.
unfoldable pub reserve_from : ℕ → List PacketBuf → Option ℕ
reserve_from i [] = none
reserve_from i (p ∷ rest) =
    let later = reserve_from (i + 1) rest in if p.reserved == 0 then some i else later

-- A reserved buffer, before it is in the tree.
unfoldable pub fresh_buf : IpHdr → PacketBuf → PacketBuf
unfolding fragmap_init
fresh_buf hdr p = record p {
  reserved = 1;
  fragmap = fragmap_init p.fragmap;
  timer = pos xstack_ip_fragment_tlb;
  ip_hdr = record hdr { ip_foff = 0; ip_len = 0 };
}

-- `retval`, an `int`, as the `size_t` of a call.
abbrev pub int_size : ℤ → ℕ
int_size (pos n) = n
int_size (negsuc n) = 2 ^ 64 - 1 - n

-- `ip_input(NULL, ...)` with the header, the memory behind it and the size.
abbrev pub IpInput : Type 0 → Type 0
IpInput W = IpHdr → List ℕ → ℕ → W → ℤ × IpHdr × List ℕ × W

-- `ip_send` with the address, the protocol, the memory and the size.
abbrev pub IpSend : Type 0 → Type 0
IpSend W = ℕ → ℕ → List ℕ → ℕ → W → ℤ × W

-- The array with what was written to its memory.
abbrev pub overwrite : List ℕ → List ℕ → List ℕ
overwrite mem payload = splice 0 (min (length mem) (length payload)) mem payload

-- A complete packet goes through the input, and what the input leaves is sent: the header, the memory
-- behind it and the state.
unfoldable pub handle_packet :
    {W : Type 0} → IpInput W → IpSend W → IpHdr → List ℕ → W → IpHdr × List ℕ × W
handle_packet ip_input ip_send hdr payload w =
    let (retval, net, mem, w') = ip_input hdr payload hdr.ip_len w in
    let host = (ip_ntoh net).0 in
    let (sent, w'') = ip_send host.ip_dst host.ip_proto mem (int_size retval) w' in (host, mem, w'')

module _ {T : Type 0} (tree : RbTree BufId T) where
  abbrev pub buf_at : FragState T → ℕ → PacketBuf
  buf_at s i = get_or s.packet_buffer i no_buf

  -- The static variables at the start.
  abbrev pub no_packets : FragState T
  no_packets = record { packet_buffer = replicate 4 no_buf; packet_buffer_head = tree.empty }

  abbrev pub put_buf : ℕ → PacketBuf → FragState T → FragState T
  put_buf i p s = record s { packet_buffer = set s.packet_buffer i p }

  -- `id` is the key that the buffer is in the tree under.
  unfoldable pub release_packet_buffer : BufId → ℕ → FragState T → FragState T
  release_packet_buffer id i s = record {
    packet_buffer = set s.packet_buffer i (record (buf_at s i) { reserved = 0 });
    packet_buffer_head = tree.remove id i s.packet_buffer_head;
  }

  unfoldable pub get_packet_buffer : IpHdr → FragState T → Option ℕ × FragState T
  unfolding reserve_from fresh_buf release_packet_buffer
  get_packet_buffer hdr s = elim (tree.find (bufid hdr) s.packet_buffer_head) [
    | some i ↦ (some i, s)
    | none ↦ elim (reserve_from 0 s.packet_buffer) [
      | none ↦ (none, s)
      | some i ↦
          let (head, clash) = tree.insert (bufid hdr) i s.packet_buffer_head in
          let s' : FragState T = record {
            packet_buffer = set s.packet_buffer i (fresh_buf hdr (buf_at s i));
            packet_buffer_head = head;
          } in
          elim clash [
            | none ↦ (some i, s')
            | some j ↦ (none, release_packet_buffer (bufid hdr) i s')
          ]
    ]
  ]

  unfoldable pub deliver_packet :
      {W : Type 0} → IpInput W → IpSend W → BufId → ℕ → FragState T → W → FragState T × W
  unfolding handle_packet release_packet_buffer
  deliver_packet ip_input ip_send id i s w =
      let p = buf_at s i in
      let (host, mem, w') = handle_packet ip_input ip_send p.ip_hdr p.payload w in
      let p' : PacketBuf = record p { ip_hdr = host; payload = overwrite mem p.payload } in
      (release_packet_buffer id i (put_buf i p' s), w')

  -- What is done with the buffer of the fragment: the return value and the states.
  unfoldable pub accept_fragment :
      {W : Type 0}
      → IpInput W
      → IpSend W
      → IpHdr
      → List ℕ
      → ℕ
      → FragState T
      → W
      → Option (ℤ × FragState T × W)
  unfolding frag_off frag_len store_fragment keep_header all_units deliver_packet handle_packet
  accept_fragment ip_input ip_send ip_hdr rx_packet i s w =
      let p = store_fragment ip_hdr rx_packet (buf_at s i) in
      let p' : PacketBuf = record p { ip_hdr = keep_header ip_hdr p.ip_hdr } in
      let stored = put_buf i p' s in
      let (s', w') = deliver_packet ip_input ip_send (bufid ip_hdr) i stored w in
      if ltb ip_max_bytes (frag_off ip_hdr + frag_len ip_hdr)
      then none
      else if not (p'.ip_hdr.ip_len == 0) && all_units ((p'.ip_hdr.ip_len + 7) / 8) 0 p'.fragmap
      then some (pos 0, s', w')
      else some (pos 0, stored, w)

  unfoldable pub ip_fragment_input :
      {W : Type 0}
      → IpInput W
      → IpSend W
      → IpHdr
      → List ℕ
      → FragState T
      → W
      → Option (ℤ × FragState T × W)
  unfolding frag_off get_packet_buffer accept_fragment
  ip_fragment_input ip_input ip_send ip_hdr rx_packet s w =
      if ltb ip_max_bytes (frag_off ip_hdr)
      then some (neg emsgsize, s, w)
      else let (found, s') = get_packet_buffer ip_hdr s in
        elim found [
          | none ↦ some (neg enobufs, s', w)
          | some i ↦ accept_fragment ip_input ip_send ip_hdr rx_packet i s' w
        ]

  -- One buffer of the timer's loop.
  unfoldable pub age_buffer : ℤ → ℕ → FragState T → FragState T
  unfolding release_packet_buffer ◌-ℤ◌
  age_buffer delta_time i s =
      let p = buf_at s i in
      let left = p.timer -ℤ delta_time in
      let s' = put_buf i (record p { timer = left }) s in
      if p.reserved == 0
      then s
      else if ltb_ℤ (pos 0) left
      then s'
      else release_packet_buffer (bufid p.ip_hdr) i s'

  abbrev age_from : ℤ → ℕ → ℕ → FragState T → FragState T
  age_from delta_time zero i s = s
  age_from delta_time (suc left) i s = age_from delta_time left (i + 1) (age_buffer delta_time i s)

  unfoldable pub ip_fragment_timer : ℤ → FragState T → FragState T
  unfolding age_buffer
  ip_fragment_timer delta_time s = age_from delta_time (length s.packet_buffer) 0 s
