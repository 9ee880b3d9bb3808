-- ===== src/Ether/Frame.antt =====
-- What `ether_send` puts on the wire, and when it puts nothing.
use xstack_io.Prelude.{
  ℕ, ◌+◌, ◌-◌, ◌/◌, ◌%◌, ◌^◌, ◌≤◌, ◌<◌, ◌≡◌, refl, sym, ap, ap₂, ◌∙◌, arith, max, List, [], ◌∷◌,
  ◌++◌, length, replicate, take, drop, htons, le_bytes16, le_bytes32, length-append,
  length-replicate, lt→ltb, ltb-false, take_exact, drop_exact, drop-drop, append_assoc, swap16,
}
use xstack_io.Prelude.Int.{neg}
use xstack_io.Prelude.Errno.{emsgsize}
use xstack_io.Ether.{MacAddr, ether_header_len, ether_maxlen, ether_fcs_len, ether_data_len}
use xstack_io.Ether.Fcs.{ether_fcs}
use xstack_io.Ether.Send.{EtherLinux, Wire, Sendto, frame_size, frame_body, make_frame, ether_send}

length-frame_body :
    (dst src : MacAddr) (proto : ℕ) (buf : List ℕ)
    → length dst ≡ 6
    → length src ≡ 6
    → length buf < 2 ^ 32
    → length (frame_body dst src proto buf) + 4 ≡ frame_size (length buf)
unfolding frame_body frame_size
length-frame_body dst src proto buf hd hs small =
    let pad = frame_size (length buf) - ether_fcs_len - ether_header_len - length buf in
    omega (
      arith,
      length-append dst (src ++ le_bytes16 (htons proto) (buf ++ replicate pad 0)),
      length-append src (le_bytes16 (htons proto) (buf ++ replicate pad 0)),
      length-append buf (replicate pad 0),
      length-replicate pad (let z : ℕ = 0 in z),
    )

frame_size_lem : (n : ℕ) → n < 2 ^ 32 → frame_size n ≡ 18 + max n 56
unfolding frame_size
frame_size_lem n h = omega arith

-- Data beyond the 1500 bytes of a frame are refused with EMSGSIZE, and nothing is sent.
pub ether_send_too_long :
    (ether_if : List EtherLinux) (sendto : Sendto) (handle : ℕ) (dst : MacAddr) (proto : ℕ)
    (buf : List ℕ) (wire : Wire)
    → ether_data_len < length buf
    → length buf < 2 ^ 32
    → ether_send ether_if sendto handle dst proto buf wire ≡ (neg emsgsize, wire)
unfolding ether_send
ether_send_too_long ether_if sendto handle dst proto buf wire long small = rw (
    lt→ltb (ether_maxlen + ether_fcs_len) (frame_size (length buf))
      (omega (arith, frame_size_lem (length buf) small)))

pub ether_send_fits :
    (eth : EtherLinux) (sendto : Sendto) (dst : MacAddr) (proto : ℕ) (buf : List ℕ) (wire : Wire)
    → length buf ≤ ether_data_len
    → ether_send (eth ∷ []) sendto 0 dst proto buf wire ≡ (
      sendto wire (make_frame dst eth.el_mac proto buf),
      wire ++ (make_frame dst eth.el_mac proto buf ∷ []),
    )
unfolding ether_send
ether_send_fits eth sendto dst proto buf wire small = rw (
    ltb-false (ether_maxlen + ether_fcs_len) (frame_size (length buf))
      (omega (arith, frame_size_lem (length buf) (omega arith))))

abbrev padding : List ℕ → List ℕ
padding buf = replicate (frame_size (length buf) - ether_fcs_len - ether_header_len - length buf) 0

frame_shape :
    (dst src : MacAddr) (proto : ℕ) (buf : List ℕ)
    → make_frame dst src proto buf
      ≡ dst
        ++ (src
            ++ le_bytes16
                (htons proto)
                (buf ++ (padding buf ++ le_bytes32 (ether_fcs (frame_body dst src proto buf)) [])))
unfolding make_frame
frame_shape dst src proto buf = unfold frame_body in simp append_assoc

module _ (dst src : MacAddr) (proto : ℕ) (buf : List ℕ) (hd : length dst ≡ 6) (hs : length src ≡ 6)
    (small : length buf < 2 ^ 32) where
  abbrev frame : List ℕ
  frame = make_frame dst src proto buf

  length-make_frame : length frame ≡ 18 + max (length buf) 56
  unfolding make_frame
  length-make_frame = omega (
    arith,
    length-append (frame_body dst src proto buf)
        (le_bytes32 (ether_fcs (frame_body dst src proto buf)) []),
    length-frame_body dst src proto buf hd hs small,
    frame_size_lem (length buf) small,
  )

  -- The fields stand where a receiver looks for them.
  make_frame_fields :
      (take 6 frame ≡ dst)
      × (take 6 (drop 6 frame) ≡ src)
      × (take 2 (drop 12 frame) ≡ proto / 256 % 256 ∷ proto % 256 ∷ [])
      × (take (length buf) (drop 14 frame) ≡ buf)
  make_frame_fields = (
    ap (take 6) shape ∙ take_exact 6 dst _ hd,
    ap (take 6) after_dst ∙ take_exact 6 src _ hs,
    ap (take 2) after_src ∙ unfold swap16 in ap₂ (λ a b. a ∷ b ∷ []) (omega arith) (omega arith),
    ap (take (length buf)) (sym (drop-drop 2 12 frame) ∙ ap (drop 2) after_src)
        ∙ take_exact (length buf) buf _ refl,
  )
    where
      rest : List ℕ
      rest = buf ++ (padding buf ++ le_bytes32 (ether_fcs (frame_body dst src proto buf)) [])

      shape : frame ≡ dst ++ (src ++ le_bytes16 (htons proto) rest)
      shape = frame_shape dst src proto buf

      after_dst : drop 6 frame ≡ src ++ le_bytes16 (htons proto) rest
      after_dst = ap (drop 6) shape ∙ drop_exact 6 dst _ hd

      after_src : drop 12 frame ≡ le_bytes16 (htons proto) rest
      after_src = sym (drop-drop 6 6 frame) ∙ ap (drop 6) after_dst ∙ drop_exact 6 src _ hs

  make_frame_fcs :
      drop (length frame - 4) frame ≡ le_bytes32 (ether_fcs (take (length frame - 4) frame)) []
  unfolding make_frame
  make_frame_fcs =
      let body = frame_body dst src proto buf in
      let crc = le_bytes32 (ether_fcs body) [] in
      let cut : length body ≡ length frame - 4 = omega (arith, length-append body crc) in
      drop_exact (length frame - 4) body crc cut
      ∙ ap (λ l. le_bytes32 (ether_fcs l) []) (sym (take_exact (length frame - 4) body crc cut))

-- Up to 1500 bytes of data on an open interface make one frame of 18 bytes more than the data, or
-- 74 for short data: both addresses, the type in network order, the data, and in the last four
-- bytes the check sequence of all the bytes before them. The result is that of the kernel.
pub ether_send_frame :
    (eth : EtherLinux) (sendto : Sendto) (dst : MacAddr) (proto : ℕ) (buf : List ℕ) (wire : Wire)
    → length dst ≡ 6
    → length eth.el_mac ≡ 6
    → length buf ≤ ether_data_len
    → let (retval, wire') = ether_send (eth ∷ []) sendto 0 dst proto buf wire in
      (frame : List ℕ) × (wire' ≡ wire ++ (frame ∷ []))
      × (retval ≡ sendto wire frame)
      × (length frame ≡ 18 + max (length buf) 56)
      × (take 6 frame ≡ dst)
      × (take 6 (drop 6 frame) ≡ eth.el_mac)
      × (take 2 (drop 12 frame) ≡ proto / 256 % 256 ∷ proto % 256 ∷ [])
      × (take (length buf) (drop 14 frame) ≡ buf)
      × (drop (length frame - 4) frame ≡ le_bytes32 (ether_fcs (take (length frame - 4) frame)) [])
ether_send_frame eth sendto dst proto buf wire hd hs small =
    let sent = ether_send_fits eth sendto dst proto buf wire small in
    let fits : length buf < 2 ^ 32 = omega arith in
    let fields = make_frame_fields dst eth.el_mac proto buf hd hs fits in
    (
      make_frame dst eth.el_mac proto buf,
      ap (λ p. p.1) sent,
      ap (λ p. p.0) sent,
      length-make_frame dst eth.el_mac proto buf hd hs fits,
      fields.0,
      fields.1,
      fields.2,
      fields.3,
      make_frame_fcs dst eth.el_mac proto buf hd hs fits,
    )
