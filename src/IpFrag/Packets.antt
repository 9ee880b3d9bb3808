-- ===== src/IpFrag/Packets.antt =====
-- An independent description of the fragments of a packet, and how the header of one is made.
use xstack_io.Prelude.{
  ℕ, zero, suc, ◌+◌, ◌/◌, ◌%◌, ◌^◌, ◌≤◌, ◌<◌, ◌≡◌, refl, ap, ◌∙◌, arith, List, [], ◌∷◌, ◌++◌,
  Option, some, length, bit_or, u16, ◌==◌, if◌then◌else◌, false, ap₂, append_assoc,
}
use xstack_io.Prelude.Bits.{bit_or_flag, zero-bit_or}
use xstack_io.Prelude.Int.{ℤ, pos, ◌+ℤ◌}
use xstack_io.Ether.{MacAddr}
use xstack_io.Ether.Send.{Wire, make_frame}
use xstack_io.IpHdr.{IpHdr, ip_hdr_hlen, ip_hdr_bytes, ip_hton, ip_flags_mf}
use xstack_io.IpFrag.{next_fragment_size, fragment_hdr}

-- The independent description of a fragment: the header says how long it is, where it belongs, in
-- units of 8 bytes, and whether more follow.
abbrev pub more_flag : List (List ℕ) → ℕ
more_flag [] = 0
more_flag (part ∷ parts) = 0x2000

abbrev pub fragment_packet : IpHdr → ℕ → ℕ → List ℕ → List ℕ
fragment_packet h flag offset part =
    ip_hdr_bytes (ip_hton (record h { ip_len = 20 + length part; ip_foff = flag + offset / 8 }) [])
      part

abbrev pub fragment_frames : IpHdr → MacAddr → MacAddr → ℕ → List (List ℕ) → List (List ℕ)
fragment_frames h dst src offset [] = []
fragment_frames h dst src offset (part ∷ parts) =
    make_frame dst src 0x0800 (fragment_packet h (more_flag parts) offset part)
    ∷ fragment_frames h dst src (offset + length part) parts

abbrev pub joined : List (List ℕ) → List ℕ
joined [] = []
joined (part ∷ parts) = part ++ joined parts

-- Every part but the last is of whole units, and none is longer than a frame can take.
abbrev pub AreFragments : List (List ℕ) → Type 0
AreFragments [] = Unit
AreFragments (part ∷ []) = length part ≤ 1480
AreFragments (part ∷ next ∷ parts) =
    (length part % 8 ≡ 0) × (0 < length part) × (length part ≤ 1480) × AreFragments (next ∷ parts)

pub next_fragment_size_last : (bytes : ℕ) → bytes ≤ 1472 → next_fragment_size bytes 20 1500 ≡ bytes
unfolding next_fragment_size
next_fragment_size_last bytes short = ground arith

pub next_fragment_size_full : (bytes : ℕ) → 1472 < bytes → next_fragment_size bytes 20 1500 ≡ 1472
unfolding next_fragment_size
next_fragment_size_full bytes long = ground arith

pub not_zero : (n : ℕ) → 0 < n → (n == 0) ≡ false
not_zero n h = ground arith

pub foff_lem :
    (left offset : ℕ)
    → offset < 2 ^ 16
    → u16 (bit_or (if left == 0 then 0 else ip_flags_mf) (offset / 2 ^ 3))
      ≡ (if left == 0 then 0 else 0x2000) + offset / 8
foff_lem zero offset small = omega (arith, zero-bit_or (offset / 8))
foff_lem (suc left) offset small = grind (arith, bit_or_flag 13 (offset / 8) (omega arith))

pub ip_hton_no_opts :
    (h : IpHdr) (rest : List ℕ) → ip_hdr_hlen h ≡ 20 → ip_hton h rest ≡ ip_hton h []
unfolding ip_hton
ip_hton_no_opts h rest e = rw e refl

pub fragment_hdr_lem :
    (h : IpHdr) (n plen left offset : ℕ)
    → offset < 2 ^ 16
    → plen ≤ 1480
    → n ≡ plen
    → fragment_hdr h 20 plen left offset
      ≡ record h { ip_len = 20 + n; ip_foff = (if left == 0 then 0 else 0x2000) + offset / 8 }
unfolding fragment_hdr
fragment_hdr_lem h n plen left offset small short e =
    let len : u16 (20 + plen) ≡ 20 + n = omega arith in rw (foff_lem left offset small, len)

abbrev pub total_length : List (List ℕ) → ℕ
total_length [] = 0
total_length (f ∷ fs) = length f + total_length fs

pub pos-pos : (a b : ℕ) → pos a +ℤ pos b ≡ pos (a + b)
unfolding ◌+ℤ◌
pos-pos a b = ground arith

abbrev pub outcome : ℕ → Wire → Option (ℤ × Wire)
outcome n w = some (pos n, w)

-- One frame more in front of the others.
pub glue :
    (r : ℕ) (wire : Wire) (f : List ℕ) (frames : ℕ → List (List ℕ)) (off off' : ℕ)
    → off ≡ off'
    → outcome (r + length f + total_length (frames off)) ((wire ++ (f ∷ [])) ++ frames off)
      ≡ outcome (r + (length f + total_length (frames off'))) (wire ++ (f ∷ frames off'))
glue r wire f frames off off' e =
    ap₂ outcome (omega arith) (append_assoc wire (f ∷ []) (frames off))
    ∙ ap (λ o. outcome (r + (length f + total_length (frames o))) (wire ++ (f ∷ frames o))) e
