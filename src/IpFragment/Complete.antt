-- ===== src/IpFragment/Complete.antt =====
-- When a buffer of src/ip_fragment.c is complete, and what it holds then.
use xstack_io.Prelude.{
  ℕ, zero, suc, ◌+◌, ◌*◌, ◌/◌, ◌<◌, ◌≤◌, ◌≡◌, refl, ap, arith, List, [], ◌∷◌, Bool, true, false,
  not, ◌&&◌, length, get_or, take, ◌==◌, ◌⊎◌, inl, inr, ℕ_discrete, same_test, differ_test,
  either_branch, bit_and,
}
use xstack_io.IpHdr.{IpHdr, ip_flags_mf}
use xstack_io.IpFragment.{
  PacketBuf, bufid, fresh_buf, fragmap_tst, store_fragment, keep_header, frag_off, all_units,
  ip_max_bytes,
}
use xstack_io.IpFragment.Map.{all_units_iff, all_units-missing, fragmap_tst-fragmap_init}
use xstack_io.IpFragment.Piece.{IsSized, Holds}

-- A new buffer holds nothing yet. What `fragmap_init` clears is enough for packets of 16384 bytes.
pub fresh-Holds :
    (bytes : List ℕ) (hdr : IpHdr) (p : PacketBuf)
    → length bytes ≤ 16384
    → Holds bytes (fresh_buf hdr p)
unfolding fresh_buf
fresh-Holds bytes hdr p small = record {
  marked = λ d low up.
      let out = fragmap_tst-fragmap_init p.fragmap (d / 8) (omega (arith, low, small)) in
      cc (up, out);
  total = inl refl;
}

-- The header that a buffer keeps has the fragment's key.
pub keep_header-bufid :
    (ip_hdr kept : IpHdr)
    → bufid kept ≡ bufid ip_hdr
    → bufid (keep_header ip_hdr kept) ≡ bufid ip_hdr
unfolding keep_header
keep_header-bufid ip_hdr kept e =
    either_branch (λ h. bufid h ≡ bufid ip_hdr) (frag_off ip_hdr == 0) _ _ refl
      (either_branch (λ h. bufid h ≡ bufid ip_hdr) (bit_and ip_hdr.ip_foff ip_flags_mf == 0) _ _ e
        e)

-- The buffer with a fragment.
abbrev pub with_fragment : IpHdr → List ℕ → PacketBuf → PacketBuf
with_fragment ip_hdr rx p =
    let stored = store_fragment ip_hdr rx p in
    record stored { ip_hdr = keep_header ip_hdr stored.ip_hdr }

-- All the units of a packet of a known length have come.
abbrev pub is_complete : PacketBuf → Bool
is_complete p = not (p.ip_hdr.ip_len == 0) && all_units ((p.ip_hdr.ip_len + 7) / 8) 0 p.fragmap

-- The length is not known, or a unit is missing.
abbrev pub Waits : PacketBuf → Type 0
Waits p =
    (p.ip_hdr.ip_len ≡ 0)
    ⊎ ((j : ℕ) × (8 * j < p.ip_hdr.ip_len) × (fragmap_tst p.fragmap j ≡ false))

pub incomplete-Waits : (p : PacketBuf) → is_complete p ≡ false → Waits p
incomplete-Waits p e = elim (ℕ_discrete p.ip_hdr.ip_len 0) [
  | yes z ↦ inl z
  | no nz ↦
      let e' : all_units ((p.ip_hdr.ip_len + 7) / 8) 0 p.fragmap ≡ false =
        rw (differ_test p.ip_hdr.ip_len 0 nz) at e in
      let (j, low, high, out) = all_units-missing ((p.ip_hdr.ip_len + 7) / 8) 0 p.fragmap e' in
      inr (j, omega (arith, high), out)
]

agree-take :
    (n : ℕ) (xs ys : List ℕ)
    → length xs ≡ n
    → n ≤ length ys
    → ((d : ℕ) → d < n → get_or ys d 0 ≡ get_or xs d 0)
    → take n ys ≡ xs
agree-take zero [] ys e h same = refl
agree-take (suc n) [] ys e h same = absurd (omega (arith, e))
agree-take zero (x ∷ xs) ys e h same = absurd (omega (arith, e))
agree-take (suc n) (x ∷ xs) [] e h same = absurd (omega (arith, h))
agree-take (suc n) (x ∷ xs) (y ∷ ys) e h same =
    rw
      (
        same 0 (omega arith),
        agree-take n xs ys (omega (arith, e)) (omega (arith, h))
            (λ d low. same (suc d) (omega (arith, low))),
      )
      refl

-- A complete buffer holds the packet.
pub complete-bytes :
    (bytes : List ℕ) (p : PacketBuf)
    → IsSized p
    → length bytes ≤ ip_max_bytes
    → Holds bytes p
    → is_complete p ≡ true
    → (p.ip_hdr.ip_len ≡ length bytes) × (take (length bytes) p.payload ≡ bytes)
complete-bytes bytes p sized small holds e = elim (ℕ_discrete p.ip_hdr.ip_len 0) [
  | yes z ↦ cc (
    e,
    ap (λ b. not b && all_units ((p.ip_hdr.ip_len + 7) / 8) 0 p.fragmap)
        (same_test p.ip_hdr.ip_len 0 z),
  )
  | no nz ↦
      let all : all_units ((p.ip_hdr.ip_len + 7) / 8) 0 p.fragmap ≡ true =
        rw (differ_test p.ip_hdr.ip_len 0 nz) at e in
      let known : p.ip_hdr.ip_len ≡ length bytes = elim holds.total [
        | inl z ↦ absurd (nz z)
        | inr k ↦ k
      ] in
      (
        known,
        agree-take (length bytes) bytes p.payload refl (omega (arith, small, sized.payload_size))
            (λ d low. holds.marked d low (
              (all_units_iff ((p.ip_hdr.ip_len + 7) / 8) 0 p.fragmap).0 all (d / 8) (omega arith)
                (omega (arith, low, known)))),
      )
]
