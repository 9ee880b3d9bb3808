-- ===== src/IpFragment/Piece.antt =====
-- What a buffer of src/ip_fragment.c holds of a packet, and what storing a fragment adds to it.
use xstack_io.Prelude.{
  ℕ, ◌+◌, ◌-◌, ◌*◌, ◌/◌, ◌%◌, ◌<◌, ◌≤◌, ◌≡◌, refl, sym, ap, ◌∙◌, arith, List, true, length, get_or,
  ◌⊎◌, inl, inr, ◌↔◌, bit_and, ℕ_discrete, same_test, differ_test, dec_lt,
}
use xstack_io.Prelude.Slices.{
  length-splice, get_or-splice_in, get_or-splice_below, get_or-splice_above,
}
use xstack_io.IpHdr.{IpHdr, ip_flags_mf}
use xstack_io.IpFragment.{
  PacketBuf, frag_map_size, ip_max_bytes, frag_off, frag_len, store_fragment, keep_header,
  fragmap_tst,
}
use xstack_io.IpFragment.Map.{length-mark_units, mark_units_lem}

-- The arrays have their sizes.
pub record IsSized (p : PacketBuf) : Type 0 where
  pub map_size : length p.fragmap ≡ frag_map_size
  pub payload_size : length p.payload ≡ ip_max_bytes

-- Each marked unit of the packet stands in the payload, and the length is not known or right.
pub record Holds (bytes : List ℕ) (p : PacketBuf) : Type 0 where
  pub marked :
      (d : ℕ)
      → d < length bytes
      → fragmap_tst p.fragmap (d / 8) ≡ true
      → get_or p.payload d 0 ≡ get_or bytes d 0
  pub total : (p.ip_hdr.ip_len ≡ 0) ⊎ (p.ip_hdr.ip_len ≡ length bytes)

-- The data `rx` behind the header is a part of the packet, of whole units but at its end, and the
-- fragment without IP_FLAGS_MF is the last part.
pub record IsPiece (bytes : List ℕ) (ip_hdr : IpHdr) (rx : List ℕ) : Type 0 where
  pub inside : frag_off ip_hdr + frag_len ip_hdr ≤ length bytes
  pub there : frag_len ip_hdr ≤ length rx
  pub same : (d : ℕ) → d < frag_len ip_hdr → get_or rx d 0 ≡ get_or bytes (frag_off ip_hdr + d) 0
  pub whole : (frag_len ip_hdr % 8 ≡ 0) ⊎ (frag_off ip_hdr + frag_len ip_hdr ≡ length bytes)
  pub last :
      bit_and ip_hdr.ip_foff ip_flags_mf ≡ 0 → frag_off ip_hdr + frag_len ip_hdr ≡ length bytes

pub store_fragment-IsSized :
    (ip_hdr : IpHdr) (rx : List ℕ) (p : PacketBuf)
    → IsSized p
    → frag_off ip_hdr + frag_len ip_hdr ≤ ip_max_bytes
    → frag_len ip_hdr ≤ length rx
    → IsSized (store_fragment ip_hdr rx p)
unfolding store_fragment
store_fragment-IsSized ip_hdr rx p sized fits there = record {
  map_size =
      length-mark_units ((frag_len ip_hdr + 7) / 8) (frag_off ip_hdr / 8) p.fragmap
      ∙ sized.map_size;
  payload_size =
      length-splice (frag_off ip_hdr) (frag_len ip_hdr) rx p.payload (rw (sized.payload_size) fits)
        there
      ∙ sized.payload_size;
}

-- A fragment begins at a unit.
off_whole : (ip_hdr : IpHdr) → frag_off ip_hdr % 8 ≡ 0
unfolding frag_off
off_whole ip_hdr = omega arith

-- The units that are marked after a fragment has been stored.
pub store_fragment_units :
    (ip_hdr : IpHdr) (rx : List ℕ) (p : PacketBuf) (j : ℕ)
    → IsSized p
    → frag_off ip_hdr + frag_len ip_hdr ≤ ip_max_bytes
    → (fragmap_tst (store_fragment ip_hdr rx p).fragmap j ≡ true) ↔ (
        ((frag_off ip_hdr ≤ 8 * j) × (8 * j < frag_off ip_hdr + frag_len ip_hdr))
        ⊎ (fragmap_tst p.fragmap j ≡ true))
unfolding store_fragment
store_fragment_units ip_hdr rx p j sized fits =
    let (sound, complete) =
      mark_units_lem ((n + 7) / 8) (off / 8) p.fragmap j
        (omega (arith, sized.map_size, fits, off_whole ip_hdr)) in
    (
      λ e. elim (sound e) [
        | inl (a, b) ↦ inl (omega (arith, a, off_whole ip_hdr), omega (arith, b, off_whole ip_hdr))
        | inr m ↦ inr m
      ],
      λ c. complete (elim c [
        | inl (a, b) ↦ inl (omega (arith, a, off_whole ip_hdr), omega (arith, b, off_whole ip_hdr))
        | inr m ↦ inr m
      ]),
    )
  where
    off : ℕ
    off = frag_off ip_hdr

    n : ℕ
    n = frag_len ip_hdr

-- The length that the kept header gets.
keep_header_len :
    (bytes : List ℕ) (ip_hdr kept : IpHdr) (rx : List ℕ)
    → IsPiece bytes ip_hdr rx
    → length bytes ≤ ip_max_bytes
    → (kept.ip_len ≡ 0) ⊎ (kept.ip_len ≡ length bytes)
    → ((keep_header ip_hdr kept).ip_len ≡ 0) ⊎ ((keep_header ip_hdr kept).ip_len ≡ length bytes)
unfolding keep_header
keep_header_len bytes ip_hdr kept rx piece small old = elim (ℕ_discrete (frag_off ip_hdr) 0) [
  | yes first ↦ rw (same_test (frag_off ip_hdr) 0 first) (inl refl)
  | no later ↦
      rw (differ_test (frag_off ip_hdr) 0 later)
        (elim (ℕ_discrete (bit_and ip_hdr.ip_foff ip_flags_mf) 0) [
          | yes clear ↦
              rw (same_test (bit_and ip_hdr.ip_foff ip_flags_mf) 0 clear)
                (inr (omega (arith, piece.last clear, small)))
          | no more ↦ rw (differ_test (bit_and ip_hdr.ip_foff ip_flags_mf) 0 more) old
        ])
]

-- A part of the packet that is stored leaves a buffer that holds parts of the packet.
pub store_fragment-Holds :
    (bytes : List ℕ) (ip_hdr : IpHdr) (rx : List ℕ) (p : PacketBuf)
    → IsSized p
    → length bytes ≤ ip_max_bytes
    → IsPiece bytes ip_hdr rx
    → Holds bytes p
    → let stored = store_fragment ip_hdr rx p in
      Holds bytes (record stored { ip_hdr = keep_header ip_hdr stored.ip_hdr })
unfolding store_fragment
store_fragment-Holds bytes ip_hdr rx p sized small piece holds = record {
  marked = λ d low up. at_byte d low ((store_fragment_units ip_hdr rx p (d / 8) sized fits).0 up);
  total = keep_header_len bytes ip_hdr p.ip_hdr rx piece small holds.total;
}
  where
    off : ℕ
    off = frag_off ip_hdr

    n : ℕ
    n = frag_len ip_hdr

    fits : off + n ≤ ip_max_bytes
    fits = omega (arith, piece.inside, small)

    room : off + n ≤ length p.payload
    room = omega (arith, fits, sized.payload_size)

    -- A byte of a unit of the fragment is a byte of the fragment.
    ends : (d : ℕ) → d < length bytes → 8 * (d / 8) < off + n → d < off + n
    ends d low up = elim piece.whole [
      | inl e ↦ omega (arith, e, off_whole ip_hdr, up)
      | inr e ↦ omega (arith, e, low)
    ]

    at_byte :
        (d : ℕ)
        → d < length bytes
        → ((off ≤ 8 * (d / 8)) × (8 * (d / 8) < off + n)) ⊎ (fragmap_tst p.fragmap (d / 8) ≡ true)
        → get_or (store_fragment ip_hdr rx p).payload d 0 ≡ get_or bytes d 0
    at_byte d low up = elim (dec_lt d off) [
      | yes below ↦ elim up [
        | inl within ↦ absurd (omega (arith, within.0, below))
        | inr m ↦
            get_or-splice_below off n rx p.payload 0 room piece.there d below ∙ holds.marked d low m
      ]
      | no after ↦ elim (dec_lt d (off + n)) [
        | yes in_it ↦
            let e : d ≡ off + (d - off) = omega (arith, after) in
            let here : d - off < n = omega (arith, after, in_it) in
            ap (λ k. get_or (store_fragment ip_hdr rx p).payload k 0) e
            ∙ get_or-splice_in off n rx p.payload 0 room piece.there (d - off) here
            ∙ piece.same (d - off) here
            ∙ ap (λ k. get_or bytes k 0) (sym e)
        | no above ↦ elim up [
          | inl within ↦ absurd (above (ends d low within.1))
          | inr m ↦
              let e : d ≡ off + n + (d - (off + n)) = omega (arith, above) in
              ap (λ k. get_or (store_fragment ip_hdr rx p).payload k 0) e
              ∙ get_or-splice_above off n rx p.payload 0 room piece.there (d - (off + n))
              ∙ ap (λ k. get_or p.payload k 0) (sym e)
              ∙ holds.marked d low m
        ]
      ]
    ]
