-- ===== src/IpFragment/Valid.antt =====
-- The invariant of the fragment buffers of src/ip_fragment.c, and the search for a buffer.
use mathlib.Core.HLevel.{×_discrete}
use mathlib.Core.Path.{subst}
use xstack_io.Prelude.{
  ℕ, suc, ◌+◌, ◌-◌, ◌<◌, ◌≤◌, ◌≡◌, ◌≢◌, refl, sym, ap, ◌∙◌, arith, List, [], ◌∷◌, Option, none,
  some, length, get_or, set, ◌⊎◌, inl, inr, ℕ_discrete, same_test, differ_test, Option-cases,
  length-set, replicate, drop, length-append, length-drop, get_or-set_self, get_or-set_ne,
}
use xstack_io.IpHdr.{IpHdr}
use xstack_io.RbTree.{RbTree, IsRbTree}
use xstack_io.IpFragment.{
  PacketBuf, FragState, BufId, no_buf, bufid, buf_at, fresh_buf, fragmap_init, reserve_from,
  get_packet_buffer,
}
use xstack_io.IpFragment.Piece.{IsSized}

pub bufid_discrete : Discrete BufId
bufid_discrete = ×_discrete ℕ_discrete (×_discrete ℕ_discrete (×_discrete ℕ_discrete ℕ_discrete))

-- A buffer that the search gets is free.
reserve_from-free :
    (i : ℕ) (list : List PacketBuf) (k : ℕ)
    → reserve_from i list ≡ some k
    → (i ≤ k) × (k < i + length list) × ((get_or list (k - i) no_buf).reserved ≡ 0)
unfolding reserve_from
reserve_from-free i [] k e = cc e
reserve_from-free i (p ∷ rest) k e = elim (ℕ_discrete p.reserved 0) [
  | yes free ↦
      let e' : some i ≡ some k = rw (same_test p.reserved 0 free) at e in
      let same : i ≡ k = cc e' in (omega (arith, same), omega (arith, same), at_head same free)
  | no busy ↦
      let e' : reserve_from (i + 1) rest ≡ some k = rw (differ_test p.reserved 0 busy) at e in
      let (low, high, free) = reserve_from-free (i + 1) rest k e' in
      (omega (arith, low), omega (arith, high), in_tail low free)
]
  where
    at_head : i ≡ k → p.reserved ≡ 0 → (get_or (p ∷ rest) (k - i) no_buf).reserved ≡ 0
    at_head same free = let z : k - i ≡ 0 = omega (arith, same) in rw z free

    in_tail :
        i + 1 ≤ k
        → (get_or rest (k - (i + 1)) no_buf).reserved ≡ 0
        → (get_or (p ∷ rest) (k - i) no_buf).reserved ≡ 0
    in_tail low free = let z : k - i ≡ suc (k - (i + 1)) = omega (arith, low) in rw z free

module _ {T : Type 0} (tree : RbTree BufId T) where
  -- A buffer that is found is in use by the packet that it is found under.
  pub record IsValid (s : FragState T) : Type 0 where
    pub sized : (i : ℕ) → i < length s.packet_buffer → IsSized (buf_at tree s i)
    pub linked :
        (id : BufId) (i : ℕ)
        → tree.find id s.packet_buffer_head ≡ some i
        → (i < length s.packet_buffer)
          × ((buf_at tree s i).reserved ≡ 1)
          × (bufid (buf_at tree s i).ip_hdr ≡ id)

  -- A buffer changes that no other packet has.
  pub changed-IsValid :
      (i : ℕ) (p : PacketBuf) (head : T) (s : FragState T)
      → IsValid s
      → i < length s.packet_buffer
      → IsSized p
      → ((id : BufId) (j : ℕ)
          → tree.find id head ≡ some j
          → ((j ≡ i) × (p.reserved ≡ 1) × (bufid p.ip_hdr ≡ id))
            ⊎ ((i ≢ j) × (tree.find id s.packet_buffer_head ≡ some j)))
      → IsValid (record { packet_buffer = set s.packet_buffer i p; packet_buffer_head = head })
  changed-IsValid i p head s v inside fits at = record {
    sized = λ j low. elim (ℕ_discrete i j) [
      | yes e ↦ rw (← e, here) fits
      | no ne ↦ rw (there j ne) (v.sized j (rw (length-set s.packet_buffer i p) at low))
    ];
    linked = λ id j e. rw (length-set s.packet_buffer i p) (elim (at id j e) [
      | inl (same, r, b) ↦ rw (same, here) (inside, r, b)
      | inr (ne, e') ↦ rw (there j ne) (v.linked id j e')
    ]);
  }
    where
      here : get_or (set s.packet_buffer i p) i no_buf ≡ p
      here = get_or-set_self s.packet_buffer i p no_buf inside

      there :
          (j : ℕ)
          → i ≢ j
          → get_or (set s.packet_buffer i p) j no_buf ≡ get_or s.packet_buffer j no_buf
      there j ne = get_or-set_ne s.packet_buffer i j p no_buf ne

  -- The buffer that a fragment gets: the one of its packet, or a new one, or none.
  unfoldable pub Buffered : IpHdr → FragState T → Option ℕ × FragState T → Type 0
  Buffered hdr s (found, s') =
      ((found ≡ none)
        × (s' ≡ s)
        × (tree.find (bufid hdr) s.packet_buffer_head ≡ none)
        × (reserve_from 0 s.packet_buffer ≡ none))
      ⊎ ((i : ℕ) × (found ≡ some i)
          × IsValid s'
          × (tree.find (bufid hdr) s'.packet_buffer_head ≡ some i)
          × ((s' ≡ s) ⊎ (buf_at tree s' i ≡ fresh_buf hdr (buf_at tree s i))))

  module _ (laws : IsRbTree tree) where
    fresh-IsSized : (hdr : IpHdr) (p : PacketBuf) → IsSized p → IsSized (fresh_buf hdr p)
    unfolding fresh_buf fragmap_init
    fresh-IsSized hdr p sized = record {
      map_size = omega (
        arith,
        length-append (replicate 64 0) (drop 64 p.fragmap),
        length-drop 64 p.fragmap,
        sized.map_size,
      );
      payload_size = sized.payload_size;
    }

    -- A free buffer, reserved and put under the packet.
    fresh-IsValid :
        (hdr : IpHdr) (s : FragState T) (i : ℕ)
        → IsValid s
        → tree.find (bufid hdr) s.packet_buffer_head ≡ none
        → reserve_from 0 s.packet_buffer ≡ some i
        → IsValid (record {
          packet_buffer = set s.packet_buffer i (fresh_buf hdr (buf_at tree s i));
          packet_buffer_head = (tree.insert (bufid hdr) i s.packet_buffer_head).0;
        })
    unfolding fresh_buf
    fresh-IsValid hdr s i v e r =
        changed-IsValid i (fresh_buf hdr (buf_at tree s i))
          (tree.insert (bufid hdr) i s.packet_buffer_head).0 s v inside
          (fresh-IsSized hdr (buf_at tree s i) (v.sized i inside)) keys
      where
        inside : i < length s.packet_buffer
        inside = omega (arith, (reserve_from-free 0 s.packet_buffer i r).1)

        was_free : (buf_at tree s i).reserved ≡ 0
        was_free =
            let z : i - 0 ≡ i = omega arith in
            ap (λ k. (get_or s.packet_buffer k no_buf).reserved) (sym z)
            ∙ (reserve_from-free 0 s.packet_buffer i r).2

        busy : {j : ℕ} → (buf_at tree s j).reserved ≡ 1 → i ≡ j → ⊥
        busy {j} used eq =
            let zero_here : (buf_at tree s j).reserved ≡ 0 =
              ap (λ k. (buf_at tree s k).reserved) (sym eq) ∙ was_free in
            omega (arith, used, zero_here)

        keys :
            (id : BufId) (j : ℕ)
            → tree.find id (tree.insert (bufid hdr) i s.packet_buffer_head).0 ≡ some j
            → ((j ≡ i)
                × ((fresh_buf hdr (buf_at tree s i)).reserved ≡ 1)
                × (bufid (fresh_buf hdr (buf_at tree s i)).ip_hdr ≡ id))
              ⊎ ((i ≢ j) × (tree.find id s.packet_buffer_head ≡ some j))
        keys id j at = elim (bufid_discrete id (bufid hdr)) [
          | yes same ↦
              let now : some i ≡ some j =
                sym (laws.insert_free (bufid hdr) i s.packet_buffer_head e).0
                ∙ ap (λ k. tree.find k (tree.insert (bufid hdr) i s.packet_buffer_head).0)
                    (sym same)
                ∙ at in
              let eq : j ≡ i = cc now in inl (eq, refl, sym same)
          | no ne ↦
              let old = sym (laws.insert_other (bufid hdr) id i s.packet_buffer_head ne) ∙ at in
              inr (λ eq. busy (v.linked id j old).1 eq, old)
        ]

    found_buffer :
        (hdr : IpHdr) (s : FragState T) (i : ℕ)
        → tree.find (bufid hdr) s.packet_buffer_head ≡ some i
        → get_packet_buffer tree hdr s ≡ (some i, s)
    unfolding get_packet_buffer
    found_buffer hdr s i e = rw (get_packet_buffer, e) refl

    no_buffer :
        (hdr : IpHdr) (s : FragState T)
        → tree.find (bufid hdr) s.packet_buffer_head ≡ none
        → reserve_from 0 s.packet_buffer ≡ none
        → get_packet_buffer tree hdr s ≡ (none, s)
    unfolding get_packet_buffer
    no_buffer hdr s e r = rw (get_packet_buffer, e, r) refl

    new_buffer :
        (hdr : IpHdr) (s : FragState T) (i : ℕ)
        → tree.find (bufid hdr) s.packet_buffer_head ≡ none
        → reserve_from 0 s.packet_buffer ≡ some i
        → get_packet_buffer tree hdr s ≡ (
          some i,
          record {
            packet_buffer = set s.packet_buffer i (fresh_buf hdr (buf_at tree s i));
            packet_buffer_head = (tree.insert (bufid hdr) i s.packet_buffer_head).0;
          },
        )
    unfolding get_packet_buffer fresh_buf
    new_buffer hdr s i e r =
        rw (get_packet_buffer, e, r, (laws.insert_free (bufid hdr) i s.packet_buffer_head e).1) refl

    pub get_packet_buffer_lem :
        (hdr : IpHdr) (s : FragState T) → IsValid s → Buffered hdr s (get_packet_buffer tree hdr s)
    unfolding Buffered
    get_packet_buffer_lem hdr s v =
        elim (Option-cases (tree.find (bufid hdr) s.packet_buffer_head)) [
          | inr (i, e) ↦
              subst (Buffered hdr s) (sym (found_buffer hdr s i e)) (inr (i, refl, v, e, inl refl))
          | inl e ↦ elim (Option-cases (reserve_from 0 s.packet_buffer)) [
            | inl r ↦ subst (Buffered hdr s) (sym (no_buffer hdr s e r)) (inl (refl, refl, e, r))
            | inr (i, r) ↦
                let inside : i < length s.packet_buffer =
                  omega (arith, (reserve_from-free 0 s.packet_buffer i r).1) in
                subst (Buffered hdr s) (sym (new_buffer hdr s i e r)) (
                  inr (
                    i,
                    refl,
                    fresh-IsValid hdr s i v e r,
                    (laws.insert_free (bufid hdr) i s.packet_buffer_head e).0,
                    inr (get_or-set_self s.packet_buffer i _ no_buf inside),
                  ))
          ]
        ]
