-- ===== src/Arp/Cache/Insert.antt =====
-- The second half of `arp_cache_insert`: the entry is taken out of the tree, written and put in.
use mathlib.Core.Path.{subst}
use xstack_io.Prelude.{
  arith, ℕ, ◌≡◌, ◌≢◌, ◌⊎◌, ◌↔◌, inl, inr, refl, sym, ap, ◌∙◌, List, length-set, get_elem?, set,
  get_elem?-set_self, get_elem?-set_ne, get_or-set_ne, ℕ_discrete, Bool, Bool-cases, if◌then◌else◌,
}
use xstack_io.Prelude.Int.{negsuc, is_neg}
use xstack_io.Ether.{MacAddr}
use xstack_io.RbTree.{In}
use xstack_io.SlotTree.{SlotTree, SlotLaws}
use xstack_io.Arp.Cache.{
  ArpCacheEntry, ArpCacheEntryType, ArpTable, arp_cache_free, arp_cache_static, arp_cache_dyn,
  type_age, zero_entry, arp_cache_cmp, keys, replace_entry,
}
use xstack_io.Arp.Cache.Order.{Within}
use xstack_io.Arp.Cache.Scan.{At, IsAge, get_elem?-bound}
use xstack_io.Arp.Cache.Valid.{IsLive, IsValid, keys-At, At_unique, free_or_live}

type_age-IsAge : (type : ArpCacheEntryType) → IsAge (type_age type)
type_age-IsAge arp_cache_free = omega arith
type_age-IsAge arp_cache_static = omega arith
type_age-IsAge arp_cache_dyn = omega arith

module _ {S : Type 0} {slots : SlotTree S} {low : ℕ}
    (laws : SlotLaws slots (Within low) arp_cache_cmp) (s : ArpTable S) (ok : IsValid laws s)
    (ip_addr : ℕ) (within : Within low ip_addr) (nonzero : ip_addr ≢ 0) (haddr : MacAddr)
    (type : ArpCacheEntryType) (used : type_age type ≢ negsuc 1) (i : ℕ) (e : ArpCacheEntry)
    (at : At s.arp_cache i e)
    (alone : (j : ℕ) (x : ArpCacheEntry) → At s.arp_cache j x → x.ip_addr ≡ ip_addr → i ≡ j)
    (reuse : (e.ip_addr ≡ ip_addr) ⊎ (e.age ≡ negsuc 1)) where
  abbrev written : ArpCacheEntry
  written = record { ip_addr = ip_addr; haddr = haddr; age = type_age type }

  abbrev entries : List ArpCacheEntry
  entries = set s.arp_cache i written

  at_self : At entries i written
  at_self = get_elem?-set_self s.arp_cache i written (get_elem?-bound s.arp_cache i e at)

  at_other : (j : ℕ) → i ≢ j → get_elem? entries j ≡ get_elem? s.arp_cache j
  at_other j ne = get_elem?-set_ne s.arp_cache written ne

  keys_other : (j : ℕ) → i ≢ j → keys entries j ≡ keys s.arp_cache j
  keys_other j ne = ap (λ x. x.ip_addr) (get_or-set_ne s.arp_cache i j written zero_entry ne)

  -- The tree links what it linked, and the entry `i`.
  abbrev Relinked : S → Type 0
  Relinked h =
      laws.Fits (keys entries) h
      × ((j : ℕ)
          → In j (slots.to_list h) ↔ ((i ≡ j) ⊎ ((i ≢ j) × In j (slots.to_list s.arp_cache_head))))

  put_in :
      (h : S)
      → laws.Fits (keys s.arp_cache) h
      → ((j : ℕ) → In j (slots.to_list h) ↔ ((i ≢ j) × In j (slots.to_list s.arp_cache_head)))
      → Relinked (slots.insert arp_cache_cmp (keys entries) i h)
  put_in h fits members = (
    laws.Fits-insert (keys entries) i h fits' within' free_key,
    λ j.
        let inserted = laws.In-insert (keys entries) i h fits' within' free_key j in
        (
          λ m. elim (inserted.0 m) [ inl e' ↦ inl e' | inr m' ↦ inr ((members j).0 m') ],
          λ m. inserted.1 (elim m [ inl e' ↦ inl e' | inr m' ↦ inr ((members j).1 m') ]),
        ),
  )
    where
      fits' : laws.Fits (keys entries) h
      fits' =
          laws.Fits_agree (keys s.arp_cache) (keys entries) h
            (λ j m. keys_other j ((members j).0 m).0) fits

      within' : Within low (keys entries i)
      within' = subst (Within low) (sym (keys-At entries i written at_self)) within

      free_key : (j : ℕ) → In j (slots.to_list h) → keys entries j ≢ keys entries i
      free_key j m same =
          let (ne, m') = (members j).0 m in
          let (x, at_j, _) = ok.linked j m' in
          ne (
            alone j x at_j (
              sym (keys-At s.arp_cache j x at_j)
              ∙ sym (keys_other j ne)
              ∙ same
              ∙ keys-At entries i written at_self))

  relink_free :
      e.age ≡ negsuc 1 → Relinked (slots.insert arp_cache_cmp (keys entries) i s.arp_cache_head)
  relink_free is_free = put_in s.arp_cache_head ok.fits (λ j. (
    λ m. (
      λ same.
          let (x, at_j, is_live) = ok.linked j m in
          is_live (
            ap (λ y. y.age)
              (At_unique s.arp_cache i x e (subst (λ k. At s.arp_cache k x) (sym same) at_j) at)
            ∙ is_free),
      m,
    ),
    λ p. p.1,
  ))

  relink_dynamic :
      IsLive e
      → Relinked (slots.insert arp_cache_cmp (keys entries) i (slots.remove i s.arp_cache_head))
  relink_dynamic is_live =
      let m = ok.live i e at is_live in
      put_in (slots.remove i s.arp_cache_head)
        (laws.Fits-remove (keys s.arp_cache) i s.arp_cache_head ok.fits m)
        (laws.In-remove (keys s.arp_cache) i s.arp_cache_head ok.fits m)

  relink_static :
      IsLive e
      → e.ip_addr ≡ ip_addr
      → Relinked (slots.insert arp_cache_cmp (keys entries) i s.arp_cache_head)
  relink_static is_live same =
      subst Relinked (sym (laws.insert_taken (keys entries) i i s.arp_cache_head fits' m refl)) (
        fits',
        λ j. (
          λ n. elim (ℕ_discrete i j) [ yes e' ↦ inl e' | no ne ↦ inr (ne, n) ],
          λ n. elim n [
            | inl e' ↦ subst (λ k. In k (slots.to_list s.arp_cache_head)) e' m
            | inr n' ↦ n'.1
          ],
        ),
      )
    where
      m : In i (slots.to_list s.arp_cache_head)
      m = ok.live i e at is_live

      fits' : laws.Fits (keys entries) s.arp_cache_head
      fits' =
          laws.Fits_agree (keys s.arp_cache) (keys entries) s.arp_cache_head
            (λ j n. elim (ℕ_discrete i j) [
              | yes e' ↦
                  subst (λ k. keys entries k ≡ keys s.arp_cache k) e'
                    (keys-At entries i written at_self
                      ∙ sym same
                      ∙ sym (keys-At s.arp_cache i e at))
              | no ne ↦ keys_other j ne
            ])
            ok.fits

  abbrev result : Bool → S
  result negative =
      slots.insert arp_cache_cmp (keys entries) i
        (if negative then s.arp_cache_head else slots.remove i s.arp_cache_head)

  relinked : Relinked (result (is_neg e.age))
  relinked = elim (free_or_live e.age) [
    | inl is_free ↦ subst (λ b. Relinked (result b)) (sym (ap is_neg is_free)) (relink_free is_free)
    | inr is_live ↦ elim (Bool-cases (is_neg e.age)) [
      | inl negative ↦ elim reuse [
        | inl same ↦ subst (λ b. Relinked (result b)) (sym negative) (relink_static is_live same)
        | inr is_free ↦ absurd (is_live is_free)
      ]
      | inr dynamic ↦ subst (λ b. Relinked (result b)) (sym dynamic) (relink_dynamic is_live)
    ]
  ]

  -- What the array holds then.
  at_cases :
      (j : ℕ) (x : ArpCacheEntry)
      → At entries j x
      → ((i ≡ j) × (written ≡ x)) ⊎ ((i ≢ j) × At s.arp_cache j x)
  at_cases j x at_j = elim (ℕ_discrete i j) [
    | yes e' ↦
        inl (e', At_unique entries i written x at_self (subst (λ k. At entries k x) (sym e') at_j))
    | no ne ↦ inr (ne, sym (at_other j ne) ∙ at_j)
  ]

  distinct' :
      (j k : ℕ) (x y : ArpCacheEntry)
      → At entries j x
      → At entries k y
      → x.ip_addr ≢ 0
      → x.ip_addr ≡ y.ip_addr
      → j ≡ k
  distinct' j k x y at_j at_k ne same = elim (at_cases j x at_j) [
    | inl (ej, wx) ↦ elim (at_cases k y at_k) [
      | inl (ek, _) ↦ sym ej ∙ ek
      | inr (_, at_k') ↦ sym ej ∙ alone k y at_k' (sym same ∙ sym (ap (λ z. z.ip_addr) wx))
    ]
    | inr (_, at_j') ↦ elim (at_cases k y at_k) [
      | inl (ek, wy) ↦ sym (alone j x at_j' (same ∙ sym (ap (λ z. z.ip_addr) wy))) ∙ ek
      | inr (_, at_k') ↦ ok.distinct j k x y at_j' at_k' ne same
    ]
  ]

  -- An entry that is written over a free one, or over that of the same address, leaves the table
  -- consistent.
  pub replace_entry-IsValid : IsValid laws (replace_entry slots i e ip_addr haddr type s)
  unfolding replace_entry
  replace_entry-IsValid = record {
    size = length-set s.arp_cache i written ∙ ok.size;
    ages = λ j x at_j. elim (at_cases j x at_j) [
      | inl (_, w) ↦ subst (λ y. IsAge y.age) w (type_age-IsAge type)
      | inr (_, at_j') ↦ ok.ages j x at_j'
    ];
    fits = relinked.0;
    linked = λ j m. elim ((relinked.1 j).0 m) [
      | inl e' ↦ (written, subst (λ k. At entries k written) e' at_self, used)
      | inr (ne, m') ↦ let (x, at_j, is_live) = ok.linked j m' in (x, at_other j ne ∙ at_j, is_live)
    ];
    live = λ j x at_j is_live. (relinked.1 j).1 (elim (at_cases j x at_j) [
      | inl (e', _) ↦ inl e'
      | inr (ne, at_j') ↦ inr (ne, ok.live j x at_j' is_live)
    ]);
    addressed = λ j x at_j is_live. elim (at_cases j x at_j) [
      | inl (_, w) ↦ subst (λ y. y.ip_addr ≢ 0) w nonzero
      | inr (_, at_j') ↦ ok.addressed j x at_j' is_live
    ];
    distinct = distinct';
  }

  -- The array after the replacement.
  pub replace_entry-At : At (replace_entry slots i e ip_addr haddr type s).arp_cache i written
  unfolding replace_entry
  replace_entry-At = at_self

  pub replace_entry-cases :
      (j : ℕ) (x : ArpCacheEntry)
      → At (replace_entry slots i e ip_addr haddr type s).arp_cache j x
      → ((i ≡ j) × (written ≡ x)) ⊎ ((i ≢ j) × At s.arp_cache j x)
  unfolding replace_entry
  replace_entry-cases = at_cases

  pub replace_entry-other :
      (j : ℕ) (x : ArpCacheEntry)
      → i ≢ j
      → At s.arp_cache j x
      → At (replace_entry slots i e ip_addr haddr type s).arp_cache j x
  unfolding replace_entry
  replace_entry-other j x ne at_j = at_other j ne ∙ at_j
