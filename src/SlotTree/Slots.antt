-- ===== src/SlotTree/Slots.antt =====
-- A list of the linked slots meets the laws of the trees over an array: they can hold.
use xstack_io.Prelude.{
  ℕ, zero, suc, ◌≡◌, ◌≢◌, ◌⊎◌, ◌↔◌, refl, sym, ap, ◌∙◌, List, [], ◌∷◌, Option, none, some, inl, inr,
  ℕ_discrete, Bool-cases, if◌then◌else◌, Bool, true, false,
}
use mathlib.Core.Path.{subst}
use xstack_io.Prelude.Int.{ℤ, pos, negsuc}
use xstack_io.RbTree.{In}
use xstack_io.SlotTree.{SlotTree, IsOrder, SlotLaws, IsSlotTree}

abbrev is_zero : ℤ → Bool
is_zero (pos zero) = true
is_zero (pos (suc n)) = false
is_zero (negsuc n) = false

-- The first slot whose key compares equal.
abbrev found : (ℕ → ℕ → ℤ) → (ℕ → ℕ) → ℕ → List ℕ → Option ℕ
found cmp keys k [] = none
found cmp keys k (i ∷ rest) = if is_zero (cmp k (keys i)) then some i else found cmp keys k rest

abbrev link : Option ℕ → ℕ → List ℕ → List ℕ
link none i t = i ∷ t
link (some _) i t = t

abbrev unlink : ℕ → List ℕ → List ℕ
unlink i [] = []
unlink i (x ∷ xs) = elim (ℕ_discrete i x) [ yes _ ↦ unlink i xs | no _ ↦ x ∷ unlink i xs ]

abbrev pub slots : SlotTree (List ℕ)
slots = record {
  empty = [];
  find = found;
  insert = λ cmp keys i t. link (found cmp keys (keys i) t) i t;
  remove = unlink;
  to_list = λ t. t;
}

is_zero_lem : (z : ℤ) → is_zero z ≡ true → z ≡ pos 0
is_zero_lem (pos zero) e = refl
is_zero_lem (pos (suc n)) e = cc
is_zero_lem (negsuc n) e = cc

In-unlink : (i j : ℕ) (t : List ℕ) → In j (unlink i t) ↔ ((i ≢ j) × In j t)
In-unlink i j [] = (λ m. absurd m, λ p. p.1)
In-unlink i j (x ∷ xs) =
    elim (ℕ_discrete i x)
      as (λ d.
        In j (elim d [ yes _ ↦ unlink i xs | no _ ↦ x ∷ unlink i xs ])
        ↔ ((i ≢ j) × In j (x ∷ xs))) [
          | yes e ↦ (
            λ m. let (ne, old) = (In-unlink i j xs).0 m in (ne, inr old),
            λ p.
                (In-unlink i j xs).1
                  (p.0, elim p.1 [ inl e' ↦ absurd (p.0 (e ∙ e')) | inr old ↦ old ]),
          )
          | no ne ↦ (
            λ m. elim m [
              | inl e ↦ (λ e'. ne (e' ∙ sym e), inl e)
              | inr m' ↦ let (ne', old) = (In-unlink i j xs).0 m' in (ne', inr old)
            ],
            λ p. elim p.1 [ inl e ↦ inl e | inr old ↦ inr ((In-unlink i j xs).1 (p.0, old)) ],
          )
        ]

module _ (P : ℕ → Type 0) (cmp : ℕ → ℕ → ℤ) (order : IsOrder P cmp) where
  Fitting : (ℕ → ℕ) → List ℕ → Type 0
  Fitting keys t =
      ((i : ℕ) → In i t → P (keys i)) × ((i j : ℕ) → In i t → In j t → keys i ≡ keys j → i ≡ j)

  same_zero : (a b : ℕ) → P a → a ≡ b → is_zero (cmp a b) ≡ true
  same_zero a b pa e = ap (λ x. is_zero (cmp a x)) (sym e) ∙ ap is_zero (order.cmp_refl a pa)

  other_zero : (a b : ℕ) → P a → P b → a ≢ b → is_zero (cmp a b) ≡ false
  other_zero a b pa pb ne = elim (Bool-cases (is_zero (cmp a b))) [
    | inl e ↦ absurd (ne (order.cmp_zero a b pa pb (is_zero_lem (cmp a b) e)))
    | inr e ↦ e
  ]

  found_in :
      (keys : ℕ → ℕ) (i : ℕ) (t : List ℕ)
      → Fitting keys t
      → In i t
      → found cmp keys (keys i) t ≡ some i
  unfolding Fitting
  found_in keys i [] fits m = absurd m
  found_in keys i (x ∷ xs) fits m = elim (ℕ_discrete (keys i) (keys x)) [
    | yes e ↦
        rw (same_zero (keys i) (keys x) (fits.0 i m) e) (ap some (fits.1 x i (inl refl) m (sym e)))
    | no ne ↦ rw (other_zero (keys i) (keys x) (fits.0 i m) (fits.0 x (inl refl)) ne) (
        found_in keys i xs (λ j m'. fits.0 j (inr m'), λ j k m' n'. fits.1 j k (inr m') (inr n'))
          (elim m [ inl e ↦ absurd (ne (ap keys (sym e))) | inr m' ↦ m' ]))
  ]

  found_out :
      (keys : ℕ → ℕ) (k : ℕ) (t : List ℕ)
      → ((i : ℕ) → In i t → P (keys i))
      → P k
      → ((i : ℕ) → In i t → keys i ≢ k)
      → found cmp keys k t ≡ none
  found_out keys k [] fits pk ne = refl
  found_out keys k (x ∷ xs) fits pk ne =
      rw (other_zero k (keys x) pk (fits x (inl refl)) (λ e. ne x (inl refl) (sym e)))
        (found_out keys k xs (λ j m. fits j (inr m)) pk (λ j m. ne j (inr m)))

  linked :
      (keys : ℕ → ℕ) (i : ℕ) (t : List ℕ)
      → Fitting keys t
      → P (keys i)
      → ((j : ℕ) → In j t → keys j ≢ keys i)
      → link (found cmp keys (keys i) t) i t ≡ i ∷ t
  unfolding Fitting
  linked keys i t fits pi ne = ap (λ f. link f i t) (found_out keys (keys i) t fits.0 pi ne)

  fits-cons :
      (keys : ℕ → ℕ) (i : ℕ) (t : List ℕ)
      → Fitting keys t
      → P (keys i)
      → ((j : ℕ) → In j t → keys j ≢ keys i)
      → Fitting keys (i ∷ t)
  unfolding Fitting
  fits-cons keys i t fits pi ne = (
    λ j m. elim m [ inl e ↦ subst (λ x. P (keys x)) e pi | inr old ↦ fits.0 j old ],
    λ j k m n e. elim m [
      | inl ej ↦ elim n [
        | inl ek ↦ sym ej ∙ ek
        | inr old ↦ absurd (ne k old (sym e ∙ ap keys (sym ej)))
      ]
      | inr old ↦ elim n [
        | inl ek ↦ absurd (ne j old (e ∙ ap keys (sym ek)))
        | inr old' ↦ fits.1 j k old old' e
      ]
    ],
  )

  slots_laws : SlotLaws slots P cmp
  unfolding Fitting
  slots_laws = record {
    Fits = Fitting;
    Fits-empty = λ keys. (λ i m. absurd m, λ i j m. absurd m);
    In-empty = λ i m. m;
    Fits_agree = λ keys keys' t same fits. (
      λ i m. subst P (sym (same i m)) (fits.0 i m),
      λ i j m n e. fits.1 i j m n (sym (same i m) ∙ e ∙ same j n),
    );
    find_in = found_in;
    find_out = λ keys k t fits. found_out keys k t fits.0;
    Fits-insert = λ keys i t fits pi ne.
        subst (Fitting keys) (sym (linked keys i t fits pi ne)) (fits-cons keys i t fits pi ne);
    In-insert = λ keys i t fits pi ne j.
        subst (λ l. In j l ↔ ((i ≡ j) ⊎ In j t)) (sym (linked keys i t fits pi ne))
          (λ m. m, λ m. m);
    insert_taken = λ keys i j t fits m e.
        ap (λ k. link (found cmp keys k t) i t) (sym e)
        ∙ ap (λ f. link f i t) (found_in keys j t fits m);
    Fits-remove = λ keys i t fits m. (
      λ j n. fits.0 j ((In-unlink i j t).0 n).1,
      λ j k n n'. fits.1 j k ((In-unlink i j t).0 n).1 ((In-unlink i k t).0 n').1,
    );
    In-remove = λ keys i t fits m j. In-unlink i j t;
  }

pub slots-IsSlotTree : IsSlotTree slots
slots-IsSlotTree P cmp order = slots_laws P cmp order
