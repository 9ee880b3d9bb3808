-- ===== src/RbTree/Assoc.antt =====
-- A list of changes, the last one first, meets the laws of the trees: they can hold.
use xstack_io.Prelude.{
  ℕ, ◌≡◌, ◌≢◌, refl, sym, ap, ◌∙◌, List, [], ◌∷◌, Option, none, some, inl, inr, Option-cases,
}
use xstack_io.RbTree.{In, RbTree, IsRbTree}

abbrev pub Changes : Type 0 → Type 0
Changes K = List (K × Option ℕ)

module _ {K : Type 0} (dec : Discrete K) where
  abbrev found : K → Changes K → Option ℕ
  found k [] = none
  found k ((q, o) ∷ rest) = elim (dec k q) [ yes _ ↦ o | no _ ↦ found k rest ]

  -- The slots found under the keys of `list`.
  abbrev collect : Changes K → Changes K → List ℕ
  collect all [] = []
  collect all ((q, o) ∷ rest) = elim (found q all) [
    | none ↦ collect all rest
    | some i ↦ i ∷ collect all rest
  ]

  abbrev add : K → ℕ → Changes K → Changes K × Option ℕ
  add k i t = elim (found k t) [ none ↦ ((k, some i) ∷ t, none) | some j ↦ (t, some j) ]

  abbrev pub assoc : RbTree K (Changes K)
  assoc = record {
    empty = [];
    find = found;
    insert = add;
    remove = λ k i t. (k, none) ∷ t;
    to_list = λ t. collect t t;
  }

  at_key : (k q : K) (o : Option ℕ) (t : Changes K) → k ≡ q → found k ((q, o) ∷ t) ≡ o
  at_key k q o t e = elim (dec k q) as (λ d. (elim d [ yes _ ↦ o | no _ ↦ found k t ]) ≡ o) [
    | yes _ ↦ refl
    | no ne ↦ absurd (ne e)
  ]

  off_key : (k q : K) (o : Option ℕ) (t : Changes K) → k ≢ q → found k ((q, o) ∷ t) ≡ found k t
  off_key k q o t ne =
      elim (dec k q) as (λ d. (elim d [ yes _ ↦ o | no _ ↦ found k t ]) ≡ found k t) [
        | yes e ↦ absurd (ne e)
        | no _ ↦ refl
      ]

  add_free :
      (k : K) (i : ℕ) (t : Changes K) → found k t ≡ none → add k i t ≡ ((k, some i) ∷ t, none)
  add_free k i t e = ap (λ (f : Option ℕ). step f) e
    where
      step : Option ℕ → Changes K × Option ℕ
      step f = elim f [ none ↦ ((k, some i) ∷ t, none) | some j ↦ (t, some j) ]

  add_taken : (k : K) (i j : ℕ) (t : Changes K) → found k t ≡ some j → add k i t ≡ (t, some j)
  add_taken k i j t e = ap (λ (f : Option ℕ). step f) e
    where
      step : Option ℕ → Changes K × Option ℕ
      step f = elim f [ none ↦ ((k, some i) ∷ t, none) | some j ↦ (t, some j) ]

  -- One step of `collect`, by what is found under the key.
  abbrev with_slot : Option ℕ → List ℕ → List ℕ
  with_slot none list = list
  with_slot (some i) list = i ∷ list

  collect-cons :
      (all rest : Changes K) (q : K) (o f : Option ℕ)
      → found q all ≡ f
      → collect all ((q, o) ∷ rest) ≡ with_slot f (collect all rest)
  collect-cons all rest q o f e = split (found q all) ∙ ap (λ x. with_slot x (collect all rest)) e
    where
      split :
          (x : Option ℕ)
          → (elim x [ none ↦ collect all rest | some i ↦ i ∷ collect all rest ])
            ≡ with_slot x (collect all rest)
      split none = refl
      split (some i) = refl

  collected :
      (all list : Changes K) (k : K) (i j : ℕ)
      → found k list ≡ some j
      → found k all ≡ some i
      → In i (collect all list)
  collected all [] k i j e at = cc
  collected all ((q, o) ∷ rest) k i j e at = elim (dec k q) [
    | yes same ↦
        rw (collect-cons all rest q o (some i) (ap (λ x. found x all) (sym same) ∙ at)) (inl refl)
    | no ne ↦
        let later = collected all rest k i j (sym (off_key k q o rest ne) ∙ e) at in
        elim (Option-cases (found q all)) [
          | inl f ↦ rw (collect-cons all rest q o none f) later
          | inr (x, f) ↦ rw (collect-cons all rest q o (some x) f) (inr later)
        ]
  ]

  collect-found :
      (all list : Changes K) (i : ℕ) → In i (collect all list) → (k : K) × (found k all ≡ some i)
  collect-found all [] i m = elim m [ ]
  collect-found all ((q, o) ∷ rest) i m = elim (Option-cases (found q all)) [
    | inl f ↦ collect-found all rest i (rw (collect-cons all rest q o none f) at m)
    | inr (x, f) ↦
        let m' : In i (x ∷ collect all rest) = rw (collect-cons all rest q o (some x) f) at m in
        elim m' [ inl same ↦ (q, f ∙ ap some same) | inr m'' ↦ collect-found all rest i m'' ]
  ]

  add_other : (k q : K) (i : ℕ) (t : Changes K) → q ≢ k → found q (add k i t).0 ≡ found q t
  add_other k q i t ne = elim (Option-cases (found k t)) [
    | inl e ↦ ap (λ r. found q r.0) (add_free k i t e) ∙ off_key q k (some i) t ne
    | inr (j, e) ↦ ap (λ r. found q r.0) (add_taken k i j t e)
  ]

  pub assoc-IsRbTree : IsRbTree assoc
  assoc-IsRbTree = record {
    find-empty = λ k. refl;
    insert_free = λ k i t e. (
      ap (λ r. found k r.0) (add_free k i t e) ∙ at_key k k (some i) t refl,
      ap (λ r. r.1) (add_free k i t e),
    );
    insert_taken = add_taken;
    insert_other = add_other;
    remove_self = λ k i t e. at_key k k none t refl;
    remove_other = λ k q i t e ne. off_key q k none t ne;
    to_list_iff = λ i t. (collect-found t t i, λ p. collected t t p.0 i i p.1 p.1);
  }
