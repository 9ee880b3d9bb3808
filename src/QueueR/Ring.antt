-- ===== src/QueueR/Ring.antt =====
-- Arithmetic of indices that go round at `cap`, and the list of blocks between two of them.
use native.Mathlib.Nat.{mod-eq_of_lt, mod-eq-sub-mod}
use mathlib.Core.List.{List, [], ◌∷◌, ◌++◌}
use xstack_io.Prelude.{
  ℕ, zero, suc, ◌+◌, ◌-◌, ◌*◌, ◌%◌, ◌≤◌, ◌<◌, ◌≡◌, ◌≢◌, ◌⊎◌, inl, inr, refl, ap, ap₂, ◌∙◌, arith,
  length, if◌then◌else◌, dec_lt,
}
use xstack_io.Prelude.Int.{ℤ, pos, eqb_ℤ}

-- How many steps lead from index `h` to index `j`.
abbrev pub distance : ℕ → ℕ → ℕ → ℕ
distance cap h j = (j + cap - h) % cap

pub next_cases :
    (cap h : ℕ)
    → h < cap
    → ((h + 1 < cap) × ((h + 1) % cap ≡ h + 1)) ⊎ ((h + 1 ≡ cap) × ((h + 1) % cap ≡ 0))
next_cases cap h p = grind arith

pub distance_cases :
    (cap h j : ℕ)
    → h < cap
    → j < cap
    → ((h ≤ j) × (distance cap h j ≡ j - h)) ⊎ ((j < h) × (distance cap h j ≡ j + cap - h))
distance_cases cap h j p q = elim (dec_lt j h) [
  | yes lt ↦ inr (lt, mod-eq_of_lt (omega arith))
  | no ge ↦ inl (
    omega arith,
    mod-eq-sub-mod {n = j + cap - h} {m = cap} (omega arith)
        ∙ mod-eq_of_lt {n = j + cap - h - cap} {m = cap} (omega arith)
        ∙ omega arith,
  )
]

scale_lt : (b i j : ℕ) → 0 < b → i < j → i * b < j * b
scale_lt b i j p h = grind arith

pub scale_ne : (b i j : ℕ) → 0 < b → i ≢ j → i * b ≢ j * b
scale_ne b i j p ne = elim (dec_lt i j) [
  | yes lt ↦ omega (arith, scale_lt b i j p lt)
  | no ge ↦ omega (arith, scale_lt b j i p (omega arith))
]

module _ {ℓ} {A : Type ℓ} where
  -- What the data area holds at each offset.
  abbrev pub update : (ℤ → A) → ℤ → A → ℤ → A
  update mem off v o = if eqb_ℤ o off then v else mem o

  -- The `n` blocks of `b` bytes from index `h` on.
  abbrev pub window : (ℤ → A) → ℕ → ℕ → ℕ → ℕ → List A
  window mem b cap h zero = []
  window mem b cap h (suc n) = mem (pos (h * b)) ∷ window mem b cap ((h + 1) % cap) n

  pub length-window : (mem : ℤ → A) (b cap h n : ℕ) → length (window mem b cap h n) ≡ n
  length-window mem b cap h zero = refl
  length-window mem b cap h (suc n) = ap suc (length-window mem b cap ((h + 1) % cap) n)

  pub update_self : (mem : ℤ → A) (i : ℕ) (v : A) → update mem (pos i) v (pos i) ≡ v
  update_self mem i v = ground arith

  pub update_ne :
      (mem : ℤ → A) (b i j : ℕ) (v : A)
      → 0 < b
      → i ≢ j
      → update mem (pos (j * b)) v (pos (i * b)) ≡ mem (pos (i * b))
  update_ne mem b i j v p ne = ground (arith, scale_ne b i j p ne)

  -- A write at or past the end of a window leaves it alone.
  pub window-update :
      (mem : ℤ → A) (b cap h n j : ℕ) (v : A)
      → 0 < b
      → h < cap
      → j < cap
      → n ≤ distance cap h j
      → window (update mem (pos (j * b)) v) b cap h n ≡ window mem b cap h n
  window-update mem b cap h zero j v pb ph pj d = refl
  window-update mem b cap h (suc n) j v pb ph pj d =
      ap₂ ◌∷◌ (update_ne mem b h j v pb (omega (arith, distance_cases cap h j ph pj))) (
        window-update mem b cap ((h + 1) % cap) n j v pb (omega arith) pj (
          omega (
            arith,
            next_cases cap h ph,
            distance_cases cap h j ph pj,
            distance_cases cap ((h + 1) % cap) j (omega arith) pj,
          )))

  -- A window that ends at index `j` grows by the block at `j`.
  pub window-suc :
      (mem : ℤ → A) (b cap h n j : ℕ)
      → h < cap
      → j < cap
      → n ≡ distance cap h j
      → window mem b cap h (suc n) ≡ window mem b cap h n ++ (mem (pos (j * b)) ∷ [])
  window-suc mem b cap h zero j ph pj d =
      let e : h ≡ j = omega (arith, distance_cases cap h j ph pj) in rw e
  window-suc mem b cap h (suc n) j ph pj d =
      ap (λ l. mem (pos (h * b)) ∷ l)
        (window-suc mem b cap ((h + 1) % cap) n j (omega arith) pj (
          omega (
            arith,
            next_cases cap h ph,
            distance_cases cap h j ph pj,
            distance_cases cap ((h + 1) % cap) j (omega arith) pj,
          )))
