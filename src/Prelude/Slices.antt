-- ===== src/Prelude/Slices.antt =====
-- The elements of a list that another list is copied into.
use Prim.Native.Nat.{ℕ, zero, suc, ◌+◌, ◌≤◌, ◌<◌}
use mathlib.Core.Path.{◌≡◌, refl, sym, ap, ◌∙◌}
use mathlib.Core.List.{List, [], ◌∷◌, ◌++◌}
use native.Mathlib.Omega.{arith}
use xstack_io.Prelude.Lists.{get_or, take, drop, length, length-take, length-drop, length-append}

module _ {ℓ} {A : Type ℓ} where
  pub get_or-append_left :
      (xs ys : List A) (i : ℕ) (d : A) → i < length xs → get_or (xs ++ ys) i d ≡ get_or xs i d
  get_or-append_left [] ys i d h = absurd (omega (arith, h))
  get_or-append_left (x ∷ xs) ys zero d h = refl
  get_or-append_left (x ∷ xs) ys (suc i) d h = get_or-append_left xs ys i d (omega (arith, h))

  pub get_or-append_right :
      (xs ys : List A) (i : ℕ) (d : A) → get_or (xs ++ ys) (length xs + i) d ≡ get_or ys i d
  get_or-append_right [] ys i d = ap (λ k. get_or ys k d) (omega arith)
  get_or-append_right (x ∷ xs) ys i d =
      let e : suc (length xs) + i ≡ suc (length xs + i) = omega arith in
      ap (λ k. get_or (x ∷ (xs ++ ys)) k d) e ∙ get_or-append_right xs ys i d

  pub get_or-take :
      (n : ℕ) (xs : List A) (i : ℕ) (d : A) → i < n → get_or (take n xs) i d ≡ get_or xs i d
  get_or-take zero xs i d h = absurd (omega (arith, h))
  get_or-take (suc n) [] i d h = refl
  get_or-take (suc n) (x ∷ xs) zero d h = refl
  get_or-take (suc n) (x ∷ xs) (suc i) d h = get_or-take n xs i d (omega (arith, h))

  pub get_or-drop :
      (n : ℕ) (xs : List A) (i : ℕ) (d : A) → get_or (drop n xs) i d ≡ get_or xs (n + i) d
  get_or-drop zero xs i d = ap (λ k. get_or xs k d) (omega arith)
  get_or-drop (suc n) [] i d = refl
  get_or-drop (suc n) (x ∷ xs) i d =
      let e : suc (n + i) ≡ suc n + i = omega arith in
      get_or-drop n xs i d ∙ ap (λ k. get_or (x ∷ xs) k d) e

  -- `n` elements of `src` over those of `buf` from `off` on.
  abbrev pub splice : ℕ → ℕ → List A → List A → List A
  splice off n src buf = take off buf ++ (take n src ++ drop (off + n) buf)

  pub length-splice :
      (off n : ℕ) (src buf : List A)
      → off + n ≤ length buf
      → n ≤ length src
      → length (splice off n src buf) ≡ length buf
  length-splice off n src buf fits there =
      rw
        (
          length-append (take off buf) (take n src ++ drop (off + n) buf),
          length-append (take n src) (drop (off + n) buf),
          length-take off buf,
          length-take n src,
          length-drop (off + n) buf,
        )
        (omega (arith, fits, there))

  module _ (off n : ℕ) (src buf : List A) (d : A) (fits : off + n ≤ length buf)
      (there : n ≤ length src) where
    before : length (take off buf) ≡ off
    before = omega (arith, fits, length-take off buf)

    between : length (take n src) ≡ n
    between = omega (arith, there, length-take n src)

    pub get_or-splice_in :
        (i : ℕ) → i < n → get_or (splice off n src buf) (off + i) d ≡ get_or src i d
    get_or-splice_in i low =
        ap (λ k. get_or (splice off n src buf) (k + i) d) (sym before)
        ∙ get_or-append_right (take off buf) _ i d
        ∙ get_or-append_left (take n src) _ i d (omega (arith, between, low))
        ∙ get_or-take n src i d low

    pub get_or-splice_below : (i : ℕ) → i < off → get_or (splice off n src buf) i d ≡ get_or buf i d
    get_or-splice_below i low =
        get_or-append_left (take off buf) _ i d (omega (arith, before, low))
        ∙ get_or-take off buf i d low

    pub get_or-splice_above :
        (i : ℕ) → get_or (splice off n src buf) (off + n + i) d ≡ get_or buf (off + n + i) d
    get_or-splice_above i =
        let e : off + n + i ≡ length (take off buf) + (length (take n src) + i) =
          omega (arith, before, between) in
        ap (λ k. get_or (splice off n src buf) k d) e
        ∙ get_or-append_right (take off buf) _ (length (take n src) + i) d
        ∙ get_or-append_right (take n src) _ i d
        ∙ get_or-drop (off + n) buf i d
