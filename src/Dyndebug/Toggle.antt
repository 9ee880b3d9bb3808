-- ===== src/Dyndebug/Toggle.antt =====
-- Which messages a configuration string switches, and that it switches them back.
use xstack_io.Prelude.{
  ℕ, zero, suc, ◌^◌, ◌≤◌, ◌<◌, ◌≡◌, ◌≢◌, ◌⊎◌, ◌↔◌, inl, inr, refl, sym, ap, ap₂, ◌∙◌, arith, List,
  [], ◌∷◌, ◌++◌, All, Option, some, Bool, true, false, ◌&&◌, map, take, take_whole, length,
  get_elem?, bit_xor, same_test, differ_test, if◌then◌else◌, Bool-cases, ℕ_discrete,
}
use xstack_io.Prelude.Xor.{bit_xor_assoc, bit_xor_self, bit_xor_comm, zero-bit_xor}
use xstack_io.Prelude.Decimal.{decimal, length-digits, decimal_injective, one_digit}
use xstack_io.Dyndebug.{
  DyndebugMsg, colon, same_str, split_line, same_line, selected, flip, toggle_dbgmsg,
}

same_str_sound : (xs ys : List ℕ) → same_str xs ys ≡ true → xs ≡ ys
same_str_sound [] [] e = refl
same_str_sound [] (y ∷ ys) e = cc
same_str_sound (x ∷ xs) [] e = cc
same_str_sound (x ∷ xs) (y ∷ ys) e = elim (ℕ_discrete x y) [
  | yes same ↦
      ap₂ (λ c l. c ∷ l) same
        (same_str_sound xs ys (ap (λ b. b && same_str xs ys) (sym (same_test x y same)) ∙ e))
  | no ne ↦
      let e' : false ≡ true = ap (λ b. b && same_str xs ys) (sym (differ_test x y ne)) ∙ e in cc e'
]

same_str_refl : (xs : List ℕ) → same_str xs xs ≡ true
same_str_refl [] = refl
same_str_refl (x ∷ xs) = rw (same_test x x refl) (same_str_refl xs)

split_line_lem :
    (file line : List ℕ)
    → All (λ c. c ≢ colon) file
    → split_line (file ++ colon ∷ line) ≡ (file, some line)
split_line_lem [] line ok = refl
split_line_lem (c ∷ file) line ok =
    rw (differ_test c colon ok.0, split_line_lem file line ok.1) refl

-- A message that is switched.
abbrev pub flipped : DyndebugMsg → DyndebugMsg
flipped x = record x { flags = bit_xor x.flags 1 }

xor_twice : (n : ℕ) → bit_xor (bit_xor n 1) 1 ≡ n
xor_twice n =
    bit_xor_assoc n 1 1 ∙ ap (bit_xor n) (bit_xor_self 1) ∙ bit_xor_comm n 0 ∙ zero-bit_xor n

module _ (choice : List ℕ × Option (List ℕ)) (x : DyndebugMsg) where
  flip_on : selected choice x ≡ true → flip choice x ≡ flipped x
  flip_on e = ap (λ b. if b then flipped x else x) e

  flip_off : selected choice x ≡ false → flip choice x ≡ x
  flip_off e = ap (λ b. if b then flipped x else x) e

flip_twice : (choice : List ℕ × Option (List ℕ)) (x : DyndebugMsg) → flip choice (flip choice x) ≡ x
flip_twice choice x = elim (Bool-cases (selected choice x)) [
  | inl e ↦
      ap (flip choice) (flip_on choice x e)
      ∙ flip_on choice (flipped x) e
      ∙ ap (λ n. record x { flags = n }) (xor_twice x.flags)
  | inr e ↦ ap (flip choice) (flip_off choice x e) ∙ flip_off choice x e
]

map-flip_twice :
    (choice : List ℕ × Option (List ℕ)) (ms : List DyndebugMsg)
    → map (flip choice) (map (flip choice) ms) ≡ ms
map-flip_twice choice [] = refl
map-flip_twice choice (m ∷ ms) = ap₂ (λ x l. x ∷ l) (flip_twice choice m) (map-flip_twice choice ms)

-- The same string switches the messages back.
toggle_twice :
    (cfg : List ℕ) (ms : List DyndebugMsg) → (toggle_dbgmsg cfg (toggle_dbgmsg cfg ms).1).1 ≡ ms
unfolding toggle_dbgmsg
toggle_twice cfg [] = refl
toggle_twice cfg (m ∷ ms) = map-flip_twice (split_line (take 39 cfg)) (m ∷ ms)

get_elem?-map :
    {A B : Type 0} (f : A → B) (l : List A) (j : ℕ) (x : A)
    → get_elem? l j ≡ some x
    → get_elem? (map f l) j ≡ some (f x)
get_elem?-map f [] j x e = cc
get_elem?-map f (y ∷ l) zero x e = let same : y ≡ x = cc e in ap (λ z. some (f z)) same
get_elem?-map f (y ∷ l) (suc j) x e = get_elem?-map f l j x e

toggle-get_elem? :
    (cfg : List ℕ) (ms : List DyndebugMsg) (j : ℕ) (x : DyndebugMsg)
    → get_elem? ms j ≡ some x
    → get_elem? (toggle_dbgmsg cfg ms).1 j ≡ some (flip (split_line (take 39 cfg)) x)
unfolding toggle_dbgmsg
toggle-get_elem? cfg [] j x e = cc e
toggle-get_elem? cfg (m ∷ ms) j x e = get_elem?-map (flip (split_line (take 39 cfg))) (m ∷ ms) j x e

same_line_lem :
    (l : List ℕ) (n : ℕ) → 1 ≤ length l → n < 2 ^ 31 → same_line (some l) n ≡ same_str l (decimal n)
same_line_lem [] n h small = absurd (omega arith)
same_line_lem (c ∷ cs) n h small =
    let short = length-digits 10 9 n (omega arith) in
    ap (same_str (c ∷ cs)) (take_whole 11 (decimal n) (omega (arith, short)))

module _ (file : List ℕ) (n : ℕ) (x : DyndebugMsg) (small : n < 2 ^ 31)
    (fits : x.line < 2 ^ 31) where
  selected_lem :
      selected (file, some (decimal n)) x
      ≡ (same_str file x.file && same_str (decimal n) (decimal x.line))
  selected_lem =
      ap (λ b. same_str file x.file && b) (same_line_lem (decimal n) x.line (one_digit 9 n) fits)

  selected_iff : (selected (file, some (decimal n)) x ≡ true) ↔ ((x.file ≡ file) × (x.line ≡ n))
  selected_iff = (
    λ e. both (sym selected_lem ∙ e),
    λ p. selected_lem ∙ (rw (p.0, p.1, same_str_refl file, same_str_refl (decimal n)) refl),
  )
    where
      and_left : (b c : Bool) → (b && c) ≡ true → (b ≡ true) × (c ≡ true)
      and_left true c e = (refl, e)
      and_left false c e = cc e

      both :
          (same_str file x.file && same_str (decimal n) (decimal x.line)) ≡ true
          → (x.file ≡ file) × (x.line ≡ n)
      both e =
          let (f, l) = and_left (same_str file x.file) (same_str (decimal n) (decimal x.line)) e in
          (
            sym (same_str_sound file x.file f),
            sym (
                decimal_injective n x.line (omega arith) (omega arith)
                  (same_str_sound (decimal n) (decimal x.line) l)),
          )

-- Let a configuration string of at most 39 characters be a file name without a colon, a colon and a
-- line number. Of the messages of the program `toggle_dbgmsg` switches exactly those of this file and
-- this line: the last bit of their flags is turned, and the others are as they were. The same
-- string a second time brings every message back.
pub toggle_dbgmsg_lem :
    (ms : List DyndebugMsg) (file : List ℕ) (n j : ℕ) (x : DyndebugMsg)
    → All (λ c. c ≢ colon) file
    → length (file ++ colon ∷ decimal n) ≤ 39
    → n < 2 ^ 31
    → x.line < 2 ^ 31
    → get_elem? ms j ≡ some x
    → let cfg = file ++ colon ∷ decimal n in
      let ms' = (toggle_dbgmsg cfg ms).1 in
      ((((x.file ≡ file) × (x.line ≡ n)) × (get_elem? ms' j ≡ some (flipped x)))
        ⊎ ((¬ ((x.file ≡ file) × (x.line ≡ n))) × (get_elem? ms' j ≡ some x)))
      × ((toggle_dbgmsg cfg ms').1 ≡ ms)
toggle_dbgmsg_lem ms file n j x plain short small fits at =
    let cfg = file ++ colon ∷ decimal n in
    let choice = ap split_line (take_whole 39 cfg short) ∙ split_line_lem file (decimal n) plain in
    let now = toggle-get_elem? cfg ms j x at ∙ ap (λ c. some (flip c x)) choice in
    let iff = selected_iff file n x small fits in
    (
      elim (Bool-cases (selected (file, some (decimal n)) x)) [
        | inl e ↦ inl (iff.0 e, now ∙ ap some (flip_on (file, some (decimal n)) x e))
        | inr e ↦ inr (
          λ same. let yes_it = iff.1 same in cc (e, yes_it),
          now ∙ ap some (flip_off (file, some (decimal n)) x e),
        )
      ],
      toggle_twice cfg ms,
    )
