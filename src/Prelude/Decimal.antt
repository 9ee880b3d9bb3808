-- ===== src/Prelude/Decimal.antt =====
-- `%d` of `printf`, for numbers of up to ten digits.
use Prim.Native.Nat.{ℕ, zero, suc, ◌+◌, ◌-◌, ◌*◌, ◌/◌, ◌%◌, ◌^◌, ◌≤◌, ◌<◌}
use mathlib.Core.Path.{◌≡◌, refl, sym, ap, ◌∙◌}
use mathlib.Core.List.{List, [], ◌∷◌, ◌++◌, append_assoc, append-nil}
use native.Mathlib.Omega.{arith}
use native.Mathlib.Decide.{dec_lt}
use xstack_io.Prelude.Tests.{ltb, lt→ltb, ltb-false, if◌then◌else◌}
use xstack_io.Prelude.Lists.{length, length-append, All, All-append}

-- The digits of a number of at most `room` digits.
abbrev pub digits : ℕ → ℕ → List ℕ
digits zero n = []
digits (suc room) n =
    let upper = digits room (n / 10) in
    if ltb n 10 then (48 + n) ∷ [] else upper ++ (48 + n % 10) ∷ []

abbrev pub decimal : ℕ → List ℕ
decimal n = digits 10 n

-- The number that digits stand for, behind those of `acc`.
abbrev pub read_digits : ℕ → List ℕ → ℕ
read_digits acc [] = acc
read_digits acc (c ∷ cs) = read_digits (acc * 10 + (c - 48)) cs

digits_small : (room n : ℕ) → n < 10 → digits (suc room) n ≡ (48 + n) ∷ []
digits_small room n h = rw (lt→ltb n 10 h) refl

digits_large :
    (room n : ℕ) → 10 ≤ n → digits (suc room) n ≡ digits room (n / 10) ++ (48 + n % 10) ∷ []
digits_large room n h = rw (ltb-false n 10 h) refl

tenth : (k n : ℕ) → n < 10 ^ suc k → n / 10 < 10 ^ k
tenth k n h = omega arith

-- A reader of digits comes to the number, whatever follows them.
pub digits_read :
    {A : Type 0} (reader : ℕ → List ℕ → A)
    → ((acc c : ℕ) (cs : List ℕ)
        → 48 ≤ c
        → c < 58
        → reader acc (c ∷ cs) ≡ reader (acc * 10 + (c - 48)) cs)
    → (room n : ℕ) (rest : List ℕ) → n < 10 ^ room
    → reader 0 (digits room n ++ rest) ≡ reader n rest
digits_read reader reads zero n rest h = ap (λ k. reader k rest) (omega arith)
digits_read reader reads (suc room) n rest h = elim (dec_lt n 10) [
  | yes small ↦
      ap (λ l. reader 0 (l ++ rest)) (digits_small room n small)
      ∙ reads 0 (48 + n) rest (omega arith) (omega arith)
      ∙ ap (λ k. reader k rest) (omega arith)
  | no large ↦
      ap (λ l. reader 0 (l ++ rest)) (digits_large room n (omega arith))
      ∙ ap (reader 0) (append_assoc (digits room (n / 10)) ((48 + n % 10) ∷ []) rest)
      ∙ digits_read reader reads room (n / 10) ((48 + n % 10) ∷ rest) (tenth room n h)
      ∙ reads (n / 10) (48 + n % 10) rest (omega arith) (omega arith)
      ∙ ap (λ k. reader k rest) (omega arith)
]

pub length-digits : (room k n : ℕ) → n < 10 ^ (suc k) → length (digits room n) ≤ suc k
length-digits zero k n h = omega arith
length-digits (suc room) zero n h = rw (digits_small room n (omega arith)) (omega arith)
length-digits (suc room) (suc k) n h = elim (dec_lt n 10) [
  | yes small ↦ rw (digits_small room n small) (omega arith)
  | no large ↦
      let less = length-digits room k (n / 10) (tenth (suc k) n h) in
      rw
        (
          digits_large room n (omega arith),
          length-append (digits room (n / 10)) ((48 + n % 10) ∷ []),
        )
        (omega (arith, less))
]

-- There is a digit.
pub one_digit : (room n : ℕ) → 1 ≤ length (digits (suc room) n)
one_digit room n = elim (dec_lt n 10) [
  | yes small ↦ rw (digits_small room n small) (omega arith)
  | no large ↦
      rw
        (
          digits_large room n (omega arith),
          length-append (digits room (n / 10)) ((48 + n % 10) ∷ []),
        )
        (omega arith)
]

-- Every character is a digit.
pub digits-All :
    {P : ℕ → Type 0} → ((c : ℕ) → 48 ≤ c → c < 58 → P c) → (room n : ℕ) → All P (digits room n)
digits-All each zero n = tt
digits-All each (suc room) n = elim (dec_lt n 10) [
  | yes small ↦ rw (digits_small room n small) (each (48 + n) (omega arith) (omega arith), tt)
  | no large ↦ rw (digits_large room n (omega arith)) (
      All-append _ (digits room (n / 10)) ((48 + n % 10) ∷ []) (digits-All each room (n / 10))
        (each (48 + n % 10) (omega arith) (omega arith), tt))
]

pub read_decimal : (k : ℕ) → k < 10 ^ 10 → read_digits 0 (decimal k) ≡ k
read_decimal k h =
    ap (read_digits 0) (sym (append-nil (decimal k)))
    ∙ digits_read read_digits (λ acc c cs at_least below. refl) 10 k [] h

-- Equal digits stand for equal numbers.
pub decimal_injective : (n m : ℕ) → n < 10 ^ 10 → m < 10 ^ 10 → decimal n ≡ decimal m → n ≡ m
decimal_injective n m hn hm e = sym (read_decimal n hn) ∙ ap (read_digits 0) e ∙ read_decimal m hm
