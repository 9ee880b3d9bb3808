-- ===== src/Prelude/Bits.antt =====
-- Laws of `&`, `|` and `^` at variables, from the lowest binary digit.
use Prim.Native.Nat.{ℕ, zero, suc, ◌+◌, ◌-◌, ◌*◌, ◌/◌, ◌%◌, ◌^◌, ◌≤◌, ◌<◌, min, max}
use Prim.Native.Nat.{digits, bitwise, differ, bit_and, bit_or, bit_xor}
use Prim.Native.Nat.{bit_and-bitwise, bit_or-bitwise, bit_xor-bitwise}
use mathlib.Core.Path.{◌≡◌, refl, sym, ap, ◌∙◌}
use mathlib.Core.Logic.{◌≢◌, ◌↔◌}
use native.Mathlib.Nat.{pow-suc, mul_comm, one-le-pow, div-one, mul-one}
use mathlib.Core.Bool.{Bool, true, ◌&&◌}
use native.Mathlib.Decide.{dec_le}
use native.Mathlib.Omega.{arith}

-- The digit recursion is given a count; from the left operand on, a larger count changes nothing.
module _ (rest : ℕ → ℕ) (join : ℕ → ℕ → ℕ) where
  digits-suc :
      (count x y : ℕ) → x ≤ count → digits rest join (suc count) x y ≡ digits rest join count x y
  digits-suc zero zero y low = refl
  digits-suc zero (suc x) y low = absurd (omega arith)
  digits-suc (suc count) zero y low = refl
  digits-suc (suc count) (suc x) y low =
      ap (λ (t : ℕ). t * 2 + join (suc x % 2) (y % 2))
        (digits-suc count (suc x / 2) (y / 2) (omega arith))

  digits-le :
      (more count x y : ℕ)
      → x ≤ count
      → count ≤ more
      → digits rest join more x y ≡ digits rest join count x y
  digits-le zero zero x y low up = refl
  digits-le zero (suc count) x y low up = absurd (omega arith)
  digits-le (suc more) count x y low up = elim (dec_le count more) [
    | yes fits ↦ digits-suc more x y (omega arith) ∙ digits-le more count x y low fits
    | no over ↦ let same : suc more ≡ count = omega arith in ap (λ t. digits rest join t x y) same
  ]

  lowest_digit :
      (x y : ℕ)
      → bitwise rest join (suc x) y
        ≡ bitwise rest join (suc x / 2) (y / 2) * 2 + join (suc x % 2) (y % 2)
  lowest_digit x y =
      ap (λ (t : ℕ). t * 2 + join (suc x % 2) (y % 2))
        (digits-le x (suc x / 2) (suc x / 2) (y / 2) (omega arith) (omega arith))

pub bit_and_step : (x y : ℕ) → bit_and x y ≡ bit_and (x / 2) (y / 2) * 2 + min (x % 2) (y % 2)
bit_and_step zero y = simp bit_and-bitwise (omega arith)
bit_and_step (suc x) y = simp bit_and-bitwise (lowest_digit (λ d. 0) min x y)

pub bit_xor_step : (x y : ℕ) → bit_xor x y ≡ bit_xor (x / 2) (y / 2) * 2 + differ (x % 2) (y % 2)
bit_xor_step zero y = simp bit_xor-bitwise (omega arith)
bit_xor_step (suc x) y = simp bit_xor-bitwise (lowest_digit (λ d. d) differ x y)

pub bit_or_step : (x y : ℕ) → bit_or x y ≡ bit_or (x / 2) (y / 2) * 2 + max (x % 2) (y % 2)
bit_or_step zero y = simp bit_or-bitwise (omega arith)
bit_or_step (suc x) y = simp bit_or-bitwise (lowest_digit (λ d. d) max x y)

and-zero_under : (bound x : ℕ) → x < bound → bit_and x 0 ≡ 0
and-zero_under zero x low = absurd (omega arith)
and-zero_under (suc bound) zero low = bit_and-bitwise 0 0
and-zero_under (suc bound) (suc x) low =
    let halved = and-zero_under bound (suc x / 2) (omega arith) in
    omega (arith, halved, bit_and_step (suc x) 0)

pub bit_and-zero : (x : ℕ) → bit_and x 0 ≡ 0
bit_and-zero x = and-zero_under (suc x) x (omega arith)

mod_double : (a p : ℕ) → 0 < p → a % (2 * p) ≡ a / 2 % p * 2 + a % 2
mod_double a p h = grind arith

div_double : (a p : ℕ) → 0 < p → a / (2 * p) ≡ a / 2 / p
div_double a p h = grind arith

-- A mask of `k` low digits is the remainder by `2 ^ k`.
pub bit_and_low : (k a : ℕ) → bit_and a (2 ^ k - 1) ≡ a % 2 ^ k
bit_and_low zero a = omega (arith, bit_and-zero a)
bit_and_low (suc k) a =
    rw (pow-suc 2 k, mul_comm (2 ^ k) 2)
      (omega (
        arith,
        one-le-pow k 2 (omega arith),
        bit_and_step a (2 * 2 ^ k - 1),
        ap (bit_and (a / 2)) half,
        mod_double a (2 ^ k) (one-le-pow k 2 (omega arith)),
        bit_and_low k (a / 2),
      ))
  where
    half : (2 * 2 ^ k - 1) / 2 ≡ 2 ^ k - 1
    half = omega (arith, one-le-pow k 2 (omega arith))

pub bit_and-one : (a : ℕ) → bit_and a 1 ≡ a % 2
bit_and-one a = bit_and_low 1 a

-- A mask of the one digit `k`.
pub bit_and_digit : (k a : ℕ) → bit_and a (2 ^ k) ≡ a / 2 ^ k % 2 * 2 ^ k
bit_and_digit zero a = omega (arith, bit_and-one a)
bit_and_digit (suc k) a =
    rw (pow-suc 2 k, mul_comm (2 ^ k) 2)
      (omega (
        arith,
        bit_and_step a (2 * 2 ^ k),
        ap (bit_and (a / 2)) half,
        ap (λ (t : ℕ). t % 2 * 2 ^ k * 2) (div_double a (2 ^ k) (one-le-pow k 2 (omega arith))),
        bit_and_digit k (a / 2),
      ))
  where
    half : (2 * 2 ^ k) / 2 ≡ 2 ^ k
    half = omega arith

-- A test of every number under a bound, by evaluation.
unfoldable pub tested : (ℕ → Bool) → ℕ → Bool
tested test zero = true
tested test (suc bound) = tested test bound && test bound

pub tested_sound :
    (test : ℕ → Bool) (bound i : ℕ) → i < bound → tested test bound ≡ true → test i ≡ true
unfolding tested
tested_sound test zero i low all = absurd (omega arith)
tested_sound test (suc bound) i low all = ground (arith, tested_sound test bound i)

-- A mask that ends in `k` clear digits reads the digits from `k` on.
pub bit_and_shift : (k a m : ℕ) → bit_and a (m * 2 ^ k) ≡ bit_and (a / 2 ^ k) m * 2 ^ k
bit_and_shift zero a m = simp (div-one, mul-one)
bit_and_shift (suc k) a m =
    rw (pow-suc 2 k, mul_comm (2 ^ k) 2)
      (omega (
        arith,
        ap (bit_and a) twice,
        bit_and_step a (2 * (m * 2 ^ k)),
        ap (bit_and (a / 2)) half,
        bit_and_shift k (a / 2) m,
        ap (λ (t : ℕ). bit_and t m * 2 ^ k * 2)
            (div_double a (2 ^ k) (one-le-pow k 2 (omega arith))),
      ))
  where
    twice : m * (2 * 2 ^ k) ≡ 2 * (m * 2 ^ k)
    twice = omega arith

    half : 2 * (m * 2 ^ k) / 2 ≡ m * 2 ^ k
    half = omega arith

or-zero_under : (bound x : ℕ) → x < bound → bit_or x 0 ≡ x
or-zero_under zero x low = absurd (omega arith)
or-zero_under (suc bound) zero low = bit_or-bitwise 0 0
or-zero_under (suc bound) (suc x) low =
    let halved = or-zero_under bound (suc x / 2) (omega arith) in
    omega (arith, halved, bit_or_step (suc x) 0)

pub bit_or-zero : (x : ℕ) → bit_or x 0 ≡ x
bit_or-zero x = or-zero_under (suc x) x (omega arith)

-- Setting the digit `k` adds it where it is clear.
pub bit_or_digit : (k a : ℕ) → bit_or a (2 ^ k) ≡ a + (1 - a / 2 ^ k % 2) * 2 ^ k
bit_or_digit zero a = omega (arith, bit_or_step a 1, bit_or-zero (a / 2))
bit_or_digit (suc k) a =
    rw (pow-suc 2 k, mul_comm (2 ^ k) 2)
      (omega (
        arith,
        bit_or_step a (2 * 2 ^ k),
        ap (bit_or (a / 2)) half,
        ap (λ (t : ℕ). (1 - t % 2) * 2 ^ k * 2)
            (div_double a (2 ^ k) (one-le-pow k 2 (omega arith))),
        bit_or_digit k (a / 2),
      ))
  where
    half : (2 * 2 ^ k) / 2 ≡ 2 ^ k
    half = omega arith

-- A number below a power of two and the power have no digit in common.
pub bit_or_flag : (k x : ℕ) → x < 2 ^ k → bit_or (2 ^ k) x ≡ 2 ^ k + x
bit_or_flag zero x small = ap (bit_or 1) (x_zero) ∙ omega (arith, bit_or-zero 1)
  where
    x_zero : x ≡ 0
    x_zero = omega arith
bit_or_flag (suc k) x small =
    rw (pow-suc 2 k, mul_comm (2 ^ k) 2)
      (omega (
        arith,
        bit_or_step (2 * 2 ^ k) x,
        ap (λ (t : ℕ). bit_or t (x / 2)) half,
        bit_or_flag k (x / 2) halved,
      ))
  where
    half : (2 * 2 ^ k) / 2 ≡ 2 ^ k
    half = omega arith

    doubled : 2 ^ suc k ≡ 2 * 2 ^ k
    doubled = rw (pow-suc 2 k, mul_comm (2 ^ k) 2) refl

    halved : x / 2 < 2 ^ k
    halved = omega (arith, doubled)

pub zero-bit_or : (x : ℕ) → bit_or 0 x ≡ x
zero-bit_or x = simp bit_or-bitwise (omega arith)

-- The digit `k` of a number.
unfoldable pub digit : ℕ → ℕ → ℕ
digit zero a = a % 2
digit (suc k) a = digit k (a / 2)

pub digit-div : (k a : ℕ) → digit k a ≡ a / 2 ^ k % 2
unfolding digit
digit-div zero a = omega arith
digit-div (suc k) a =
    digit-div k (a / 2)
    ∙ ap (λ (t : ℕ). t % 2) (sym (div_double a (2 ^ k) (one-le-pow k 2 (omega arith))))
    ∙ ap (λ (t : ℕ). a / t % 2) (sym doubled)
  where
    doubled : 2 ^ suc k ≡ 2 * 2 ^ k
    doubled = rw (pow-suc 2 k, mul_comm (2 ^ k) 2) refl

pub digit-bit_or : (k a b : ℕ) → digit k (bit_or a b) ≡ max (digit k a) (digit k b)
unfolding digit
digit-bit_or zero a b = omega (arith, bit_or_step a b)
digit-bit_or (suc k) a b = ap (digit k) half ∙ digit-bit_or k (a / 2) (b / 2)
  where
    half : bit_or a b / 2 ≡ bit_or (a / 2) (b / 2)
    half = omega (arith, bit_or_step a b)

pub digit-zero : (k : ℕ) → digit k 0 ≡ 0
unfolding digit
digit-zero zero = refl
digit-zero (suc k) = digit-zero k

pow_half : (k : ℕ) → 2 ^ suc k / 2 ≡ 2 ^ k
pow_half k = rw (pow-suc 2 k) (omega arith)

pub digit-pow_self : (k : ℕ) → digit k (2 ^ k) ≡ 1
unfolding digit
digit-pow_self zero = refl
digit-pow_self (suc k) = ap (digit k) (pow_half k) ∙ digit-pow_self k

pub digit-pow_ne : (j k : ℕ) → j ≢ k → digit j (2 ^ k) ≡ 0
unfolding digit
digit-pow_ne zero zero ne = absurd (ne refl)
digit-pow_ne zero (suc k) ne = rw (pow-suc 2 k) (omega arith)
digit-pow_ne (suc j) zero ne = digit-zero j
digit-pow_ne (suc j) (suc k) ne = ap (digit j) (pow_half k) ∙ digit-pow_ne j k (λ e. ne (ap suc e))

-- A mask of one digit leaves something where the digit is set.
pub mask_clear_iff : (k a : ℕ) → (bit_and a (2 ^ k) ≡ 0) ↔ (digit k a ≡ 0)
mask_clear_iff k a =
    let d = digit-div k a in
    let e = bit_and_digit k a in
    let p = one-le-pow k 2 (omega arith) in (λ z. grind (arith), λ z. rw (e, ← d, z) (omega arith))
