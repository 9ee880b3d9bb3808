-- ===== src/Prelude/Xor.antt =====
-- Laws of `^` on numbers of any size.
use Prim.Native.Nat.{ℕ, zero, suc, ◌+◌, ◌/◌, ◌%◌, ◌≤◌, ◌<◌, differ, bit_xor, bit_xor-bitwise}
use mathlib.Core.Path.{◌≡◌, refl, ap, ◌∙◌, sym}
use mathlib.Core.Logic.{◌⊎◌, inl, inr}
use native.Mathlib.Omega.{arith}
use xstack_io.Prelude.Bits.{bit_xor_step}

bit_cases : (a : ℕ) → (a % 2 ≡ 0) ⊎ (a % 2 ≡ 1)
bit_cases a = omega arith

differ-lt : (a b : ℕ) → differ (a % 2) (b % 2) < 2
differ-lt a b = elim (bit_cases a) [
  | inl p ↦ elim (bit_cases b) [ inl q ↦ rw (p, q) (omega arith) | inr q ↦ rw (p, q) (omega arith) ]
  | inr p ↦ elim (bit_cases b) [ inl q ↦ rw (p, q) (omega arith) | inr q ↦ rw (p, q) (omega arith) ]
]

-- The upper digits and the lowest digit of an exclusive or.
pub half-xor : (a b : ℕ) → bit_xor a b / 2 ≡ bit_xor (a / 2) (b / 2)
half-xor a b = omega (arith, bit_xor_step a b, differ-lt a b)

pub parity-xor : (a b : ℕ) → bit_xor a b % 2 ≡ differ (a % 2) (b % 2)
parity-xor a b = omega (arith, bit_xor_step a b, differ-lt a b)

-- Two numbers are equal if their halves and lowest digits are.
by_halves : (a b : ℕ) → a / 2 ≡ b / 2 → a % 2 ≡ b % 2 → a ≡ b
by_halves a b p q = omega arith

xor-comm_below : (n a b : ℕ) → a ≤ n → b ≤ n → bit_xor a b ≡ bit_xor b a
xor-comm_below zero zero zero p q = refl
xor-comm_below zero zero (suc b) p q = absurd (omega arith)
xor-comm_below zero (suc a) b p q = absurd (omega arith)
xor-comm_below (suc n) a b p q =
    by_halves _ _
      (half-xor a b
        ∙ xor-comm_below n (a / 2) (b / 2) (omega arith) (omega arith)
        ∙ sym (half-xor b a))
      (parity-xor a b ∙ swap (bit_cases a) (bit_cases b) ∙ sym (parity-xor b a))
  where
    swap :
        (a % 2 ≡ 0) ⊎ (a % 2 ≡ 1)
        → (b % 2 ≡ 0) ⊎ (b % 2 ≡ 1)
        → differ (a % 2) (b % 2) ≡ differ (b % 2) (a % 2)
    swap (inl e) (inl f) = rw (e, f)
    swap (inl e) (inr f) = rw (e, f)
    swap (inr e) (inl f) = rw (e, f)
    swap (inr e) (inr f) = rw (e, f)

pub bit_xor_comm : (a b : ℕ) → bit_xor a b ≡ bit_xor b a
bit_xor_comm a b = xor-comm_below (a + b) a b (omega arith) (omega arith)

differ_assoc : (x y z : ℕ) → x < 2 → y < 2 → z < 2 → differ (differ x y) z ≡ differ x (differ y z)
differ_assoc zero y z p q r = refl
differ_assoc (suc zero) zero z p q r = refl
differ_assoc (suc zero) (suc zero) zero p q r = refl
differ_assoc (suc zero) (suc zero) (suc zero) p q r = refl
differ_assoc (suc zero) (suc zero) (suc (suc z)) p q r = absurd (omega arith)
differ_assoc (suc zero) (suc (suc y)) z p q r = absurd (omega arith)
differ_assoc (suc (suc x)) y z p q r = absurd (omega arith)

xor-assoc_below :
    (n a b c : ℕ) → a ≤ n → b ≤ n → c ≤ n → bit_xor (bit_xor a b) c ≡ bit_xor a (bit_xor b c)
xor-assoc_below zero zero zero zero p q r = refl
xor-assoc_below zero zero zero (suc c) p q r = absurd (omega arith)
xor-assoc_below zero zero (suc b) c p q r = absurd (omega arith)
xor-assoc_below zero (suc a) b c p q r = absurd (omega arith)
xor-assoc_below (suc n) a b c p q r =
    by_halves _ _
      (half-xor (bit_xor a b) c
        ∙ ap (λ t. bit_xor t (c / 2)) (half-xor a b)
        ∙ xor-assoc_below n (a / 2) (b / 2) (c / 2) (omega arith) (omega arith) (omega arith)
        ∙ ap (bit_xor (a / 2)) (sym (half-xor b c))
        ∙ sym (half-xor a (bit_xor b c)))
      (parity-xor (bit_xor a b) c
        ∙ ap (λ t. differ t (c % 2)) (parity-xor a b)
        ∙ differ_assoc (a % 2) (b % 2) (c % 2) (omega arith) (omega arith) (omega arith)
        ∙ ap (differ (a % 2)) (sym (parity-xor b c))
        ∙ sym (parity-xor a (bit_xor b c)))

pub bit_xor_assoc : (a b c : ℕ) → bit_xor (bit_xor a b) c ≡ bit_xor a (bit_xor b c)
bit_xor_assoc a b c = xor-assoc_below (a + b + c) a b c (omega arith) (omega arith) (omega arith)

pub zero-bit_xor : (a : ℕ) → bit_xor 0 a ≡ a
zero-bit_xor a = bit_xor-bitwise 0 a

xor-self_below : (n a : ℕ) → a ≤ n → bit_xor a a ≡ 0
xor-self_below zero zero p = refl
xor-self_below zero (suc a) p = absurd (omega arith)
xor-self_below (suc n) a p =
    by_halves _ _ (half-xor a a ∙ xor-self_below n (a / 2) (omega arith))
      (parity-xor a a ∙ elim (bit_cases a) [ inl e ↦ rw e | inr e ↦ rw e ])

pub bit_xor_self : (a : ℕ) → bit_xor a a ≡ 0
bit_xor_self a = xor-self_below a a (omega arith)
