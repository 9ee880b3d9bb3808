-- ===== src/Ether/Crc.antt =====
-- `ether_fcs` is CRC-32 of IEEE 802.3.
use xstack_io.Prelude.{
  ℕ, ◌+◌, ◌-◌, ◌*◌, ◌/◌, ◌%◌, ◌<◌, ◌≡◌, refl, sym, ap, ap₂, ◌∙◌, arith, List, [], ◌∷◌, bit_and,
  bit_xor, get_or, All, ◌⊎◌, inl, inr, ◌==◌, if◌then◌else◌, Bool, true, ==_iff,
}
use Prim.Native.Nat.{differ}
use xstack_io.Prelude.Bits.{bit_and_low, tested, tested_sound}
use xstack_io.Prelude.Xor.{
  half-xor, parity-xor, bit_xor_comm, bit_xor_assoc, zero-bit_xor, bit_xor_self,
}
use xstack_io.Checksum.Sum.{IsByte}
use xstack_io.Ether.Fcs.{crc_table, fcs_step, fcs_loop, ether_fcs}

-- The reflected polynomial, and the definition bit by bit.
abbrev pub polynomial : ℕ
polynomial = 0xEDB88320

pub crc_bit : ℕ → ℕ
crc_bit r = if r % 2 == 1 then bit_xor (r / 2) polynomial else r / 2

abbrev pub crc_nibble : ℕ → ℕ
crc_nibble r = crc_bit (crc_bit (crc_bit (crc_bit r)))

pub crc_byte : ℕ → ℕ → ℕ
crc_byte r b = crc_nibble (crc_nibble (bit_xor r b))

pub crc_bytes : ℕ → List ℕ → ℕ
crc_bytes r [] = r
crc_bytes r (b ∷ rest) = crc_bytes (crc_byte r b) rest

abbrev pub ones : ℕ
ones = 0xFFFFFFFF

-- CRC-32: start from all ones, complement at the end.
pub crc32 : List ℕ → ℕ
crc32 bytes = bit_xor (crc_bytes ones bytes) ones

xor_swap : (a b c d : ℕ) → bit_xor (bit_xor a b) (bit_xor c d) ≡ bit_xor (bit_xor a c) (bit_xor b d)
xor_swap a b c d =
    bit_xor_assoc a b (bit_xor c d)
    ∙ ap (bit_xor a)
        (sym (bit_xor_assoc b c d) ∙ ap (λ t. bit_xor t d) (bit_xor_comm b c) ∙ bit_xor_assoc c b d)
    ∙ sym (bit_xor_assoc a c (bit_xor b d))

xor-zero : (a : ℕ) → bit_xor a 0 ≡ a
xor-zero a = bit_xor_comm a 0 ∙ zero-bit_xor a

bit_cases : (a : ℕ) → (a % 2 ≡ 0) ⊎ (a % 2 ≡ 1)
bit_cases a = omega arith

crc_bit_0 : (r : ℕ) → r % 2 ≡ 0 → crc_bit r ≡ r / 2
unfolding crc_bit
crc_bit_0 r e = ground arith

crc_bit_1 : (r : ℕ) → r % 2 ≡ 1 → crc_bit r ≡ bit_xor (r / 2) polynomial
unfolding crc_bit
crc_bit_1 r e = ground arith

-- A step is linear in the register.
crc_bit-xor : (a b : ℕ) → crc_bit (bit_xor a b) ≡ bit_xor (crc_bit a) (crc_bit b)
crc_bit-xor a b = elim (bit_cases a) [
  | inl p ↦ elim (bit_cases b) [
    | inl q ↦
        rw (crc_bit_0 a p, crc_bit_0 b q)
          (crc_bit_0 (bit_xor a b) (parity-xor a b ∙ rw (p, q)) ∙ half-xor a b)
    | inr q ↦
        rw (crc_bit_0 a p, crc_bit_1 b q)
          (crc_bit_1 (bit_xor a b) (parity-xor a b ∙ rw (p, q))
            ∙ ap (λ t. bit_xor t polynomial) (half-xor a b)
            ∙ bit_xor_assoc (a / 2) (b / 2) polynomial)
  ]
  | inr p ↦ elim (bit_cases b) [
    | inl q ↦
        rw (crc_bit_1 a p, crc_bit_0 b q)
          (crc_bit_1 (bit_xor a b) (parity-xor a b ∙ rw (p, q))
            ∙ ap (λ t. bit_xor t polynomial) (half-xor a b)
            ∙ ap (bit_xor (bit_xor (a / 2) (b / 2)))
                (sym (zero-bit_xor polynomial) ∙ bit_xor_comm 0 polynomial)
            ∙ xor_swap (a / 2) (b / 2) polynomial 0
            ∙ ap (bit_xor (bit_xor (a / 2) polynomial)) (xor-zero (b / 2)))
    | inr q ↦
        rw (crc_bit_1 a p, crc_bit_1 b q)
          (crc_bit_0 (bit_xor a b) (parity-xor a b ∙ rw (p, q))
            ∙ half-xor a b
            ∙ sym (xor-zero (bit_xor (a / 2) (b / 2)))
            ∙ ap (bit_xor (bit_xor (a / 2) (b / 2))) (sym (bit_xor_self polynomial))
            ∙ xor_swap (a / 2) (b / 2) polynomial polynomial)
  ]
]

crc_nibble-xor : (a b : ℕ) → crc_nibble (bit_xor a b) ≡ bit_xor (crc_nibble a) (crc_nibble b)
crc_nibble-xor a b = simp crc_bit-xor

-- Four steps of a register whose low four digits are clear only shift it.
crc_nibble_shift : (h : ℕ) → crc_nibble (16 * h) ≡ h
crc_nibble_shift h =
    ap (λ t. crc_bit (crc_bit (crc_bit t))) (crc_bit_0 (16 * h) (omega arith))
    ∙ ap (λ t. crc_bit (crc_bit t)) (crc_bit_0 (16 * h / 2) (omega arith))
    ∙ ap crc_bit (crc_bit_0 (16 * h / 2 / 2) (omega arith))
    ∙ crc_bit_0 (16 * h / 2 / 2 / 2) (omega arith)
    ∙ omega arith

-- The digits of an exclusive or from the fourth on.
shift4-xor : (a b : ℕ) → bit_xor a b / 16 ≡ bit_xor (a / 16) (b / 16)
shift4-xor a b =
    quarter (bit_xor a b)
    ∙ ap (λ (t : ℕ). t / 2 / 2 / 2) (half-xor a b)
    ∙ ap (λ (t : ℕ). t / 2 / 2) (half-xor (a / 2) (b / 2))
    ∙ ap (λ (t : ℕ). t / 2) (half-xor (a / 2 / 2) (b / 2 / 2))
    ∙ half-xor (a / 2 / 2 / 2) (b / 2 / 2 / 2)
    ∙ ap₂ bit_xor (sym (quarter a)) (sym (quarter b))
  where
    quarter : (x : ℕ) → x / 16 ≡ x / 2 / 2 / 2 / 2
    quarter x = omega arith

-- One digit at a time, an exclusive or with an even number is a sum.
even-xor : (x y : ℕ) → bit_xor (2 * x) y ≡ 2 * bit_xor x (y / 2) + y % 2
even-xor x y =
    let h : 2 * x / 2 ≡ x = omega arith in
    let z : 2 * x % 2 ≡ 0 = omega arith in
    omega (
      arith,
      half-xor (2 * x) y ∙ ap (λ t. bit_xor t (y / 2)) h,
      parity-xor (2 * x) y ∙ ap (λ t. differ t (y % 2)) z,
    )

split4 : (a : ℕ) → a ≡ bit_xor (16 * (a / 16)) (a % 16)
split4 a =
    let h = a / 16 in
    let l = a % 16 in
    let gone : l / 2 / 2 / 2 / 2 ≡ 0 = omega arith in
    omega (
      arith,
      ap (λ t. bit_xor t l) shape ∙ even-xor (2 * (2 * (2 * h))) l,
      even-xor (2 * (2 * h)) (l / 2),
      even-xor (2 * h) (l / 2 / 2),
      even-xor h (l / 2 / 2 / 2),
      ap (bit_xor h) gone ∙ xor-zero h,
    )
  where
    shape : 16 * (a / 16) ≡ 2 * (2 * (2 * (2 * (a / 16))))
    shape = omega arith

crc_nibble_lem : (a : ℕ) → crc_nibble a ≡ bit_xor (a / 16) (crc_nibble (a % 16))
crc_nibble_lem a =
    ap crc_nibble (split4 a)
    ∙ crc_nibble-xor (16 * (a / 16)) (a % 16)
    ∙ ap (λ t. bit_xor t (crc_nibble (a % 16))) (crc_nibble_shift (a / 16))

-- The table holds the four steps from each nibble, with start and end of the CRC folded in.
abbrev table_entry : ℕ → Bool
table_entry i = bit_xor (crc_nibble i) 0xF0000000 == get_or crc_table (15 - i) 0

table_holds : (i : ℕ) → i < 16 → get_or crc_table (15 - i) 0 ≡ bit_xor (crc_nibble i) 0xF0000000
table_holds i h = sym ((==_iff _ _).0 (tested_sound table_entry 16 i h table))
  where
    table : tested table_entry 16 ≡ true
    table = unfold tested crc_bit in refl

flip_odd : (a m : ℕ) → m % 2 ≡ 1 → bit_xor a m % 2 ≡ 1 - a % 2
flip_odd a m odd = elim (bit_cases a) [
  | inl e ↦ parity-xor a m ∙ rw (e, odd)
  | inr e ↦ parity-xor a m ∙ rw (e, odd)
]

low4-ones : (a : ℕ) → bit_xor a ones % 16 ≡ 15 - a % 16
low4-ones a = omega (
  arith,
  flip_odd a ones refl,
  half-xor a ones,
  flip_odd (a / 2) 0x7FFFFFFF refl,
  half-xor (a / 2) 0x7FFFFFFF,
  flip_odd (a / 2 / 2) 0x3FFFFFFF refl,
  half-xor (a / 2 / 2) 0x3FFFFFFF,
  flip_odd (a / 2 / 2 / 2) 0x1FFFFFFF refl,
)

xor_right : (a b c : ℕ) → bit_xor (bit_xor a b) c ≡ bit_xor (bit_xor a c) b
xor_right a b c =
    bit_xor_assoc a b c ∙ ap (bit_xor a) (bit_xor_comm b c) ∙ sym (bit_xor_assoc a c b)

xor_cancel : (a b : ℕ) → bit_xor (bit_xor a b) b ≡ a
xor_cancel a b = bit_xor_assoc a b b ∙ ap (bit_xor a) (bit_xor_self b) ∙ xor-zero a

-- The register of `ether_fcs` is the complement of that of CRC-32.
fcs_step_lem :
    (s d : ℕ)
    → fcs_step (bit_xor s ones) d ≡ bit_xor (bit_xor (crc_nibble (bit_xor s d)) (d / 16)) ones
unfolding fcs_step
fcs_step_lem s d =
    let nib = crc_nibble (bit_xor s d % 16) in
    let index : bit_and (bit_xor (bit_xor s ones) d) 0x0f ≡ 15 - bit_xor s d % 16 =
      bit_and_low 4 _ ∙ ap (λ (t : ℕ). t % 16) (xor_right s ones d) ∙ low4-ones (bit_xor s d) in
    let entry : get_or crc_table (bit_and (bit_xor (bit_xor s ones) d) 0x0f) 0
        ≡ bit_xor nib 0xF0000000 =
      ap (λ k. get_or crc_table k 0) index ∙ table_holds (bit_xor s d % 16) (omega arith) in
    let register : bit_xor (crc_nibble (bit_xor s d)) (d / 16) ≡ bit_xor (s / 16) nib =
      ap (λ t. bit_xor t (d / 16))
        (crc_nibble_lem (bit_xor s d) ∙ ap (λ t. bit_xor t nib) (shift4-xor s d))
      ∙ xor_right (bit_xor (s / 16) (d / 16)) nib (d / 16)
      ∙ ap (λ t. bit_xor t nib) (xor_cancel (s / 16) (d / 16)) in
    ap₂ bit_xor (shift4-xor s ones) entry
    ∙ xor_swap (s / 16) 0x0FFFFFFF nib 0xF0000000
    ∙ ap (λ t. bit_xor t ones) (sym register)

fcs_byte_lem :
    (s b : ℕ)
    → b < 256
    → fcs_step (fcs_step (bit_xor s ones) b) (b / 16) ≡ bit_xor (crc_byte s b) ones
unfolding crc_byte
fcs_byte_lem s b h =
    let first = crc_nibble (bit_xor s b) in
    let gone : b / 16 / 16 ≡ 0 = omega arith in
    ap (λ t. fcs_step t (b / 16)) (fcs_step_lem s b)
    ∙ fcs_step_lem (bit_xor first (b / 16)) (b / 16)
    ∙ ap₂ (λ t u. bit_xor (bit_xor (crc_nibble t) u) ones) (xor_cancel first (b / 16)) gone
    ∙ ap (λ t. bit_xor t ones) (xor-zero (crc_nibble first))

fcs_loop_lem :
    (s : ℕ) (bytes : List ℕ)
    → All IsByte bytes
    → fcs_loop (bit_xor s ones) bytes ≡ bit_xor (crc_bytes s bytes) ones
unfolding fcs_loop crc_bytes
fcs_loop_lem s [] h = refl
fcs_loop_lem s (b ∷ rest) h =
    ap (λ t. fcs_loop t rest) (fcs_byte_lem s b h.0) ∙ fcs_loop_lem (crc_byte s b) rest h.1

-- Over any bytes, the table-driven `ether_fcs` is the CRC-32 that is defined bit by bit.
pub ether_fcs-crc32 : (bytes : List ℕ) → All IsByte bytes → ether_fcs bytes ≡ crc32 bytes
unfolding ether_fcs crc32
ether_fcs-crc32 bytes h = fcs_loop_lem ones bytes h
