-- ===== src/Checksum/Sum.antt =====
-- The accumulator in closed form: the sum of the words, reduced to 1 .. 0xffff.
use xstack_io.Prelude.{
  ℕ, ◌+◌, ◌-◌, ◌%◌, ◌^◌, ◌<◌, ◌≡◌, ◌∙◌, ap, arith, List, [], ◌∷◌, ◌++◌, le16, All, swap16, length,
}
use xstack_io.Checksum.{add_word, add_bytes, ip_checksum}

abbrev pub IsByte : ℕ → Type 0
IsByte b = b < 256

-- The sum of the little-endian words, an odd last byte alone.
abbrev pub word_sum : List ℕ → ℕ
word_sum [] = 0
word_sum (b ∷ []) = b
word_sum (b0 ∷ b1 ∷ rest) = le16 b0 b1 + word_sum rest

-- The representative of a sum modulo 0xffff that lies in 1 .. 0xffff.
abbrev pub reduce : ℕ → ℕ
reduce s = (s + 65534) % 65535 + 1

add_word_lem : (s w : ℕ) → w < 65536 → add_word (reduce s) w ≡ reduce (s + w)
unfolding add_word swap16
add_word_lem s w h = ground arith

add_bytes_lem :
    (s : ℕ) (bytes : List ℕ)
    → All IsByte bytes
    → add_bytes (reduce s) bytes ≡ reduce (s + word_sum bytes)
unfolding add_bytes
add_bytes_lem s [] h = omega arith
add_bytes_lem s (b ∷ []) h = add_word_lem s b (omega arith)
add_bytes_lem s (b0 ∷ b1 ∷ rest) h =
    ap (λ a. add_bytes a rest) (add_word_lem s (le16 b0 b1) (omega arith))
    ∙ add_bytes_lem (s + le16 b0 b1) rest h.1.1
    ∙ omega arith

-- `ip_checksum` is the ones' complement of the sum of the words modulo 0xffff.
pub ip_checksum_lem :
    (bytes : List ℕ)
    → All IsByte bytes
    → ip_checksum bytes ≡ 65534 - (word_sum bytes + 65534) % 65535
unfolding ip_checksum
ip_checksum_lem bytes h = omega (arith, add_bytes_lem 0 bytes h)

pub ip_checksum-lt : (bytes : List ℕ) → ip_checksum bytes < 2 ^ 16
unfolding ip_checksum
ip_checksum-lt bytes = omega arith

-- Whole words before a point are summed apart from the rest.
abbrev pub IsEven : List ℕ → Type 0
IsEven l = length l % 2 ≡ 0

pub word_sum-append : (xs ys : List ℕ) → IsEven xs → word_sum (xs ++ ys) ≡ word_sum xs + word_sum ys
word_sum-append [] ys h = omega arith
word_sum-append (b ∷ []) ys h = absurd (omega arith)
word_sum-append (b0 ∷ b1 ∷ rest) ys h = omega (arith, word_sum-append rest ys (omega arith))
