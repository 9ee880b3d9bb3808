-- ===== src/Checksum/Rfc1071.antt =====
-- The checksum against RFC 1071: the ones' complement sum of big-endian words.
use xstack_io.Prelude.{
  ℕ, ◌+◌, ◌-◌, ◌*◌, ◌/◌, ◌%◌, ◌≤◌, ◌<◌, ◌≡◌, refl, arith, ◌⊎◌, inl, List, [], ◌∷◌, All, swap16,
}
use xstack_io.Checksum.{ip_checksum}
use xstack_io.Checksum.Sum.{IsByte, word_sum, ip_checksum_lem}

-- 16-bit addition with the carry added back in.
abbrev pub ones_add : ℕ → ℕ → ℕ
ones_add a b = (a + b) % 65536 + (a + b) / 65536

pub ones_sum : List ℕ → ℕ
ones_sum [] = 0
ones_sum (b ∷ []) = 256 * b
ones_sum (b0 ∷ b1 ∷ rest) = ones_add (256 * b0 + b1) (ones_sum rest)

ones_sum_lem :
    (bytes : List ℕ)
    → All IsByte bytes
    → (ones_sum bytes ≤ 65535)
      × (ones_sum bytes % 65535 ≡ 256 * word_sum bytes % 65535)
      × ((word_sum bytes ≡ 0) ⊎ (0 < ones_sum bytes))
unfolding ones_sum
ones_sum_lem [] h = (omega arith, omega arith, inl refl)
ones_sum_lem (b ∷ []) h = omega arith
ones_sum_lem (b0 ∷ b1 ∷ rest) h = omega (arith, ones_sum_lem rest h.1.1)

-- In network byte order `ip_checksum` is the checksum of RFC 1071, the complement of the ones'
-- complement sum of the big-endian words, for a buffer that is not all zeros.
pub ip_checksum_rfc1071 :
    (bytes : List ℕ)
    → All IsByte bytes
    → 0 < word_sum bytes
    → swap16 (ip_checksum bytes) ≡ 65535 - ones_sum bytes
unfolding swap16
ip_checksum_rfc1071 bytes h nonzero = omega (arith, ip_checksum_lem bytes h, ones_sum_lem bytes h)
