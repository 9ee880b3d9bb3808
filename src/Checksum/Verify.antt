-- ===== src/Checksum/Verify.antt =====
-- A header that carries its own checksum sums up to 0.
use xstack_io.Prelude.{ℕ, ◌%◌, ◌≡◌, arith, List, ◌∷◌, ◌++◌, All, All-append, le_bytes16, ◌↔◌}
use xstack_io.Checksum.{ip_checksum}
use xstack_io.Checksum.Sum.{
  IsByte, IsEven, word_sum, ip_checksum_lem, ip_checksum-lt, word_sum-append,
}

-- Let a buffer hold a zero field of two bytes at an even offset. With the checksum of the buffer
-- stored in that field, in the byte order of the host, the checksum of the buffer is 0.
pub ip_checksum_verifies :
    (before after : List ℕ)
    → IsEven before
    → All IsByte before
    → All IsByte after
    → ip_checksum (before ++ le_bytes16 (ip_checksum (before ++ (0 ∷ 0 ∷ after))) after) ≡ 0
ip_checksum_verifies before after even hb ha =
    let c = ip_checksum (before ++ (0 ∷ 0 ∷ after)) in
    omega (
      arith,
      ip_checksum_lem (before ++ (0 ∷ 0 ∷ after))
          (All-append IsByte before (0 ∷ 0 ∷ after) hb (omega arith, (omega arith, ha))),
      ip_checksum_lem (before ++ le_bytes16 c after)
          (All-append IsByte before (le_bytes16 c after) hb (omega arith, (omega arith, ha))),
      word_sum-append before (0 ∷ 0 ∷ after) even,
      word_sum-append before (le_bytes16 c after) even,
      ip_checksum-lt (before ++ (0 ∷ 0 ∷ after)),
    )

-- Two buffers have the same checksum exactly when their word sums agree modulo 0xffff: it misses a
-- change that keeps the sum, and no other.
pub ip_checksum_detects :
    (xs ys : List ℕ)
    → All IsByte xs
    → All IsByte ys
    → (ip_checksum xs ≡ ip_checksum ys) ↔ (word_sum xs % 65535 ≡ word_sum ys % 65535)
ip_checksum_detects xs ys hx hy = (
  λ e. omega (arith, ip_checksum_lem xs hx, ip_checksum_lem ys hy),
  λ e. omega (arith, ip_checksum_lem xs hx, ip_checksum_lem ys hy),
)
