-- ===== src/Checksum.antt =====
-- `ip_checksum` of src/ip.c: the Internet checksum over the bytes of a buffer.
pub mod Sum
pub mod Verify
pub mod Rfc1071
mod Tests
use xstack_io.Prelude.{
  ℕ, ◌+◌, ◌-◌, ◌%◌, ◌^◌, List, [], ◌∷◌, u16, u32, le16, ltb, ntohs, if◌then◌else◌,
}

-- `acc += word; if (acc > 0xffff) acc -= ntohs(0xffff);` on a `uint32_t`
unfoldable pub add_word : ℕ → ℕ → ℕ
add_word acc word = let sum = u32 (acc + word) in if ltb 0xffff sum then sum - ntohs 0xffff else sum

-- The loop over whole words and the step for an odd last byte.
unfoldable pub add_bytes : ℕ → List ℕ → ℕ
add_bytes acc [] = acc
add_bytes acc (b ∷ []) = add_word acc b
add_bytes acc (b0 ∷ b1 ∷ rest) = add_bytes (add_word acc (le16 b0 b1)) rest

-- `return ~acc;` as a `uint16_t`. The list is the first `bsize` bytes at `dp`.
unfoldable pub ip_checksum : List ℕ → ℕ
unfolding add_bytes add_word
ip_checksum bytes = u16 (2 ^ 32 - 1 - add_bytes 0xffff bytes)
