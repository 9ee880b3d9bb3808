-- ===== src/Prelude/Words.antt =====
-- Fixed-width unsigned integers as native numbers, and the byte order functions of the C library
-- on a little-endian host: a `uint16_t` in memory is its low byte, then its high byte.
use Prim.Native.Nat.{ℕ, ◌+◌, ◌-◌, ◌*◌, ◌/◌, ◌%◌, ◌^◌, ◌<◌}
use mathlib.Core.Path.{◌≡◌}
use mathlib.Core.List.{List, ◌∷◌}
use native.Mathlib.Omega.{arith}

abbrev pub u8 : ℕ → ℕ
u8 n = n % 2 ^ 8

abbrev pub u16 : ℕ → ℕ
u16 n = n % 2 ^ 16

abbrev pub u32 : ℕ → ℕ
u32 n = n % 2 ^ 32

-- `size_t` of a 64-bit host
abbrev pub size : ℕ → ℕ
size n = n % 2 ^ 64

-- `size_t` subtraction wraps.
abbrev pub size_sub : ℕ → ℕ → ℕ
size_sub a b = (a + 2 ^ 64 - b % 2 ^ 64) % 2 ^ 64

unfoldable pub swap16 : ℕ → ℕ
swap16 x = x % 256 * 256 + x / 256 % 256

unfoldable pub swap32 : ℕ → ℕ
swap32 x = x % 256 * 2 ^ 24 + x / 256 % 256 * 2 ^ 16 + x / 2 ^ 16 % 256 * 256 + x / 2 ^ 24 % 256

abbrev pub htons : ℕ → ℕ
htons = swap16

abbrev pub ntohs : ℕ → ℕ
ntohs = swap16

abbrev pub htonl : ℕ → ℕ
htonl = swap32

abbrev pub ntohl : ℕ → ℕ
ntohl = swap32

-- The bytes of an integer in memory, and the integer that bytes stand for.
abbrev pub le_bytes16 : ℕ → List ℕ → List ℕ
le_bytes16 x rest = x % 256 ∷ x / 256 % 256 ∷ rest

abbrev pub le_bytes32 : ℕ → List ℕ → List ℕ
le_bytes32 x rest = x % 256 ∷ x / 256 % 256 ∷ x / 2 ^ 16 % 256 ∷ x / 2 ^ 24 % 256 ∷ rest

abbrev pub le16 : ℕ → ℕ → ℕ
le16 b0 b1 = b0 + 256 * b1

abbrev pub le32 : ℕ → ℕ → ℕ → ℕ → ℕ
le32 b0 b1 b2 b3 = b0 + 256 * b1 + 2 ^ 16 * b2 + 2 ^ 24 * b3

pub swap16-swap16 : (x : ℕ) → x < 2 ^ 16 → swap16 (swap16 x) ≡ x
unfolding swap16
swap16-swap16 x h = omega arith

pub swap32-swap32 : (x : ℕ) → x < 2 ^ 32 → swap32 (swap32 x) ≡ x
unfolding swap32
swap32-swap32 x h = omega arith

pub swap16-lt : (x : ℕ) → swap16 x < 2 ^ 16
unfolding swap16
swap16-lt x = omega arith

pub swap32-lt : (x : ℕ) → swap32 x < 2 ^ 32
unfolding swap32
swap32-lt x = omega arith
