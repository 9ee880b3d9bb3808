-- ===== src/Checksum/Tests.antt =====
-- Runs of the checksum, and the theorems at them.
use xstack_io.Prelude.{
  ℕ, ◌+◌, ◌-◌, ◌%◌, ◌≡◌, ◌↔◌, refl, arith, List, [], ◌∷◌, ◌++◌, All, le_bytes16, swap16,
}
use xstack_io.Checksum.{ip_checksum}
use xstack_io.Checksum.Sum.{IsByte, word_sum}
use xstack_io.Checksum.Verify.{ip_checksum_verifies, ip_checksum_detects}
use xstack_io.Checksum.Rfc1071.{ones_sum, ip_checksum_rfc1071}

-- The start of an IP header up to its checksum, and the addresses after it.
abbrev head : List ℕ
head = 0x45 ∷ 0 ∷ 0 ∷ 0x73 ∷ 0 ∷ 0 ∷ 0x40 ∷ 0 ∷ 0x40 ∷ 0x11 ∷ []

abbrev addresses : List ℕ
addresses = 0xc0 ∷ 0xa8 ∷ 0 ∷ 1 ∷ 0xc0 ∷ 0xa8 ∷ 0 ∷ 0xc7 ∷ []

-- 0xb861 in network byte order.
header_checksum : ip_checksum (head ++ (0 ∷ 0 ∷ addresses)) ≡ 0x61b8
unfolding ip_checksum swap16
header_checksum = refl

odd_checksum : ip_checksum (1 ∷ 2 ∷ 3 ∷ []) ≡ 65535 - (0x201 + 3)
unfolding ip_checksum swap16
odd_checksum = refl

head-bytes : All IsByte head
head-bytes = omega arith

addresses-bytes : All IsByte addresses
addresses-bytes = omega arith

ip_checksum_verifies_example :
    ip_checksum (head ++ le_bytes16 (ip_checksum (head ++ (0 ∷ 0 ∷ addresses))) addresses) ≡ 0
ip_checksum_verifies_example = ip_checksum_verifies head addresses refl head-bytes addresses-bytes

ip_checksum_detects_example :
    (ip_checksum head ≡ ip_checksum addresses)
    ↔ (word_sum head % 65535 ≡ word_sum addresses % 65535)
ip_checksum_detects_example = ip_checksum_detects head addresses head-bytes addresses-bytes

ip_checksum_rfc1071_example : swap16 (ip_checksum addresses) ≡ 65535 - ones_sum addresses
ip_checksum_rfc1071_example = ip_checksum_rfc1071 addresses addresses-bytes (omega arith)
