-- ===== src/Ether/Fcs.antt =====
-- `ether_fcs` of src/ether_fcs.c: the frame check sequence by a table of sixteen entries.
use xstack_io.Prelude.{ℕ, ◌/◌, ◌^◌, List, [], ◌∷◌, bit_and, bit_xor, get_or}

abbrev pub crc_table : List ℕ
crc_table =
    0x4DBDF21C ∷ 0x500AE278 ∷ 0x76D3D2D4 ∷ 0x6B64C2B0 ∷ 0x3B61B38C ∷ 0x26D6A3E8 ∷ 0x000F9344
    ∷ 0x1DB88320 ∷ 0xA005713C ∷ 0xBDB26158 ∷ 0x9B6B51F4 ∷ 0x86DC4190 ∷ 0xD6D930AC ∷ 0xCB6E20C8
    ∷ 0xEDB71064 ∷ 0xF0000000 ∷ []

-- One line of the loop body; the index is below 16, so the read is in range.
unfoldable pub fcs_step : ℕ → ℕ → ℕ
fcs_step crc d = bit_xor (crc / 2 ^ 4) (get_or crc_table (bit_and (bit_xor crc d) 0x0f) 0)

unfoldable pub fcs_loop : ℕ → List ℕ → ℕ
fcs_loop crc [] = crc
fcs_loop crc (b ∷ rest) = fcs_loop (fcs_step (fcs_step crc b) (b / 2 ^ 4)) rest

unfoldable pub ether_fcs : List ℕ → ℕ
unfolding fcs_loop fcs_step
ether_fcs bytes = fcs_loop 0 bytes
