-- ===== src/IpUtil/Tests.antt =====
-- Tests of the text of an address and the witness of its theorem.
use xstack_io.Prelude.{ℕ, List, ◌+◌, ◌≤◌, ◌≡◌, refl, arith, [], ◌∷◌, length}
use xstack_io.IpUtil.{ip2str, ip_str_len}
use xstack_io.IpUtil.Text.{Says, split_dots, ip2str_lem}

-- 10.0.2.255
text : ip2str 0x0a0002ff ≡ 49 ∷ 48 ∷ 46 ∷ 48 ∷ 46 ∷ 50 ∷ 46 ∷ 50 ∷ 53 ∷ 53 ∷ []
unfolding ip2str
text = refl

ip2str_lem_example :
    (a : List ℕ) × (b : List ℕ) × (c : List ℕ) × (d : List ℕ) × (split_dots (ip2str 0x0a0002ff)
      ≡ a ∷ b ∷ c ∷ d ∷ [])
    × Says a 10
    × Says b 0
    × Says c 2
    × Says d 255
    × (length (ip2str 0x0a0002ff) + 1 ≤ ip_str_len)
ip2str_lem_example = ip2str_lem 0x0a0002ff (omega arith)
