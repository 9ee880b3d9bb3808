-- ===== src/IpUtil.antt =====
-- util/ip_util.c: an address as text.
mod Tests
pub mod Text
use xstack_io.Prelude.{ℕ, ◌/◌, ◌%◌, ◌^◌, List, [], ◌∷◌, ◌++◌}
use xstack_io.Prelude.Decimal.{decimal}

-- `.`
abbrev pub dot : ℕ
dot = 46

-- `IP_STR_LEN`
abbrev pub ip_str_len : ℕ
ip_str_len = 17

-- The characters that `sprintf` writes before the final zero.
unfoldable pub ip2str : ℕ → List ℕ
ip2str ip =
    decimal (ip / 2 ^ 24 % 2 ^ 8)
    ++ (dot ∷ decimal (ip / 2 ^ 16 % 2 ^ 8)
        ++ (dot ∷ decimal (ip / 2 ^ 8 % 2 ^ 8) ++ (dot ∷ decimal (ip % 2 ^ 8))))
