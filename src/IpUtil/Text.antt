-- ===== src/IpUtil/Text.antt =====
-- What the text of an address says, and how long it is.
use mathlib.Core.Path.{subst}
use xstack_io.Prelude.{
  ℕ, ◌+◌, ◌/◌, ◌%◌, ◌^◌, ◌≤◌, ◌<◌, ◌≡◌, ◌≢◌, refl, ap, ◌∙◌, arith, List, [], ◌∷◌, ◌++◌, All, length,
  length-append, ◌==◌, differ_test, if◌then◌else◌,
}
use xstack_io.Prelude.Decimal.{
  decimal, digits-All, length-digits, one_digit, read_digits, read_decimal,
}
use xstack_io.IpUtil.{dot, ip_str_len, ip2str}

abbrev in_front : ℕ → List (List ℕ) → List (List ℕ)
in_front c [] = (c ∷ []) ∷ []
in_front c (field ∷ fields) = (c ∷ field) ∷ fields

-- The texts between the dots.
abbrev pub split_dots : List ℕ → List (List ℕ)
split_dots [] = [] ∷ []
split_dots (c ∷ cs) =
    let fields = split_dots cs in if c == dot then [] ∷ fields else in_front c fields

-- A character is a digit.
abbrev pub IsDigit : ℕ → Type 0
IsDigit c = (48 ≤ c) × (c < 58)

-- The text is one to three digits, and these are the byte in decimal.
abbrev pub Says : List ℕ → ℕ → Type 0
Says text b = All IsDigit text × (1 ≤ length text) × (length text ≤ 3) × (read_digits 0 text ≡ b)

split_field :
    (field rest : List ℕ)
    → All (λ c. c ≢ dot) field
    → split_dots (field ++ dot ∷ rest) ≡ field ∷ split_dots rest
split_field [] rest plain = refl
split_field (c ∷ cs) rest plain = rw (differ_test c dot plain.0, split_field cs rest plain.1) refl

split_last : (field : List ℕ) → All (λ c. c ≢ dot) field → split_dots field ≡ field ∷ []
split_last [] plain = refl
split_last (c ∷ cs) plain = rw (differ_test c dot plain.0, split_last cs plain.1) refl

split_dotted :
    (k l m n : List ℕ)
    → All (λ c. c ≢ dot) k
    → All (λ c. c ≢ dot) l
    → All (λ c. c ≢ dot) m
    → All (λ c. c ≢ dot) n
    → split_dots (k ++ (dot ∷ l ++ (dot ∷ m ++ (dot ∷ n)))) ≡ k ∷ l ∷ m ∷ n ∷ []
split_dotted k l m n pk pl pm pn =
    split_field k (l ++ (dot ∷ m ++ (dot ∷ n))) pk
    ∙ ap (◌∷◌ k) (
        split_field l (m ++ (dot ∷ n)) pl
        ∙ ap (◌∷◌ l) (split_field m n pm ∙ ap (◌∷◌ m) (split_last n pn)))

plain : (b : ℕ) → All (λ c. c ≢ dot) (decimal b)
plain b = digits-All (λ c above below e. omega (arith, e, above)) 10 b

length-dotted :
    (k l m n : List ℕ)
    → length k ≤ 3
    → length l ≤ 3
    → length m ≤ 3
    → length n ≤ 3
    → length (k ++ (dot ∷ l ++ (dot ∷ m ++ (dot ∷ n)))) ≤ 15
length-dotted k l m n hk hl hm hn =
    rw
      (
        length-append k (dot ∷ l ++ (dot ∷ m ++ (dot ∷ n))),
        length-append l (dot ∷ m ++ (dot ∷ n)),
        length-append m (dot ∷ n),
      )
      (omega arith)

says : (b : ℕ) → b < 2 ^ 8 → Says (decimal b) b
says b h = (
  digits-All (λ c above below. (above, below)) 10 b,
  one_digit 9 b,
  length-digits 10 2 b (omega arith),
  read_decimal b (omega arith),
)

-- The text of an address of 32 bits has four parts between dots, and each is one to three digits that
-- are a byte of the address in decimal, from the highest to the lowest. With its final zero the text
-- fits in IP_STR_LEN bytes.
pub ip2str_lem :
    (ip : ℕ)
    → ip < 2 ^ 32
    → (a : List ℕ) × (b : List ℕ) × (c : List ℕ) × (d : List ℕ) × (split_dots (ip2str ip)
        ≡ a ∷ b ∷ c ∷ d ∷ [])
      × Says a (ip / 2 ^ 24)
      × Says b (ip / 2 ^ 16 % 2 ^ 8)
      × Says c (ip / 2 ^ 8 % 2 ^ 8)
      × Says d (ip % 2 ^ 8)
      × (length (ip2str ip) + 1 ≤ ip_str_len)
unfolding ip2str
ip2str_lem ip h =
    let a = ip / 2 ^ 24 % 2 ^ 8 in
    let b = ip / 2 ^ 16 % 2 ^ 8 in
    let c = ip / 2 ^ 8 % 2 ^ 8 in
    let d = ip % 2 ^ 8 in
    let highest : a ≡ ip / 2 ^ 24 = omega arith in
    let (_, _, short_a, _) = says a (omega arith) in
    let (_, _, short_b, _) = says b (omega arith) in
    let (_, _, short_c, _) = says c (omega arith) in
    let (_, _, short_d, _) = says d (omega arith) in
    let short =
      length-dotted (decimal a) (decimal b) (decimal c) (decimal d) short_a short_b short_c
        short_d in
    (
      decimal a,
      decimal b,
      decimal c,
      decimal d,
      split_dotted (decimal a) (decimal b) (decimal c) (decimal d) (plain a) (plain b) (plain c)
          (plain d),
      subst (Says (decimal a)) highest (says a (omega arith)),
      says b (omega arith),
      says c (omega arith),
      says d (omega arith),
      omega (arith, short),
    )
