-- ===== src/Arp/Cache/Order.antt =====
-- The comparison of src/arp.c orders the addresses of half of the range.
use xstack_io.Prelude.{
  ℕ, ◌+◌, ◌-◌, ◌%◌, ◌^◌, ◌≤◌, ◌<◌, ◌≡◌, sym, ap, ◌∙◌, arith, ltb, if◌then◌else◌, dec_lt, ltb→lt,
  lt→ltb,
}
use xstack_io.Prelude.Int.{ℤ, pos, negsuc, is_neg}
use xstack_io.SlotTree.{IsOrder}
use xstack_io.Arp.Cache.{arp_cache_cmp}

-- An address of the half of the range that starts at `low`.
abbrev pub Within : ℕ → ℕ → Type 0
Within low a = (low ≤ a) × (a < low + 2 ^ 31) × (a < 2 ^ 32)

above : (a b : ℕ) → b ≤ a → a < b + 2 ^ 31 → a < 2 ^ 32 → arp_cache_cmp a b ≡ pos (a - b)
unfolding arp_cache_cmp
above a b h half small =
    let e : (a + 2 ^ 32 - b) % 2 ^ 32 ≡ a - b = omega arith in ap to_word e ∙ ground arith
  where
    to_word : ℕ → ℤ
    to_word w = if ltb w (2 ^ 31) then pos w else negsuc (2 ^ 32 - w - 1)

below : (a b : ℕ) → a < b → b < a + 2 ^ 31 → b < 2 ^ 32 → arp_cache_cmp a b ≡ negsuc (b - a - 1)
unfolding arp_cache_cmp
below a b h half small =
    let e : (a + 2 ^ 32 - b) % 2 ^ 32 ≡ 2 ^ 32 - (b - a) = omega arith in
    ap to_word e ∙ ground arith
  where
    to_word : ℕ → ℤ
    to_word w = if ltb w (2 ^ 31) then pos w else negsuc (2 ^ 32 - w - 1)

is_neg_lem : (low a b : ℕ) → Within low a → Within low b → is_neg (arp_cache_cmp a b) ≡ ltb a b
is_neg_lem low a b wa wb = elim (dec_lt a b) [
  | yes h ↦ ap is_neg (below a b h (omega arith) (omega arith)) ∙ ground arith
  | no h ↦ ap is_neg (above a b (omega arith) (omega arith) (omega arith)) ∙ ground arith
]

zero_lem : (low a b : ℕ) → Within low a → Within low b → arp_cache_cmp a b ≡ pos 0 → a ≡ b
zero_lem low a b wa wb e = elim (dec_lt a b) [
  | yes h ↦ let e' = below a b h (omega arith) (omega arith) in cc (e, e')
  | no h ↦
      let e' : pos (a - b) ≡ pos 0 =
        sym (above a b (omega arith) (omega arith) (omega arith)) ∙ e in
      let e'' : a - b ≡ 0 = cc e' in omega arith
]

-- Addresses that lie in one half of the range, less than 2^31 apart, are ordered by the comparison
-- of the cache's tree: it is zero for equal addresses only, one of two different addresses is below
-- the other, and what is below is so transitively.
pub arp_cache_cmp-IsOrder : (low : ℕ) → IsOrder (Within low) arp_cache_cmp
arp_cache_cmp-IsOrder low = record {
  cmp_refl = λ a wa. above a a (omega arith) (omega arith) (omega arith) ∙ ap pos (omega arith);
  cmp_zero = zero_lem low;
  cmp_flip = λ a b wa wb ne h.
      let h' = sym (is_neg_lem low a b wa wb) ∙ h in is_neg_lem low b a wb wa ∙ ground arith;
  cmp_trans = λ a b c wa wb wc h h'.
      let below_b = ltb→lt a b (sym (is_neg_lem low a b wa wb) ∙ h) in
      let below_c = ltb→lt b c (sym (is_neg_lem low b c wb wc) ∙ h') in
      is_neg_lem low a c wa wc ∙ lt→ltb a c (omega arith);
}
