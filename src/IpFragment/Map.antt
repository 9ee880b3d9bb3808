-- ===== src/IpFragment/Map.antt =====
-- The map of the units of a packet that have come, `fragmap_*` of src/ip_fragment.c.
use xstack_io.Prelude.{
  ℕ, zero, suc, ◌+◌, ◌*◌, ◌/◌, ◌%◌, ◌^◌, ◌<◌, ◌≤◌, ◌≡◌, ◌≢◌, refl, sym, ap, ◌∙◌, arith, List, Bool,
  true, false, not, ◌&&◌, length, set, get_or, replicate, drop, ◌++◌, ◌==◌, Bool-cases, same_test,
  differ_test, ℕ_discrete, bit_and, bit_or, length-set, get_or-set_self, get_or-set_ne, ◌⊎◌, inl,
  inr, ◌↔◌,
}
use xstack_io.Prelude.Bits.{
  digit, digit-bit_or, digit-pow_self, digit-pow_ne, digit-zero, mask_clear_iff,
}
use xstack_io.IpFragment.{fragmap_init, fragmap_set, fragmap_tst, mark_units, all_units}

-- The digit of unit `i`.
abbrev mark : List ℕ → ℕ → ℕ
mark map i = digit (i % 32) (get_or map (i / 32) 0)

tst_mark : (map : List ℕ) (i : ℕ) → fragmap_tst map i ≡ not (mark map i == 0)
unfolding fragmap_tst
tst_mark map i = elim (ℕ_discrete (mark map i) 0) [
  | yes clear ↦
      rw
        (
          same_test (bit_and word (2 ^ (i % 32))) 0 ((mask_clear_iff (i % 32) word).1 clear),
          same_test (mark map i) 0 clear,
        )
        refl
  | no up ↦
      rw
        (
          differ_test (bit_and word (2 ^ (i % 32))) 0
              (λ z. up ((mask_clear_iff (i % 32) word).0 z)),
          differ_test (mark map i) 0 up,
        )
        refl
]
  where
    word : ℕ
    word = get_or map (i / 32) 0

pub fragmap_tst-fragmap_set_self :
    (map : List ℕ) (i : ℕ) → i / 32 < length map → fragmap_tst (fragmap_set map i) i ≡ true
unfolding fragmap_set
fragmap_tst-fragmap_set_self map i inside =
    tst_mark (fragmap_set map i) i ∙ ap not (differ_test _ 0 up)
  where
    word : ℕ
    word = get_or map (i / 32) 0

    up : digit (i % 32) (get_or (set map (i / 32) (bit_or word (2 ^ (i % 32)))) (i / 32) 0) ≢ 0
    up =
        rw
          (
            get_or-set_self map (i / 32) (bit_or word (2 ^ (i % 32))) 0 inside,
            digit-bit_or (i % 32) word (2 ^ (i % 32)),
            digit-pow_self (i % 32),
          )
          (λ z. omega (arith, z))

pub fragmap_tst-fragmap_set_ne :
    (map : List ℕ) (i j : ℕ)
    → i / 32 < length map
    → i ≢ j
    → fragmap_tst (fragmap_set map i) j ≡ fragmap_tst map j
unfolding fragmap_set
fragmap_tst-fragmap_set_ne map i j inside ne =
    tst_mark (fragmap_set map i) j ∙ ap (λ d. not (d == 0)) same ∙ sym (tst_mark map j)
  where
    word : ℕ
    word = get_or map (i / 32) 0

    same : mark (set map (i / 32) (bit_or word (2 ^ (i % 32)))) j ≡ mark map j
    same = elim (ℕ_discrete (i / 32) (j / 32)) [
      | no apart ↦ ap (digit (j % 32)) (get_or-set_ne map (i / 32) (j / 32) _ 0 apart)
      | yes e ↦
          rw
            (
              ← e,
              get_or-set_self map (i / 32) (bit_or word (2 ^ (i % 32))) 0 inside,
              digit-bit_or (j % 32) word (2 ^ (i % 32)),
              digit-pow_ne (j % 32) (i % 32) (λ d. ne (omega (arith, d, e))),
            )
            (omega arith)
    ]

length-fragmap_set : (map : List ℕ) (i : ℕ) → length (fragmap_set map i) ≡ length map
unfolding fragmap_set
length-fragmap_set map i = length-set map (i / 32) _

pub length-mark_units : (left i : ℕ) (map : List ℕ) → length (mark_units left i map) ≡ length map
unfolding mark_units
length-mark_units zero i map = refl
length-mark_units (suc left) i map =
    length-mark_units left (i + 1) (fragmap_set map i) ∙ length-fragmap_set map i

-- The loop marks its units and keeps the marks of the others.
pub mark_units_lem :
    (left i : ℕ) (map : List ℕ) (j : ℕ)
    → i + left ≤ 32 * length map
    → (fragmap_tst (mark_units left i map) j ≡ true)
      ↔ (((i ≤ j) × (j < i + left)) ⊎ (fragmap_tst map j ≡ true))
unfolding mark_units
mark_units_lem zero i map j fits = (
  λ e. inr e,
  λ c. elim c [ inl within ↦ absurd (omega (arith, within.0, within.1)) | inr e ↦ e ],
)
mark_units_lem (suc left) i map j fits =
    let later =
      mark_units_lem left (i + 1) (fragmap_set map i) j
        (rw (length-fragmap_set map i) (omega (arith, fits))) in
    elim (ℕ_discrete i j) [
      | yes here ↦
          let self = fragmap_tst-fragmap_set_self map i (omega (arith, fits)) in
          (
            λ e. inl (omega (arith, here), omega (arith, here)),
            λ c. later.1 (inr (rw (← here) self)),
          )
      | no ne ↦
          let other = fragmap_tst-fragmap_set_ne map i j (omega (arith, fits)) ne in
          (
            λ e. elim (later.0 e) [
              | inl (a, b) ↦ inl (omega (arith, a), omega (arith, b))
              | inr m ↦ inr (sym other ∙ m)
            ],
            λ c. later.1 (elim c [
              | inl (a, b) ↦ inl (omega (arith, a, ne), omega (arith, b))
              | inr m ↦ inr (other ∙ m)
            ]),
          )
    ]

-- The test of the loop is the test of each unit.
pub all_units_iff :
    (left i : ℕ) (map : List ℕ)
    → (all_units left i map ≡ true) ↔ ((j : ℕ) → i ≤ j → j < i + left → fragmap_tst map j ≡ true)
unfolding all_units
all_units_iff zero i map = (λ e j low high. absurd (omega (arith, low, high)), λ all. refl)
all_units_iff (suc left) i map =
    let (forth, back) = all_units_iff left (i + 1) map in
    (
      λ e j low high. elim (ℕ_discrete i j) [
        | yes here ↦ rw (← here) (both _ _ e).0
        | no ne ↦ forth (both _ _ e).1 j (omega (arith, low, ne)) (omega (arith, high))
      ],
      λ all.
          rw
            (
              all i (omega arith) (omega arith),
              back (λ j low high. all j (omega (arith, low)) (omega (arith, high))),
            )
            refl,
    )
  where
    both : (a b : Bool) → (a && b) ≡ true → (a ≡ true) × (b ≡ true)
    both true b e = (refl, e)
    both false b e = cc e

-- A test that fails has a unit that is missing.
pub all_units-missing :
    (left i : ℕ) (map : List ℕ)
    → all_units left i map ≡ false
    → (j : ℕ) × (i ≤ j) × (j < i + left) × (fragmap_tst map j ≡ false)
unfolding all_units
all_units-missing zero i map e = cc e
all_units-missing (suc left) i map e = elim (Bool-cases (fragmap_tst map i)) [
  | inr out ↦ (i, omega arith, omega arith, out)
  | inl up ↦
      let later : all_units left (i + 1) map ≡ false =
        sym (ap (λ b. b && all_units left (i + 1) map) up) ∙ e in
      let (j, low, high, out) = all_units-missing left (i + 1) map later in
      (j, omega (arith, low), omega (arith, high), out)
]

get_or-replicate : (n i : ℕ) (rest : List ℕ) → i < n → get_or (replicate n 0 ++ rest) i 0 ≡ 0
get_or-replicate zero i rest low = absurd (omega (arith, low))
get_or-replicate (suc n) zero rest low = refl
get_or-replicate (suc n) (suc i) rest low = get_or-replicate n i rest (omega (arith, low))

-- The units that `fragmap_init` clears.
pub fragmap_tst-fragmap_init :
    (map : List ℕ) (j : ℕ) → j < 2048 → fragmap_tst (fragmap_init map) j ≡ false
unfolding fragmap_init
fragmap_tst-fragmap_init map j low =
    tst_mark (fragmap_init map) j
    ∙ ap not (
        same_test _ 0 (
          ap (digit (j % 32)) (get_or-replicate 64 (j / 32) (drop 64 map) (omega (arith, low)))
          ∙ digit-zero (j % 32)))
