-- ===== src/Arp/Cache/Victim.antt =====
-- Which entry the loop of `arp_cache_insert` chooses.
use mathlib.Core.Path.{subst}
use xstack_io.Prelude.{
  ℕ, zero, suc, ◌+◌, ◌≤◌, ◌<◌, ◌≡◌, ◌≢◌, ◌⊎◌, inl, inr, refl, sym, ap, ◌∙◌, arith, List, [], ◌∷◌,
  ◌++◌, Option, none, some, length, length-append, append_assoc, append-nil, ltb→lt, lt→ltb, true,
  false, Bool-cases, ℕ_discrete, same_test, differ_test,
}
use xstack_io.Prelude.Int.{ℤ, pos, negsuc, ◌≤ℤ◌, ltb_ℤ, is_neg, pos_part, neg_part}
use xstack_io.Arp.Cache.{ArpCacheEntry, find_slot}
use xstack_io.Arp.Cache.Scan.{
  At, IsAge, Best, full, last_free, youngest, Choice, held, absent, get_elem?-bound, get_elem?-old,
  get_elem?-new, get_elem?-before, each_snoc, next, next_free, next-none, next-some,
}

static_lem : (a : ℤ) → IsAge a → a ≢ negsuc 1 → is_neg a ≡ true → a ≡ negsuc 0
static_lem (pos n) ok ne e = cc
static_lem (negsuc zero) ok ne e = refl
static_lem (negsuc (suc zero)) ok ne e = absurd (ne refl)
static_lem (negsuc (suc (suc n))) ok ne e = absurd (omega arith)

less→lt : (a b : ℤ) → ltb_ℤ a b ≡ true → pos_part a + neg_part b < pos_part b + neg_part a
less→lt a b h = ltb→lt (pos_part a + neg_part b) (pos_part b + neg_part a) h

lt→less : (a b : ℤ) → pos_part a + neg_part b < pos_part b + neg_part a → ltb_ℤ a b ≡ true
lt→less a b h = lt→ltb (pos_part a + neg_part b) (pos_part b + neg_part a) h

not_less→le : (a b : ℤ) → ltb_ℤ a b ≡ false → b ≤ℤ a
not_less→le a b h = ground arith

le→not_less : (a b : ℤ) → b ≤ℤ a → ltb_ℤ a b ≡ false
le→not_less a b h = ground arith

module _ (done : List ArpCacheEntry) (it : ArpCacheEntry) where
  -- The array so far, with one more entry.
  abbrev more : List ArpCacheEntry
  more = done ++ it ∷ []

  -- What holds of all entries so far and of one more.
  each :
      (Q : ℕ → ArpCacheEntry → Type 0)
      → ((j : ℕ) (x : ArpCacheEntry) → At done j x → Q j x)
      → Q (length done) it
      → (j : ℕ) (x : ArpCacheEntry) → At more j x
      → Q j x
  each = each_snoc done it

  step_free :
      (acc : Option (ℕ × ArpCacheEntry)) → it.age ≡ negsuc 1 → Best more (next acc (length done) it)
  step_free acc e = subst (Best more) (sym (next_free acc (length done) it e)) (
      last_free (length done) it (get_elem?-new done it []) e (
        each (λ j x. length done < j → x.age ≢ negsuc 1)
          (λ j x at h. let b = get_elem?-bound done j x at in absurd (omega arith))
          (λ h. absurd (omega arith))))

  module _ (ok : IsAge it.age) (ne : it.age ≢ negsuc 1) where
    step_full :
        ((j : ℕ) (x : ArpCacheEntry) → At done j x → x.age ≡ negsuc 0)
        → Best more (next none (length done) it)
    step_full old = elim (Bool-cases (is_neg it.age)) [
      | inl e ↦
          subst (Best more) (sym (next-none (length done) it true ok ne e))
            (full (each (λ j x. x.age ≡ negsuc 0) old (static_lem it.age ok ne e)))
      | inr e ↦ subst (Best more) (sym (next-none (length done) it false ok ne e)) (
          youngest (length done) it (length done) it (get_elem?-new done it [])
            (get_elem?-new done it []) e (omega arith)
            (each (λ j x. j < length done → x.age ≡ negsuc 0) (λ j x at h. old j x at)
              (λ h. absurd (omega arith)))
            (each (λ j x. length done ≤ j → it.age ≤ℤ x.age)
              (λ j x at h. let b = get_elem?-bound done j x at in absurd (omega arith))
              (λ h. omega arith))
            (λ j x at h h'. absurd (omega arith))
            (each (λ j x. x.age ≢ negsuc 1) (λ j x at e'. cc (old j x at, e')) ne))
    ]

    step_last_free :
        (i : ℕ) (e : ArpCacheEntry)
        → At done i e
        → e.age ≡ negsuc 1
        → ((j : ℕ) (x : ArpCacheEntry) → At done j x → i < j → x.age ≢ negsuc 1)
        → Best more (next (some (i, e)) (length done) it)
    step_last_free i e at is_free old =
        subst (Best more) (sym (next-some i e (length done) it false ok ne (floor is_free))) (
          last_free i e (get_elem?-old done it i e at) is_free
            (each (λ j x. i < j → x.age ≢ negsuc 1) old (λ h. ne)))
      where
        floor : e.age ≡ negsuc 1 → ltb_ℤ it.age e.age ≡ false
        floor is = ap (λ a. ltb_ℤ it.age a) is ∙ le→not_less it.age (negsuc 1) ok

    step_youngest :
        (i : ℕ) (e : ArpCacheEntry) (p : ℕ) (first : ArpCacheEntry)
        → At done i e
        → At done p first
        → is_neg first.age ≡ false
        → p ≤ i
        → ((j : ℕ) (x : ArpCacheEntry) → At done j x → j < p → x.age ≡ negsuc 0)
        → ((j : ℕ) (x : ArpCacheEntry) → At done j x → p ≤ j → e.age ≤ℤ x.age)
        → ((j : ℕ) (x : ArpCacheEntry) → At done j x → p ≤ j → j < i → ltb_ℤ e.age x.age ≡ true)
        → ((j : ℕ) (x : ArpCacheEntry) → At done j x → x.age ≢ negsuc 1)
        → Best more (next (some (i, e)) (length done) it)
    step_youngest i e p first at at_p dynamic order static least strict no_free =
        let b = get_elem?-bound done i e at in
        elim (Bool-cases (ltb_ℤ it.age e.age)) [
          | inl less ↦ subst (Best more) (sym (next-some i e (length done) it true ok ne less)) (
              youngest (length done) it p first (get_elem?-new done it [])
                (get_elem?-old done it p first at_p) dynamic (omega arith)
                (each (λ j x. j < p → x.age ≡ negsuc 0) static (λ h. absurd (omega arith)))
                (each (λ j x. p ≤ j → it.age ≤ℤ x.age)
                  (λ j x at' h.
                    let l = less→lt it.age e.age less in let m = least j x at' h in omega arith)
                  (λ h. omega arith))
                (each (λ j x. p ≤ j → j < length done → ltb_ℤ it.age x.age ≡ true)
                  (λ j x at' h h'.
                    let l = less→lt it.age e.age less in
                    let m = least j x at' h in lt→less it.age x.age (omega arith))
                  (λ h h'. absurd (omega arith)))
                (each (λ j x. x.age ≢ negsuc 1) no_free ne))
          | inr not_less ↦
              subst (Best more) (sym (next-some i e (length done) it false ok ne not_less)) (
                youngest i e p first (get_elem?-old done it i e at)
                  (get_elem?-old done it p first at_p) dynamic order
                  (each (λ j x. j < p → x.age ≡ negsuc 0) static (λ h. absurd (omega arith)))
                  (each (λ j x. p ≤ j → e.age ≤ℤ x.age) least
                    (λ h. not_less→le it.age e.age not_less))
                  (each (λ j x. p ≤ j → j < i → ltb_ℤ e.age x.age ≡ true) strict
                    (λ h h'. absurd (omega arith)))
                  (each (λ j x. x.age ≢ negsuc 1) no_free ne))
        ]

step :
    (done : List ArpCacheEntry) (it : ArpCacheEntry) (acc : Option (ℕ × ArpCacheEntry))
    → IsAge it.age
    → Best done acc
    → Best (done ++ it ∷ []) (next acc (length done) it)
step done it acc ok best = elim (age_cases it.age) [
  | inl e ↦ step_free done it acc e
  | inr ne ↦ go acc ne best
]
  where
    age_cases : (a : ℤ) → (a ≡ negsuc 1) ⊎ (a ≢ negsuc 1)
    age_cases (pos n) = inr (λ e. cc e)
    age_cases (negsuc zero) = inr (λ e. absurd (cc e))
    age_cases (negsuc (suc zero)) = inl refl
    age_cases (negsuc (suc (suc n))) = inr (λ e. absurd (cc e))

    go :
        (o : Option (ℕ × ArpCacheEntry))
        → it.age ≢ negsuc 1
        → Best done o
        → Best (done ++ it ∷ []) (next o (length done) it)
    go none ne (full old) = step_full done it ok ne old
    go (some (i, e)) ne (last_free _ _ at is_free old) =
        step_last_free done it ok ne i e at is_free old
    go (some (i, e)) ne (youngest _ _ p first at at_p dynamic order static least strict no_free) =
        step_youngest done it ok ne i e p first at at_p dynamic order static least strict no_free

chosen :
    (ip_addr : ℕ) (done rest : List ArpCacheEntry) (acc : Option (ℕ × ArpCacheEntry))
    → Best done acc
    → ((j : ℕ) (x : ArpCacheEntry) → At done j x → x.ip_addr ≢ ip_addr)
    → ((j : ℕ) (x : ArpCacheEntry) → At rest j x → IsAge x.age)
    → Choice ip_addr (done ++ rest) (find_slot ip_addr (length done) rest acc)
unfolding find_slot
chosen ip_addr done [] acc best none_yet ages =
    subst (λ l. Choice ip_addr l acc) (sym (append-nil done)) (absent acc none_yet best)
chosen ip_addr done (it ∷ its) acc best none_yet ages = elim (ℕ_discrete it.ip_addr ip_addr) [
  | yes same ↦ rw (same_test it.ip_addr ip_addr same) (
      held (length done) it (get_elem?-new done it its) same
        (λ j x at h. none_yet j x (get_elem?-before done (it ∷ its) j x at h)))
  | no ne ↦ rw (differ_test it.ip_addr ip_addr ne) (
      subst
        (λ l.
          Choice ip_addr l (find_slot ip_addr (suc (length done)) its (next acc (length done) it)))
        (append_assoc done (it ∷ []) its)
        (subst
          (λ n.
            Choice ip_addr ((done ++ it ∷ []) ++ its)
              (find_slot ip_addr n its (next acc (length done) it)))
          (length-append done (it ∷ []) ∙ omega arith)
          (chosen ip_addr (done ++ it ∷ []) its (next acc (length done) it)
            (step done it acc (ages 0 it refl) best)
            (each_snoc done it (λ j x. x.ip_addr ≢ ip_addr) none_yet ne) (λ j. ages (suc j)))))
]

-- Let no age be below that of a free entry. `arp_cache_insert` takes the first entry that holds the
-- address already. If there is none, it takes the last free entry; if none is free, the first of
-- those with the lowest age among the entries from the first dynamic one on, static ones included;
-- and it finds nothing exactly when all entries are static.
pub find_slot_lem :
    (ip_addr : ℕ) (entries : List ArpCacheEntry)
    → ((j : ℕ) (x : ArpCacheEntry) → At entries j x → IsAge x.age)
    → Choice ip_addr entries (find_slot ip_addr 0 entries none)
find_slot_lem ip_addr entries ages =
    chosen ip_addr [] entries none (full (λ j x at. cc at)) (λ j x at. cc at) ages
