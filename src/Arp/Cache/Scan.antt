-- ===== src/Arp/Cache/Scan.antt =====
-- What the loop of `arp_cache_insert` may choose, and the test of its body.
use mathlib.Core.Path.{subst}
use xstack_io.Prelude.{
  ℕ, zero, suc, ◌≤◌, ◌<◌, ◌≡◌, ◌≢◌, refl, ap, ◌∙◌, arith, List, [], ◌∷◌, ◌++◌, Option, none, some,
  length, get_elem?, Bool, true, false, ◌||◌, not, if◌then◌else◌,
}
use xstack_io.Prelude.Int.{ℤ, pos, negsuc, ◌≤ℤ◌, ltb_ℤ, eqb_ℤ, is_neg}
use xstack_io.Arp.Cache.{ArpCacheEntry, candidate}

-- The array holds the entry `e` at `i`.
abbrev pub At : List ArpCacheEntry → ℕ → ArpCacheEntry → Type 0
At entries i e = get_elem? entries i ≡ some e

-- An age that an entry can have: free, static or dynamic.
abbrev pub IsAge : ℤ → Type 0
IsAge age = negsuc 1 ≤ℤ age

-- What may be given up for an address that the array does not hold: the last free entry; or, if
-- there is none, the first of the youngest, a static entry being younger than all, from the first
-- dynamic entry on; or nothing, if all are static.
pub data Best (entries : List ArpCacheEntry) : Option (ℕ × ArpCacheEntry) → Type 0 where
  full : ((j : ℕ) (x : ArpCacheEntry) → At entries j x → x.age ≡ negsuc 0) → Best entries none
  last_free :
      (i : ℕ) (e : ArpCacheEntry)
      → At entries i e
      → e.age ≡ negsuc 1
      → ((j : ℕ) (x : ArpCacheEntry) → At entries j x → i < j → x.age ≢ negsuc 1)
      → Best entries (some (i, e))
  youngest :
      (i : ℕ) (e : ArpCacheEntry) (p : ℕ) (first : ArpCacheEntry)
      → At entries i e
      → At entries p first
      → is_neg first.age ≡ false
      → p ≤ i
      → ((j : ℕ) (x : ArpCacheEntry) → At entries j x → j < p → x.age ≡ negsuc 0)
      → ((j : ℕ) (x : ArpCacheEntry) → At entries j x → p ≤ j → e.age ≤ℤ x.age)
      → ((j : ℕ) (x : ArpCacheEntry) → At entries j x → p ≤ j → j < i → ltb_ℤ e.age x.age ≡ true)
      → ((j : ℕ) (x : ArpCacheEntry) → At entries j x → x.age ≢ negsuc 1)
      → Best entries (some (i, e))

-- The entry of the address, or what may be given up.
pub data Choice (ip_addr : ℕ) (entries : List ArpCacheEntry)
    : Option (ℕ × ArpCacheEntry) → Type 0 where
  held :
      (i : ℕ) (e : ArpCacheEntry)
      → At entries i e
      → e.ip_addr ≡ ip_addr
      → ((j : ℕ) (x : ArpCacheEntry) → At entries j x → j < i → x.ip_addr ≢ ip_addr)
      → Choice ip_addr entries (some (i, e))
  absent :
      (o : Option (ℕ × ArpCacheEntry))
      → ((j : ℕ) (x : ArpCacheEntry) → At entries j x → x.ip_addr ≢ ip_addr)
      → Best entries o
      → Choice ip_addr entries o

module _ {ℓ} {A : Type ℓ} where
  pub get_elem?-bound : (l : List A) (j : ℕ) (x : A) → get_elem? l j ≡ some x → j < length l
  get_elem?-bound [] j x e = cc
  get_elem?-bound (y ∷ l) zero x e = omega arith
  get_elem?-bound (y ∷ l) (suc j) x e = let b = get_elem?-bound l j x e in omega arith

  pub get_elem?-old :
      (l : List A) (y : A) (j : ℕ) (x : A)
      → get_elem? l j ≡ some x
      → get_elem? (l ++ y ∷ []) j ≡ some x
  get_elem?-old [] y j x e = cc
  get_elem?-old (z ∷ l) y zero x e = e
  get_elem?-old (z ∷ l) y (suc j) x e = get_elem?-old l y j x e

  pub get_elem?-new : (l : List A) (y : A) (r : List A) → get_elem? (l ++ y ∷ r) (length l) ≡ some y
  get_elem?-new [] y r = refl
  get_elem?-new (z ∷ l) y r = get_elem?-new l y r

  pub get_elem?-before :
      (l r : List A) (j : ℕ) (x : A)
      → get_elem? (l ++ r) j ≡ some x
      → j < length l
      → get_elem? l j ≡ some x
  get_elem?-before [] r j x e h = absurd (omega arith)
  get_elem?-before (z ∷ l) r zero x e h = e
  get_elem?-before (z ∷ l) r (suc j) x e h = get_elem?-before l r j x e (omega arith)

  -- What holds of the elements and of one more.
  pub each_snoc :
      (l : List A) (y : A) (Q : ℕ → A → Type 0)
      → ((j : ℕ) (x : A) → get_elem? l j ≡ some x → Q j x)
      → Q (length l) y
      → (j : ℕ) (x : A) → get_elem? (l ++ y ∷ []) j ≡ some x
      → Q j x
  each_snoc [] y Q old new zero x e = let e' : y ≡ x = cc e in subst (Q 0) e' new
  each_snoc [] y Q old new (suc j) x e = cc
  each_snoc (z ∷ l) y Q old new zero x e = old 0 x e
  each_snoc (z ∷ l) y Q old new (suc j) x e =
      each_snoc l y (λ k. Q (suc k)) (λ k. old (suc k)) new j x e

abbrev pub next : Option (ℕ × ArpCacheEntry) → ℕ → ArpCacheEntry → Option (ℕ × ArpCacheEntry)
next entry i it = if candidate entry it then some (i, it) else entry

pub next_free :
    (acc : Option (ℕ × ArpCacheEntry)) (i : ℕ) (it : ArpCacheEntry)
    → it.age ≡ negsuc 1
    → next acc i it ≡ some (i, it)
next_free none i it e =
    ap (λ a. if eqb_ℤ a (negsuc 1) || not (is_neg a) then some (i, it) else none) e
next_free (some (k, x)) i it e =
    ap (λ a. if eqb_ℤ a (negsuc 1) || ltb_ℤ a x.age then some (i, it) else some (k, x)) e

other_age : (a : ℤ) → IsAge a → a ≢ negsuc 1 → eqb_ℤ a (negsuc 1) ≡ false
other_age (pos n) ok ne = ground arith
other_age (negsuc zero) ok ne = refl
other_age (negsuc (suc zero)) ok ne = absurd (ne refl)
other_age (negsuc (suc (suc n))) ok ne = absurd (omega arith)

pub next-none :
    (i : ℕ) (it : ArpCacheEntry) (b : Bool)
    → IsAge it.age
    → it.age ≢ negsuc 1
    → is_neg it.age ≡ b
    → next none i it ≡ (if b then none else some (i, it))
next-none i it b ok ne e =
    ap (λ t. if t || not (is_neg it.age) then some (i, it) else none) (other_age it.age ok ne)
    ∙ ap (λ t. if not t then some (i, it) else none) e
    ∙ turn b
  where
    turn :
        (t : Bool)
        → (if◌then◌else◌ {A = Option (ℕ × ArpCacheEntry)} (not t) (some (i, it)) none)
          ≡ (if t then none else some (i, it))
    turn true = refl
    turn false = refl

pub next-some :
    (k : ℕ) (x : ArpCacheEntry) (i : ℕ) (it : ArpCacheEntry) (b : Bool)
    → IsAge it.age
    → it.age ≢ negsuc 1
    → ltb_ℤ it.age x.age ≡ b
    → next (some (k, x)) i it ≡ (if b then some (i, it) else some (k, x))
next-some k x i it b ok ne e =
    ap (λ t. if t || ltb_ℤ it.age x.age then some (i, it) else some (k, x)) (other_age it.age ok ne)
    ∙ ap (λ t. if t then some (i, it) else some (k, x)) e
