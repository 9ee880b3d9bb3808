-- ===== src/Arp/Cache/Valid.antt =====
-- The cache of src/arp.c as a table: which slots the tree links, and what a lookup finds.
use mathlib.Core.Path.{subst}
use xstack_io.Prelude.{
  ℕ, zero, suc, ◌≡◌, ◌≢◌, ◌⊎◌, inl, inr, refl, sym, ap, ◌∙◌, List, [], ◌∷◌, Option, none, some,
  length, get_or, ℕ_discrete,
}
use xstack_io.Prelude.Int.{ℤ, pos, negsuc}
use xstack_io.Ether.{MacAddr}
use xstack_io.RbTree.{In}
use xstack_io.SlotTree.{SlotTree, SlotLaws}
use xstack_io.Arp.Cache.{
  ArpCacheEntry, ArpTable, zero_entry, xstack_arp_cache_size, arp_cache_cmp, keys,
  arp_cache_get_entry, dynamic, cached,
}
use xstack_io.Arp.Cache.Order.{Within}
use xstack_io.Arp.Cache.Scan.{At, IsAge}

-- The entry is in use.
abbrev pub IsLive : ArpCacheEntry → Type 0
IsLive x = x.age ≢ negsuc 1

pub get_or-At :
    (l : List ArpCacheEntry) (i : ℕ) (x : ArpCacheEntry) → At l i x → get_or l i zero_entry ≡ x
get_or-At [] i x e = cc
get_or-At (y ∷ l) zero x e = cc e
get_or-At (y ∷ l) (suc i) x e = get_or-At l i x e

pub keys-At : (l : List ArpCacheEntry) (i : ℕ) (x : ArpCacheEntry) → At l i x → keys l i ≡ x.ip_addr
keys-At l i x e = ap (λ y. y.ip_addr) (get_or-At l i x e)

pub At_unique : (l : List ArpCacheEntry) (i : ℕ) (x y : ArpCacheEntry) → At l i x → At l i y → x ≡ y
At_unique l i x y e e' = cc (e, e')

pub free_or_live : (a : ℤ) → (a ≡ negsuc 1) ⊎ (a ≢ negsuc 1)
free_or_live (pos n) = inr (λ e. cc e)
free_or_live (negsuc zero) = inr (λ e. absurd (cc e))
free_or_live (negsuc (suc zero)) = inl refl
free_or_live (negsuc (suc (suc n))) = inr (λ e. absurd (cc e))

-- An entry in use of an address, or that there is none.
pub search :
    (l : List ArpCacheEntry) (q : ℕ)
    → ((j : ℕ) × (x : ArpCacheEntry) × At l j x × IsLive x × (x.ip_addr ≡ q))
      ⊎ ((j : ℕ) (x : ArpCacheEntry) → At l j x → IsLive x → x.ip_addr ≢ q)
search [] q = inr (λ j x at. cc at)
search (y ∷ l) q = elim (search l q) [
  | inl (j, x, at, live, same) ↦ inl (suc j, x, at, live, same)
  | inr not_later ↦ elim (free_or_live y.age) [
    | inl is_free ↦ inr (beside not_later (λ live. absurd (live is_free)))
    | inr live ↦ elim (ℕ_discrete y.ip_addr q) [
      | yes same ↦ inl (0, y, refl, live, same)
      | no ne ↦ inr (beside not_later (λ _. ne))
    ]
  ]
]
  where
    beside :
        ((j : ℕ) (x : ArpCacheEntry) → At l j x → IsLive x → x.ip_addr ≢ q)
        → (IsLive y → y.ip_addr ≢ q)
        → (j : ℕ) (x : ArpCacheEntry) → At (y ∷ l) j x
        → IsLive x
        → x.ip_addr ≢ q
    beside later now zero x at =
        let e : y ≡ x = cc at in subst (λ z. IsLive z → z.ip_addr ≢ q) e now
    beside later now (suc j) x at = later j x at

module _ {S : Type 0} {slots : SlotTree S} {low : ℕ}
    (laws : SlotLaws slots (Within low) arp_cache_cmp) where
  -- The tree links exactly the entries in use, which have addresses, and no address is held twice.
  pub record IsValid (s : ArpTable S) : Type 0 where
    pub size : length s.arp_cache ≡ xstack_arp_cache_size
    pub ages : (j : ℕ) (x : ArpCacheEntry) → At s.arp_cache j x → IsAge x.age
    pub fits : laws.Fits (keys s.arp_cache) s.arp_cache_head
    pub linked :
        (j : ℕ)
        → In j (slots.to_list s.arp_cache_head)
        → (x : ArpCacheEntry) × At s.arp_cache j x × IsLive x
    pub live :
        (j : ℕ) (x : ArpCacheEntry)
        → At s.arp_cache j x
        → IsLive x
        → In j (slots.to_list s.arp_cache_head)
    pub addressed : (j : ℕ) (x : ArpCacheEntry) → At s.arp_cache j x → IsLive x → x.ip_addr ≢ 0
    pub distinct :
        (i j : ℕ) (x y : ArpCacheEntry)
        → At s.arp_cache i x
        → At s.arp_cache j y
        → x.ip_addr ≢ 0
        → x.ip_addr ≡ y.ip_addr
        → i ≡ j

  module _ (s : ArpTable S) (ok : IsValid s) where
    -- An entry in use is found under its address.
    pub get_entry_live :
        (j : ℕ) (x : ArpCacheEntry)
        → At s.arp_cache j x
        → IsLive x
        → arp_cache_get_entry slots x.ip_addr s ≡ some j
    unfolding arp_cache_get_entry
    get_entry_live j x at is =
        ap (λ k. slots.find arp_cache_cmp (keys s.arp_cache) k s.arp_cache_head)
          (sym (keys-At s.arp_cache j x at))
        ∙ laws.find_in (keys s.arp_cache) j s.arp_cache_head ok.fits (ok.live j x at is)

    pub get_entry_missing :
        (q : ℕ)
        → Within low q
        → ((j : ℕ) (x : ArpCacheEntry) → At s.arp_cache j x → IsLive x → x.ip_addr ≢ q)
        → arp_cache_get_entry slots q s ≡ none
    unfolding arp_cache_get_entry
    get_entry_missing q within no_entry =
        laws.find_out (keys s.arp_cache) q s.arp_cache_head ok.fits within (λ j m e.
          let (x, at, is) = ok.linked j m in
          no_entry j x at is (sym (keys-At s.arp_cache j x at) ∙ e))

    pub cached_live :
        (j : ℕ) (x : ArpCacheEntry)
        → At s.arp_cache j x
        → IsLive x
        → cached slots x.ip_addr s ≡ dynamic x
    unfolding cached
    cached_live j x at is =
        ap known (get_entry_live j x at is) ∙ ap dynamic (get_or-At s.arp_cache j x at)
      where
        known : Option ℕ → Option MacAddr
        known none = none
        known (some i) = dynamic (get_or s.arp_cache i zero_entry)

    pub cached_missing :
        (q : ℕ)
        → Within low q
        → ((j : ℕ) (x : ArpCacheEntry) → At s.arp_cache j x → IsLive x → x.ip_addr ≢ q)
        → cached slots q s ≡ none
    unfolding cached
    cached_missing q within no_entry = rw (cached, get_entry_missing q within no_entry) refl
