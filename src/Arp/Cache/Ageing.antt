-- ===== src/Arp/Cache/Ageing.antt =====
-- `arp_cache_update` of src/arp.c: how long an entry is found.
use xstack_io.Prelude.{
  ℕ, zero, suc, ◌+◌, ◌*◌, ◌≤◌, ◌<◌, ◌≡◌, refl, ap, ap₂, ◌∙◌, arith, List, [], ◌∷◌, Option, none,
  some, get_or, map, fun_ext, Bool, true, false, if◌then◌else◌, ltb, ltb-false, lt→ltb,
}
use xstack_io.Prelude.Int.{ℤ, pos, negsuc, ◌+ℤ◌, is_neg, ltb_ℤ}
use xstack_io.Ether.{MacAddr}
use xstack_io.SlotTree.{SlotTree}
use xstack_io.Arp.Cache.{
  ArpCacheEntry, ArpTable, zero_entry, arp_cache_cmp, keys, arp_cache_get_entry, dynamic, cached,
  older, arp_cache_update, arp_cache_age_max,
}
use xstack_io.Arp.Cache.Scan.{At}
use xstack_io.Arp.Cache.Valid.{get_or-At}

-- The periodic task, run once for each delay.
abbrev pub aged : {S : Type 0} → List ℕ → ArpTable S → ArpTable S
aged [] s = s
aged (d ∷ ds) s = aged ds (arp_cache_update (pos d) s)

abbrev pub total : List ℕ → ℕ
total [] = 0
total (d ∷ ds) = d + total ds

older-ip_addr : (d : ℤ) (e : ArpCacheEntry) → (older d e).ip_addr ≡ e.ip_addr
older-ip_addr d e = outer (ltb_ℤ arp_cache_age_max e.age) (is_neg e.age)
  where
    outer :
        (b c : Bool)
        → (if b
            then record e { age = negsuc 1 }
            else if c
            then e
            else record e { age = e.age +ℤ d }).ip_addr
          ≡ e.ip_addr
    outer true c = refl
    outer false true = refl
    outer false false = refl

keys-older : (d : ℤ) (l : List ArpCacheEntry) (i : ℕ) → keys (map (older d) l) i ≡ keys l i
keys-older d [] i = refl
keys-older d (e ∷ l) zero = older-ip_addr d e
keys-older d (e ∷ l) (suc i) = keys-older d l i

At-older :
    (d : ℤ) (l : List ArpCacheEntry) (i : ℕ) (e : ArpCacheEntry)
    → At l i e
    → At (map (older d) l) i (older d e)
At-older d [] i e at = cc at
At-older d (x ∷ l) zero e at = let same : x ≡ e = cc at in ap (λ y. some (older d y)) same
At-older d (x ∷ l) (suc i) e at = At-older d l i e at

add_lem : (a d : ℕ) → pos a +ℤ pos d ≡ pos (a + d)
unfolding ◌+ℤ◌
add_lem a d = ground arith

-- One step of an entry, by its age.
older_dynamic :
    (d a : ℕ) (e : ArpCacheEntry)
    → e.age ≡ pos a
    → older (pos d) e
      ≡ (if ltb 72000 a then record e { age = negsuc 1 } else record e { age = pos (a + d) })
older_dynamic d a e age =
    ap by_age age
    ∙ ap₂ (λ n m. if ltb 72000 n then record e { age = negsuc 1 } else record e { age = m })
        (omega arith) (add_lem a d)
  where
    by_age : ℤ → ArpCacheEntry
    by_age z =
        if ltb_ℤ arp_cache_age_max z
        then record e { age = negsuc 1 }
        else if is_neg z
        then e
        else record e { age = z +ℤ pos d }

pub older_young :
    (d a : ℕ) (e : ArpCacheEntry)
    → e.age ≡ pos a
    → a ≤ 72000
    → older (pos d) e ≡ record e { age = pos (a + d) }
older_young d a e age young =
    older_dynamic d a e age
    ∙ ap (λ b. if b then record e { age = negsuc 1 } else record e { age = pos (a + d) })
        (ltb-false 72000 a young)

pub older_old :
    (d a : ℕ) (e : ArpCacheEntry)
    → e.age ≡ pos a
    → 72000 < a
    → older (pos d) e ≡ record e { age = negsuc 1 }
older_old d a e age old =
    older_dynamic d a e age
    ∙ ap (λ b. if b then record e { age = negsuc 1 } else record e { age = pos (a + d) })
        (lt→ltb 72000 a old)

module _ {S : Type 0} (slots : SlotTree S) where
  -- Ageing moves nothing in the tree.
  get_entry-update :
      (d : ℤ) (q : ℕ) (s : ArpTable S)
      → arp_cache_get_entry slots q (arp_cache_update d s) ≡ arp_cache_get_entry slots q s
  unfolding arp_cache_get_entry arp_cache_update
  get_entry-update d q s =
      ap (λ k. slots.find arp_cache_cmp k q s.arp_cache_head)
        (fun_ext (λ i. keys-older d s.arp_cache i))

  get_entry-aged :
      (ds : List ℕ) (q : ℕ) (s : ArpTable S)
      → arp_cache_get_entry slots q (aged ds s) ≡ arp_cache_get_entry slots q s
  get_entry-aged [] q s = refl
  get_entry-aged (d ∷ ds) q s =
      get_entry-aged ds q (arp_cache_update (pos d) s) ∙ get_entry-update (pos d) q s

  At-update :
      (d : ℕ) (j : ℕ) (e e' : ArpCacheEntry) (s : ArpTable S)
      → At s.arp_cache j e
      → older (pos d) e ≡ e'
      → At (arp_cache_update (pos d) s).arp_cache j e'
  unfolding arp_cache_update
  At-update d j e e' s at same = At-older (pos d) s.arp_cache j e at ∙ ap some same

  At-aged :
      (ds : List ℕ) (j a : ℕ) (e : ArpCacheEntry) (s : ArpTable S)
      → At s.arp_cache j e
      → e.age ≡ pos a
      → a + total ds ≤ 72000
      → At (aged ds s).arp_cache j (record e { age = pos (a + total ds) })
  At-aged [] j a e s at age young =
      at ∙ ap (λ z. some (record e { age = z })) (age ∙ ap pos (omega arith))
  At-aged (d ∷ ds) j a e s at age young =
      At-aged ds j (a + d) (record e { age = pos (a + d) }) (arp_cache_update (pos d) s)
        (At-update d j e (record e { age = pos (a + d) }) s at
          (older_young d a e age (omega arith)))
        refl (omega arith)
      ∙ ap (λ n. some (record e { age = pos n })) (omega arith)

  cached-At :
      (q j : ℕ) (e : ArpCacheEntry) (s : ArpTable S)
      → arp_cache_get_entry slots q s ≡ some j
      → At s.arp_cache j e
      → cached slots q s ≡ dynamic e
  unfolding cached
  cached-At q j e s found at = ap known found ∙ ap dynamic (get_or-At s.arp_cache j e at)
    where
      known : Option ℕ → Option MacAddr
      known none = none
      known (some i) = dynamic (get_or s.arp_cache i zero_entry)

  -- Let the tree find a dynamic entry under an address. While the time that the periodic task has
  -- counted since does not bring its age above ARP_CACHE_AGE_MAX, the lookup returns its hardware
  -- address, as it does after the run that brings the age above it; the run after that ends it, and
  -- the lookup returns nothing.
  pub arp_cache_lifetime :
      (q j a : ℕ) (e : ArpCacheEntry) (s : ArpTable S) (ds : List ℕ) (d d' : ℕ)
      → arp_cache_get_entry slots q s ≡ some j
      → At s.arp_cache j e
      → e.age ≡ pos a
      → a + total ds ≤ 20 * 60 * 60
      → 20 * 60 * 60 < a + total ds + d
      → (cached slots q (aged ds s) ≡ some e.haddr)
        × (cached slots q (arp_cache_update (pos d) (aged ds s)) ≡ some e.haddr)
        × (cached slots q (arp_cache_update (pos d') (arp_cache_update (pos d) (aged ds s))) ≡ none)
  arp_cache_lifetime q j a e s ds d d' found at age young old = (
    cached-At q j e1 s1 (get_entry-aged ds q s ∙ found) at1,
    cached-At q j e2 s2 found2 at2,
    cached-At q j (record e2 { age = negsuc 1 }) (arp_cache_update (pos d') s2)
        (get_entry-update (pos d') q s2 ∙ found2)
        (At-update d' j e2 (record e2 { age = negsuc 1 }) s2 at2
          (older_old d' (a + total ds + d) e2 refl old)),
  )
    where
      e1 : ArpCacheEntry
      e1 = record e { age = pos (a + total ds) }

      s1 : ArpTable S
      s1 = aged ds s

      at1 : At s1.arp_cache j e1
      at1 = At-aged ds j a e s at age young

      e2 : ArpCacheEntry
      e2 = record e { age = pos (a + total ds + d) }

      s2 : ArpTable S
      s2 = arp_cache_update (pos d) s1

      at2 : At s2.arp_cache j e2
      at2 = At-update d j e1 e2 s1 at1 (older_young d (a + total ds) e1 refl young)

      found2 : arp_cache_get_entry slots q s2 ≡ some j
      found2 = get_entry-update (pos d) q s1 ∙ get_entry-aged ds q s ∙ found
