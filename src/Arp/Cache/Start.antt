-- ===== src/Arp/Cache/Start.antt =====
-- The cache of src/arp.c after its zeroed entries have expired.
use mathlib.Core.Path.{subst}
use xstack_io.Prelude.{
  ℕ, zero, suc, ◌*◌, ◌<◌, ◌≡◌, refl, sym, ap, ◌∙◌, arith, List, ◌∷◌, map, replicate,
  length-replicate, some, get_elem?,
}
use xstack_io.Prelude.Int.{pos, negsuc}
use xstack_io.SlotTree.{SlotTree, IsSlotTree}
use xstack_io.Arp.Cache.{
  ArpCacheEntry, ArpTable, zero_entry, xstack_arp_cache_size, cache_init, older, arp_cache_update,
}
use xstack_io.Arp.Cache.Scan.{At, IsAge}
use xstack_io.Arp.Cache.Valid.{IsValid}
use xstack_io.Arp.Cache.Ageing.{older_young, older_old}
use xstack_io.Arp.Cache.Lookup.{arp_laws}

abbrev pub free_entry : ArpCacheEntry
free_entry = record zero_entry { age = negsuc 1 }

module _ {ℓ} {A : Type ℓ} where
  map-replicate :
      {B : Type ℓ} (f : A → B) (n : ℕ) (a : A) → map f (replicate n a) ≡ replicate n (f a)
  map-replicate f zero a = refl
  map-replicate f (suc n) a = ap (λ l. f a ∷ l) (map-replicate f n a)

  replicate_lem : (n j : ℕ) (a x : A) → get_elem? (replicate n a) j ≡ some x → a ≡ x
  replicate_lem zero j a x e = cc
  replicate_lem (suc n) zero a x e = cc e
  replicate_lem (suc n) (suc j) a x e = replicate_lem n j a x e

module _ {S : Type 0} {slots : SlotTree S} (promise : IsSlotTree slots) (low : ℕ) where
  abbrev pub all_free : List ArpCacheEntry → ArpTable S
  all_free entries = record { arp_cache = entries; arp_cache_head = slots.empty }

  each_free :
      (P : ArpCacheEntry → Type 0)
      → P free_entry
      → (j : ℕ) (x : ArpCacheEntry) → At (replicate xstack_arp_cache_size free_entry) j x
      → P x
  each_free P p j x at = subst P (replicate_lem xstack_arp_cache_size j free_entry x at) p

  pub free-IsValid :
      IsValid (arp_laws promise low) (all_free (replicate xstack_arp_cache_size free_entry))
  free-IsValid = record {
    size = length-replicate xstack_arp_cache_size free_entry;
    ages = each_free (λ x. IsAge x.age) (omega arith);
    fits = (arp_laws promise low).Fits-empty _;
    linked = λ j m. absurd ((arp_laws promise low).In-empty j m);
    live = λ j x at is. absurd (is (each_free (λ y. y.age ≡ negsuc 1) refl j x at));
    addressed = λ j x at is. absurd (is (each_free (λ y. y.age ≡ negsuc 1) refl j x at));
    distinct =
        λ i j x y at_i at_j ne same. absurd (ne (each_free (λ z. z.ip_addr ≡ 0) refl i x at_i));
  }

  -- Let the periodic task run twice on the cache as the program starts with it, the first time for
  -- more than ARP_CACHE_AGE_MAX. Then the cache is valid: the zeroed entries, which pass for dynamic
  -- ones that the tree does not link, are free.
  pub cache_init-update-IsValid :
      (d d' : ℕ)
      → 20 * 60 * 60 < d
      → IsValid
          (arp_laws promise low)
          (arp_cache_update (pos d') (arp_cache_update (pos d) (cache_init slots)))
  unfolding arp_cache_update
  cache_init-update-IsValid d d' long =
      subst (λ l. IsValid (arp_laws promise low) (all_free l)) (sym expired) free-IsValid
    where
      once :
          map (older (pos d)) (replicate xstack_arp_cache_size zero_entry)
          ≡ replicate xstack_arp_cache_size (record zero_entry { age = pos d })
      once =
          map-replicate (older (pos d)) xstack_arp_cache_size zero_entry
          ∙ ap (replicate xstack_arp_cache_size) (
              older_young d 0 zero_entry refl (omega arith)
              ∙ ap (λ n. record zero_entry { age = pos n }) (omega arith))

      expired :
          map (older (pos d')) (map (older (pos d)) (replicate xstack_arp_cache_size zero_entry))
          ≡ replicate xstack_arp_cache_size free_entry
      expired =
          ap (map (older (pos d'))) once
          ∙ map-replicate (older (pos d')) xstack_arp_cache_size (record zero_entry { age = pos d })
          ∙ ap (replicate xstack_arp_cache_size)
              (older_old d' d (record zero_entry { age = pos d }) refl long)
