-- ===== src/Arp/Cache/Tests.antt =====
-- Tests of the cache of src/arp.c and the witnesses of its theorems.
use mathlib.Core.Path.{subst}
use xstack_io.Prelude.{
  ℕ, zero, suc, sym, ap, ◌∙◌, ◌≡◌, ◌≢◌, ◌⊎◌, inl, refl, arith, List, [], ◌∷◌, none, some, replicate,
  set, ◌+◌, ℕ_discrete,
}
use xstack_io.Prelude.Int.{pos, negsuc}
use xstack_io.SlotTree.Slots.{slots, slots-IsSlotTree}
use xstack_io.Arp.Cache.{
  ArpCacheEntry, ArpTable, zero_entry, arp_cache_dyn, cache_init, arp_cache_cmp, find_slot,
  arp_cache_insert, arp_cache_get_entry, arp_cache_remove, cached, arp_cache_update,
}
use xstack_io.Arp.Cache.Order.{Within}
use xstack_io.Arp.Cache.Scan.{At, IsAge, Choice}
use xstack_io.Arp.Cache.Victim.{find_slot_lem}
use xstack_io.Arp.Cache.Valid.{IsLive, IsValid}
use xstack_io.Arp.Cache.Lookup.{arp_laws, Learnt, arp_cache_insert_lem}
use xstack_io.Arp.Cache.Remove.{Removed, arp_cache_remove_lem}
use xstack_io.Arp.Cache.Ageing.{aged, arp_cache_lifetime}
use xstack_io.Arp.Cache.Start.{free_entry, free-IsValid}

abbrev net : ℕ
net = 0x0a000000

abbrev peer : ℕ
peer = 0x0a000007

abbrev mac : List ℕ
mac = 2 ∷ 0 ∷ 0 ∷ 0 ∷ 0 ∷ 7 ∷ []

abbrev entry_of : ℕ → List ℕ → ArpCacheEntry
entry_of ip_addr haddr = record { ip_addr = ip_addr; haddr = haddr; age = pos 0 }

abbrev first : ArpTable (List ℕ)
first = record {
  arp_cache = set (replicate 50 zero_entry) 0 (entry_of peer mac);
  arp_cache_head = 0 ∷ [];
}

-- The first call takes a zeroed entry, which the tree does not link, and the second one, for another
-- address, takes the entry of the first.
forgets :
    (arp_cache_insert slots peer mac arp_cache_dyn 0 (cache_init slots) ≡ (pos 0, 0, first))
    × (arp_cache_insert slots (peer + 1) mac arp_cache_dyn 0 first ≡ (
      pos 0,
      0,
      record first { arp_cache = set (replicate 50 zero_entry) 0 (entry_of (peer + 1) mac) },
    ))
unfolding arp_cache_insert ℕ_discrete
forgets = (refl, refl)

-- 10.0.0.0 < 100.0.0.0 < 192.0.0.0 < 10.0.0.0
cycle_of_three :
    (arp_cache_cmp 0x0a000000 0x64000000 ≡ negsuc 0x59ffffff)
    × (arp_cache_cmp 0x64000000 0xc0000000 ≡ negsuc 0x5bffffff)
    × (arp_cache_cmp 0xc0000000 0x0a000000 ≡ negsuc 0x49ffffff)
unfolding arp_cache_cmp
cycle_of_three = (refl, refl, refl)

abbrev entry : ℕ → ℕ → ArpCacheEntry
entry ip_addr n = record zero_entry { ip_addr = ip_addr; age = pos n }

abbrev static : ArpCacheEntry
static = record zero_entry { ip_addr = 1; age = negsuc 0 }

abbrev three : List ArpCacheEntry
three = static ∷ entry 2 9 ∷ entry 3 4 ∷ []

aged_at : (x y : ArpCacheEntry) → IsAge x.age → some x ≡ some y → IsAge y.age
aged_at x y ok e = let same : x ≡ y = cc e in subst (λ z. IsAge z.age) same ok

three-IsAge : (j : ℕ) (x : ArpCacheEntry) → At three j x → IsAge x.age
three-IsAge zero x at = aged_at static x (omega arith) at
three-IsAge (suc zero) x at = aged_at (entry 2 9) x (omega arith) at
three-IsAge (suc (suc zero)) x at = aged_at (entry 3 4) x (omega arith) at
three-IsAge (suc (suc (suc j))) x at = cc at

-- The youngest dynamic entry is given up.
gives_up_youngest : find_slot 5 0 three none ≡ some (2, entry 3 4)
unfolding find_slot
gives_up_youngest = refl

find_slot_lem_example : Choice 5 three (find_slot 5 0 three none)
find_slot_lem_example = find_slot_lem 5 three three-IsAge

abbrev free_table : ArpTable (List ℕ)
free_table = record { arp_cache = replicate 50 free_entry; arp_cache_head = [] }

free_table-IsValid : IsValid (arp_laws slots-IsSlotTree net) free_table
free_table-IsValid = free-IsValid slots-IsSlotTree net

within : Within net peer
within = (omega arith, omega arith, omega arith)

arp_cache_insert_lem_example :
    Learnt
      (arp_laws slots-IsSlotTree net)
      free_table
      peer
      mac
      arp_cache_dyn
      0
      (arp_cache_insert slots peer mac arp_cache_dyn 0 free_table)
arp_cache_insert_lem_example =
    arp_cache_insert_lem slots-IsSlotTree net free_table peer mac arp_cache_dyn 0 free_table-IsValid
      (λ e. omega arith) within (λ e. absurd (cc e)) (49, free_entry, refl, inl refl)

abbrev one : ArpTable (List ℕ)
one = record {
  arp_cache = set (replicate 50 free_entry) 49 (entry_of peer mac);
  arp_cache_head = 49 ∷ [];
}

one_inserted : arp_cache_insert slots peer mac arp_cache_dyn 0 free_table ≡ (pos 0, 0, one)
unfolding arp_cache_insert
one_inserted = refl

one-IsValid : IsValid (arp_laws slots-IsSlotTree net) one
one-IsValid =
    let (s', e, valid, _, _) =
      arp_cache_insert_lem slots-IsSlotTree net free_table peer mac arp_cache_dyn 0
        free_table-IsValid (λ z. omega arith) within (λ z. absurd (cc z))
        (49, free_entry, refl, inl refl) in
    subst (IsValid (arp_laws slots-IsSlotTree net)) (ap (λ r. r.2) (sym e ∙ one_inserted)) valid

arp_cache_remove_lem_example :
    (((i : ℕ) × (e : ArpCacheEntry) × At one.arp_cache i e × IsLive e × (e.ip_addr ≡ peer))
      × Removed (arp_laws slots-IsSlotTree net) one peer (arp_cache_remove slots peer one))
    ⊎ (((i : ℕ) (e : ArpCacheEntry) → At one.arp_cache i e → IsLive e → e.ip_addr ≢ peer)
        × (arp_cache_remove slots peer one ≡ none))
arp_cache_remove_lem_example = arp_cache_remove_lem slots-IsSlotTree net one peer one-IsValid within

-- Nothing to remove.
remove_fault : arp_cache_remove slots peer free_table ≡ none
unfolding arp_cache_remove
remove_fault = refl

peer_found : arp_cache_get_entry slots peer one ≡ some 49
unfolding arp_cache_get_entry
peer_found = refl

arp_cache_lifetime_example :
    (cached slots peer (aged (30000 ∷ 42000 ∷ []) one) ≡ some mac)
    × (cached slots peer (arp_cache_update (pos 1) (aged (30000 ∷ 42000 ∷ []) one)) ≡ some mac)
    × (cached slots peer
          (arp_cache_update (pos 1) (arp_cache_update (pos 1) (aged (30000 ∷ 42000 ∷ []) one)))
        ≡ none)
arp_cache_lifetime_example =
    arp_cache_lifetime slots peer 49 0 (entry_of peer mac) one (30000 ∷ 42000 ∷ []) 1 1 peer_found
      refl refl (omega arith) (omega arith)
