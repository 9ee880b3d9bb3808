-- ===== src/Arp/Cache/Lookup.antt =====
-- `arp_cache_insert` and `arp_cache_get_haddr` of src/arp.c: what is learnt is found.
use mathlib.Core.Path.{subst}
use xstack_io.Prelude.{
  ℕ, ◌≡◌, ◌≢◌, ◌⊎◌, inl, inr, refl, sym, ap, ◌∙◌, List, Option, none, some, differ_test,
  if◌then◌else◌,
}
use xstack_io.Prelude.Int.{ℤ, pos, negsuc, is_neg}
use xstack_io.Ether.{MacAddr}
use xstack_io.Ether.Send.{EtherLinux, Wire, Sendto}
use xstack_io.RbTree.Ordered.{RbTrees}
use xstack_io.Route.{Rib}
use xstack_io.SlotTree.{SlotTree, SlotLaws, IsSlotTree}
use xstack_io.Arp.Cache.{
  ArpCacheEntry, ArpCacheEntryType, ArpTable, type_age, arp_cache_cmp, find_slot, replace_entry,
  arp_cache_insert, cached, ask, arp_cache_get_haddr,
}
use xstack_io.Arp.Cache.Order.{Within, arp_cache_cmp-IsOrder}
use xstack_io.Arp.Cache.Scan.{At, Choice, held, absent, full, last_free, youngest}
use xstack_io.Arp.Cache.Victim.{find_slot_lem}
use xstack_io.Arp.Cache.Valid.{IsValid, At_unique, search, cached_live, cached_missing}
use xstack_io.Arp.Cache.Insert.{
  replace_entry-IsValid, replace_entry-At, replace_entry-cases, replace_entry-other,
}

-- The laws of the cache's tree, for the addresses of half of the range.
abbrev pub arp_laws :
    {S : Type 0} {slots : SlotTree S}
    → IsSlotTree slots
    → (low : ℕ) → SlotLaws slots (Within low) arp_cache_cmp
arp_laws promise low = promise (Within low) arp_cache_cmp (arp_cache_cmp-IsOrder low)

-- The address is held, or an entry is free.
abbrev pub Room : ℕ → List ArpCacheEntry → Type 0
Room ip_addr entries =
    (j : ℕ) × (x : ArpCacheEntry) × At entries j x × ((x.age ≡ negsuc 1) ⊎ (x.ip_addr ≡ ip_addr))

-- A table in which every address of that half other than one has the answer it had.
abbrev pub AgreesBut : {S : Type 0} → SlotTree S → ℕ → ℕ → ArpTable S → ArpTable S → Type 0
AgreesBut slots low ip_addr s s' =
    (q : ℕ) → Within low q → q ≢ ip_addr → cached slots q s' ≡ cached slots q s

-- What `arp_cache_insert` leaves: the table is valid, and the address has its entry.
abbrev pub Learnt :
    {S : Type 0} {slots : SlotTree S} {low : ℕ}
    → SlotLaws slots (Within low) arp_cache_cmp
    → ArpTable S
    → ℕ
    → MacAddr
    → ArpCacheEntryType
    → ℕ
    → ℤ × ℕ × ArpTable S
    → Type 0
Learnt {S} {slots} {low} laws s ip_addr haddr type errno result =
    (s' : ArpTable S) × (result ≡ (pos 0, errno, s'))
    × IsValid laws s'
    × (cached slots ip_addr s' ≡ (if is_neg (type_age type) then none else some haddr))
    × AgreesBut slots low ip_addr s s'

-- The slot that is taken when there is room.
abbrev Taken : ℕ → List ArpCacheEntry → Option (ℕ × ArpCacheEntry) → Type 0
Taken ip_addr entries o =
    (i : ℕ) × (e : ArpCacheEntry) × (o ≡ some (i, e))
    × At entries i e
    × ((j : ℕ) (x : ArpCacheEntry) → At entries j x → x.ip_addr ≡ ip_addr → (i ≡ j))
    × ((e.ip_addr ≡ ip_addr) ⊎ (e.age ≡ negsuc 1))

module _ {S : Type 0} {slots : SlotTree S} {low : ℕ}
    (laws : SlotLaws slots (Within low) arp_cache_cmp) (s : ArpTable S) (ok : IsValid laws s)
    (ip_addr : ℕ) (nonzero : ip_addr ≢ 0) (room : Room ip_addr s.arp_cache) where
  taken :
      (o : Option (ℕ × ArpCacheEntry)) → Choice ip_addr s.arp_cache o → Taken ip_addr s.arp_cache o
  taken (some (i, e)) (held _ _ at same first) = (
    i,
    e,
    refl,
    at,
    λ j x at_j same'. ok.distinct i j e x at at_j (λ z. nonzero (sym same ∙ z)) (same ∙ sym same'),
    inl same,
  )
  taken (some (i, e)) (absent _ no_holder (last_free _ _ at is_free later)) =
      (i, e, refl, at, λ j x at_j same. absurd (no_holder j x at_j same), inr is_free)
  taken (some (i, e))
        (absent _ no_holder (youngest _ _ p first at at_p dyn order static least strict no_free)) =
      let (j, x, at_j, why) = room in
      elim why [
        | inl is_free ↦ absurd (no_free j x at_j is_free)
        | inr same ↦ absurd (no_holder j x at_j same)
      ]
  taken none (absent _ no_holder (full static)) =
      let (j, x, at_j, why) = room in
      elim why [
        | inl is_free ↦ let is_static = static j x at_j in cc (is_free, is_static)
        | inr same ↦ absurd (no_holder j x at_j same)
      ]

  module _ (within : Within low ip_addr) (haddr : MacAddr) (type : ArpCacheEntryType)
      (used : type_age type ≢ negsuc 1) (errno : ℕ) where
    module _ (i : ℕ) (e : ArpCacheEntry) (at : At s.arp_cache i e)
        (alone : (j : ℕ) (x : ArpCacheEntry) → At s.arp_cache j x → x.ip_addr ≡ ip_addr → i ≡ j)
        (reuse : (e.ip_addr ≡ ip_addr) ⊎ (e.age ≡ negsuc 1)) where
      abbrev after : ArpTable S
      after = replace_entry slots i e ip_addr haddr type s

      after-IsValid : IsValid laws after
      after-IsValid =
          replace_entry-IsValid laws s ok ip_addr within nonzero haddr type used i e at alone reuse

      agrees : AgreesBut slots low ip_addr s after
      agrees q within_q ne = elim (search s.arp_cache q) [
        | inl (j, x, at_j, is_live, same) ↦
            let moved : i ≢ j = λ ij.
              let ex = At_unique s.arp_cache j e x (subst (λ k. At s.arp_cache k e) ij at) at_j in
              elim reuse [
                | inl here ↦ ne (sym same ∙ sym (ap (λ y. y.ip_addr) ex) ∙ here)
                | inr is_free ↦ is_live (sym (ap (λ y. y.age) ex) ∙ is_free)
              ] in
            subst (λ k. cached slots k after ≡ cached slots k s) same
              (cached_live laws after after-IsValid j x
                  (replace_entry-other laws s ok ip_addr within nonzero haddr type used i e at alone
                    reuse j x moved at_j)
                  is_live
                ∙ sym (cached_live laws s ok j x at_j is_live))
        | inr no_entry ↦
            cached_missing laws after after-IsValid q within_q (λ j x at_j is_live same.
              elim (replace_entry-cases laws s ok ip_addr within nonzero haddr type used i e at
                alone reuse j x at_j) [
                  | inl (_, w) ↦ ne (sym same ∙ sym (ap (λ y. y.ip_addr) w))
                  | inr (_, at_j') ↦ no_entry j x at_j' is_live same
                ])
            ∙ sym (cached_missing laws s ok q within_q no_entry)
      ]

      learnt :
          find_slot ip_addr 0 s.arp_cache none ≡ some (i, e)
          → Learnt laws s ip_addr haddr type errno
              (arp_cache_insert slots ip_addr haddr type errno s)
      unfolding arp_cache_insert
      learnt found = (
        after,
        rw (arp_cache_insert, differ_test ip_addr 0 nonzero, found) refl,
        after-IsValid,
        cached_live laws after after-IsValid i
            (record { ip_addr = ip_addr; haddr = haddr; age = type_age type })
            (replace_entry-At laws s ok ip_addr within nonzero haddr type used i e at alone reuse)
            used,
        agrees,
      )

    inserted :
        Learnt laws s ip_addr haddr type errno (arp_cache_insert slots ip_addr haddr type errno s)
    inserted =
        let (i, e, found, at, alone, reuse) =
          taken (find_slot ip_addr 0 s.arp_cache none)
            (find_slot_lem ip_addr s.arp_cache ok.ages) in
        learnt i e at alone reuse found

-- Let the table be valid, and let an entry be free or hold the address, which is not zero and lies in
-- the half of the range that the table uses. `arp_cache_insert` returns 0 and leaves a valid table in
-- which `arp_cache_get_haddr` finds the hardware address, if the entry is dynamic, and nothing, if it
-- is static; every other address of that half of the range has the answer that it had.
pub arp_cache_insert_lem :
    {S : Type 0} {slots : SlotTree S} (promise : IsSlotTree slots) (low : ℕ) (s : ArpTable S)
    (ip_addr : ℕ) (haddr : MacAddr) (type : ArpCacheEntryType) (errno : ℕ)
    → IsValid (arp_laws promise low) s
    → ip_addr ≢ 0
    → Within low ip_addr
    → type_age type ≢ negsuc 1
    → Room ip_addr s.arp_cache
    → Learnt
        (arp_laws promise low)
        s
        ip_addr
        haddr
        type
        errno
        (arp_cache_insert slots ip_addr haddr type errno s)
arp_cache_insert_lem promise low s ip_addr haddr type errno ok nonzero within used room =
    inserted (arp_laws promise low) s ok ip_addr nonzero room within haddr type used errno

module _ {S T : Type 0} (slots : SlotTree S) (tree : RbTrees ℕ T) (ether_if : List EtherLinux)
    (sendto : Sendto) (rib : Rib T) (iface ip_addr errno : ℕ) (s : ArpTable S) (wire : Wire) where
  pub get_haddr_known :
      (haddr : MacAddr)
      → cached slots ip_addr s ≡ some haddr
      → arp_cache_get_haddr slots tree ether_if sendto rib iface ip_addr errno s wire
        ≡ (some haddr, errno, wire)
  unfolding arp_cache_get_haddr
  get_haddr_known haddr known = rw (arp_cache_get_haddr, known) refl

  pub get_haddr_unknown :
      cached slots ip_addr s ≡ none
      → let asked = ask tree ether_if sendto rib iface ip_addr errno wire in
        arp_cache_get_haddr slots tree ether_if sendto rib iface ip_addr errno s wire
        ≡ (none, asked.0, asked.1)
  unfolding arp_cache_get_haddr
  get_haddr_unknown unknown = rw (arp_cache_get_haddr, unknown) refl
