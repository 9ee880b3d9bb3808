-- ===== src/Arp/Cache/Remove.antt =====
-- `arp_cache_remove` of src/arp.c.
use mathlib.Core.Path.{subst}
use xstack_io.Prelude.{
  ℕ, ◌≡◌, ◌≢◌, ◌⊎◌, inl, inr, refl, sym, ap, ◌∙◌, arith, Option, none, some, length-set, set,
  get_or, get_elem?-set_self, get_elem?-set_ne, get_or-set_ne, ℕ_discrete,
}
use xstack_io.Prelude.Int.{negsuc}
use xstack_io.RbTree.{In}
use xstack_io.SlotTree.{SlotTree, SlotLaws, IsSlotTree}
use xstack_io.Arp.Cache.{
  ArpCacheEntry, ArpTable, type_age, arp_cache_free, zero_entry, arp_cache_cmp, keys,
  arp_cache_remove, cached,
}
use xstack_io.Arp.Cache.Order.{Within}
use xstack_io.Arp.Cache.Scan.{At, IsAge, get_elem?-bound}
use xstack_io.Arp.Cache.Valid.{
  IsLive, IsValid, At_unique, get_or-At, search, cached_live, cached_missing, get_entry_live,
  get_entry_missing,
}
use xstack_io.Arp.Cache.Lookup.{arp_laws, AgreesBut}

module _ {S : Type 0} {slots : SlotTree S} {low : ℕ}
    (laws : SlotLaws slots (Within low) arp_cache_cmp) (s : ArpTable S) (ok : IsValid laws s) where
  module _ (i : ℕ) (e : ArpCacheEntry) (at : At s.arp_cache i e) (is_live : IsLive e) where
    abbrev freed : ArpCacheEntry
    freed = record e { age = negsuc 1 }

    abbrev after : ArpTable S
    after = record {
      arp_cache = set s.arp_cache i freed;
      arp_cache_head = slots.remove i s.arp_cache_head;
    }

    cases :
        (j : ℕ) (x : ArpCacheEntry)
        → At after.arp_cache j x
        → ((i ≡ j) × (freed ≡ x)) ⊎ ((i ≢ j) × At s.arp_cache j x)
    cases j x at_j = elim (ℕ_discrete i j) [
      | yes e' ↦ inl (
        e',
        At_unique after.arp_cache i freed x
            (get_elem?-set_self s.arp_cache i freed (get_elem?-bound s.arp_cache i e at))
            (subst (λ k. At after.arp_cache k x) (sym e') at_j),
      )
      | no ne ↦ inr (ne, sym (get_elem?-set_ne s.arp_cache freed ne) ∙ at_j)
    ]

    -- An address of the table was there, in the same slot.
    before :
        (j : ℕ) (x : ArpCacheEntry)
        → At after.arp_cache j x
        → (y : ArpCacheEntry) × At s.arp_cache j y × (x.ip_addr ≡ y.ip_addr)
    before j x at_j = elim (cases j x at_j) [
      | inl (ij, w) ↦ (e, subst (λ k. At s.arp_cache k e) ij at, sym (ap (λ z. z.ip_addr) w))
      | inr (_, at_j') ↦ (x, at_j', refl)
    ]

    live_before :
        (j : ℕ) (x : ArpCacheEntry)
        → At after.arp_cache j x
        → IsLive x
        → (i ≢ j) × At s.arp_cache j x
    live_before j x at_j live_x = elim (cases j x at_j) [
      | inl (_, w) ↦ absurd (live_x (sym (ap (λ z. z.age) w)))
      | inr here ↦ here
    ]

    linked_i : In i (slots.to_list s.arp_cache_head)
    linked_i = ok.live i e at is_live

    members :
        (j : ℕ)
        → In j (slots.to_list after.arp_cache_head)
        → (i ≢ j) × In j (slots.to_list s.arp_cache_head)
    members j m = (laws.In-remove (keys s.arp_cache) i s.arp_cache_head ok.fits linked_i j).0 m

    remove-IsValid : IsValid laws after
    remove-IsValid = record {
      size = length-set s.arp_cache i freed ∙ ok.size;
      ages = λ j x at_j. elim (cases j x at_j) [
        | inl (_, w) ↦ subst (λ y. IsAge y.age) w (omega arith)
        | inr (_, at_j') ↦ ok.ages j x at_j'
      ];
      fits =
          laws.Fits_agree (keys s.arp_cache) (keys after.arp_cache) after.arp_cache_head
            (λ j m.
              ap (λ x. x.ip_addr) (get_or-set_ne s.arp_cache i j freed zero_entry (members j m).0))
            (laws.Fits-remove (keys s.arp_cache) i s.arp_cache_head ok.fits linked_i);
      linked = λ j m.
          let (ne, m') = members j m in
          let (x, at_j, live_x) = ok.linked j m' in
          (x, get_elem?-set_ne s.arp_cache freed ne ∙ at_j, live_x);
      live = λ j x at_j live_x.
          let (ne, at_j') = live_before j x at_j live_x in
          (laws.In-remove (keys s.arp_cache) i s.arp_cache_head ok.fits linked_i j).1
            (ne, ok.live j x at_j' live_x);
      addressed = λ j x at_j live_x. ok.addressed j x (live_before j x at_j live_x).1 live_x;
      distinct = λ j k x y at_j at_k ne same.
          let (x', at_j', same_x) = before j x at_j in
          let (y', at_k', same_y) = before k y at_k in
          ok.distinct j k x' y' at_j' at_k' (λ z. ne (same_x ∙ z)) (sym same_x ∙ same ∙ same_y);
    }

    removed_gone : Within low e.ip_addr → cached slots e.ip_addr after ≡ none
    removed_gone within =
        cached_missing laws after remove-IsValid e.ip_addr within (λ j x at_j live_x same.
          let (ne, at_j') = live_before j x at_j live_x in
          ne (ok.distinct i j e x at at_j' (ok.addressed i e at is_live) (sym same)))

    agrees : AgreesBut slots low e.ip_addr s after
    agrees q within_q ne = elim (search s.arp_cache q) [
      | inl (j, x, at_j, live_x, same) ↦
          let moved : i ≢ j = λ ij.
            let ex = At_unique s.arp_cache j e x (subst (λ k. At s.arp_cache k e) ij at) at_j in
            ne (sym same ∙ sym (ap (λ y. y.ip_addr) ex)) in
          subst (λ k. cached slots k after ≡ cached slots k s) same
            (cached_live laws after remove-IsValid j x
                (get_elem?-set_ne s.arp_cache freed moved ∙ at_j) live_x
              ∙ sym (cached_live laws s ok j x at_j live_x))
      | inr no_entry ↦
          cached_missing laws after remove-IsValid q within_q
            (λ j x at_j live_x. no_entry j x (live_before j x at_j live_x).1 live_x)
          ∙ sym (cached_missing laws s ok q within_q no_entry)
    ]

    removed : arp_cache_remove slots e.ip_addr s ≡ some after
    unfolding arp_cache_remove
    removed =
        ap unlink (get_entry_live laws s ok i e at is_live)
        ∙ ap
            (λ x. some (record {
              arp_cache = set s.arp_cache i (record x { age = type_age arp_cache_free });
              arp_cache_head = slots.remove i s.arp_cache_head;
            }))
            (get_or-At s.arp_cache i e at)
      where
        unlink : Option ℕ → Option (ArpTable S)
        unlink none = none
        unlink (some k) = some (record {
          arp_cache =
              set s.arp_cache k
                (record (get_or s.arp_cache k zero_entry) { age = type_age arp_cache_free });
          arp_cache_head = slots.remove k s.arp_cache_head;
        })

-- What `arp_cache_remove` leaves of an address.
abbrev pub Removed :
    {S : Type 0} {slots : SlotTree S} {low : ℕ}
    → SlotLaws slots (Within low) arp_cache_cmp
    → ArpTable S
    → ℕ
    → Option (ArpTable S)
    → Type 0
Removed {S} {slots} {low} laws s ip_addr result =
    (s' : ArpTable S) × (result ≡ some s')
    × IsValid laws s'
    × (cached slots ip_addr s' ≡ none)
    × AgreesBut slots low ip_addr s s'

-- Let the table be valid and the address lie in the half of the range that it uses. If an entry in
-- use holds the address, `arp_cache_remove` leaves a valid table that does not know it, and every
-- other address of that half of the range has the answer that it had. If none does, it reads through
-- a null pointer.
pub arp_cache_remove_lem :
    {S : Type 0} {slots : SlotTree S} (promise : IsSlotTree slots) (low : ℕ) (s : ArpTable S)
    (ip_addr : ℕ)
    → IsValid (arp_laws promise low) s
    → Within low ip_addr
    → (((i : ℕ) × (e : ArpCacheEntry) × At s.arp_cache i e × IsLive e × (e.ip_addr ≡ ip_addr))
        × Removed (arp_laws promise low) s ip_addr (arp_cache_remove slots ip_addr s))
      ⊎ (((i : ℕ) (e : ArpCacheEntry) → At s.arp_cache i e → IsLive e → e.ip_addr ≢ ip_addr)
          × (arp_cache_remove slots ip_addr s ≡ none))
unfolding arp_cache_remove
arp_cache_remove_lem {slots = slots} promise low s ip_addr ok within =
    let laws = arp_laws promise low in
    elim (search s.arp_cache ip_addr) [
      | inl (i, e, at, is_live, same) ↦ inl (
        (i, e, at, is_live, same),
        subst (λ a. Removed laws s a (arp_cache_remove slots a s)) same
            (
              after laws s ok i e at is_live,
              removed laws s ok i e at is_live,
              remove-IsValid laws s ok i e at is_live,
              removed_gone laws s ok i e at is_live (subst (Within low) (sym same) within),
              agrees laws s ok i e at is_live,
            ),
      )
      | inr no_entry ↦ inr (
        no_entry,
        rw (arp_cache_remove, get_entry_missing laws s ok ip_addr within no_entry) refl,
      )
    ]
