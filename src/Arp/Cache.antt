-- ===== src/Arp/Cache.antt =====
-- The cache of src/arp.c: the array of entries, the tree that finds them by their address, and the
-- operations on both. Ages do not overflow.
pub mod Order
pub mod Scan
pub mod Victim
pub mod Valid
pub mod Insert
pub mod Lookup
pub mod Remove
pub mod Ageing
pub mod Start
mod Tests
use xstack_io.Prelude.{
  ℕ, zero, suc, ◌+◌, ◌-◌, ◌*◌, ◌^◌, List, [], ◌∷◌, Option, none, some, Bool, true, false, not,
  replicate, set, get_or, map, ◌==◌, ◌&&◌, ◌||◌, if◌then◌else◌,
}
use xstack_io.Prelude.Int.{ℤ, pos, negsuc, ◌+ℤ◌, ltb_ℤ, eqb_ℤ, is_neg, to_int}
use xstack_io.Prelude.Errno.{enomem, ehostunreach}
use xstack_io.Ether.{MacAddr}
use xstack_io.Ether.Send.{EtherLinux, Wire, Sendto}
use xstack_io.RbTree.Ordered.{RbTrees}
use xstack_io.SlotTree.{SlotTree}
use xstack_io.Route.{IpRoute, Rib, ip_route_find_by_iface}
use xstack_io.Arp.{arp_request}

-- `enum arp_cache_entry_type`
pub data ArpCacheEntryType : Type 0 where
  arp_cache_free arp_cache_static arp_cache_dyn : ArpCacheEntryType

-- `(int)type`
abbrev pub type_age : ArpCacheEntryType → ℤ
type_age arp_cache_free = negsuc 1
type_age arp_cache_static = negsuc 0
type_age arp_cache_dyn = pos 0

-- `XSTACK_ARP_CACHE_SIZE`
abbrev pub xstack_arp_cache_size : ℕ
xstack_arp_cache_size = 50

-- `ARP_CACHE_AGE_MAX`
abbrev pub arp_cache_age_max : ℤ
arp_cache_age_max = pos (20 * 60 * 60)

pub record ArpCacheEntry : Type 0 where
  pub ip_addr : ℕ
  pub haddr : MacAddr
  pub age : ℤ

abbrev pub zero_entry : ArpCacheEntry
zero_entry = record { ip_addr = 0; haddr = replicate 6 0; age = pos 0 }

-- `arp_cache` and `arp_cache_head`
pub record ArpTable (S : Type 0) : Type 0 where
  pub arp_cache : List ArpCacheEntry
  pub arp_cache_head : S

-- The difference of two unsigned addresses, as an `int`.
unfoldable pub arp_cache_cmp : ℕ → ℕ → ℤ
arp_cache_cmp a b = to_int (a + 2 ^ 32 - b)

-- The keys of the tree, which it reads in the array.
abbrev pub keys : List ArpCacheEntry → ℕ → ℕ
keys entries i = (get_or entries i zero_entry).ip_addr

-- The first test of the loop's body: the entry that may be given up, with its index.
abbrev pub candidate : Option (ℕ × ArpCacheEntry) → ArpCacheEntry → Bool
candidate none it = eqb_ℤ it.age (type_age arp_cache_free) || not (is_neg it.age)
candidate (some (_, entry)) it = eqb_ℤ it.age (type_age arp_cache_free) || ltb_ℤ it.age entry.age

-- The loop, from the entry `i` on.
unfoldable pub find_slot :
    ℕ → ℕ → List ArpCacheEntry → Option (ℕ × ArpCacheEntry) → Option (ℕ × ArpCacheEntry)
find_slot ip_addr i [] entry = entry
find_slot ip_addr i (it ∷ its) entry =
    let entry' = if candidate entry it then some (i, it) else entry in
    let rest = find_slot ip_addr (suc i) its entry' in
    if it.ip_addr == ip_addr then some (i, it) else rest

-- The entry's address, if it is dynamic.
abbrev pub dynamic : ArpCacheEntry → Option MacAddr
dynamic entry = if is_neg entry.age then none else some entry.haddr

-- The second `if`: `errno` and what was sent.
unfoldable pub ask :
    {T : Type 0} → RbTrees ℕ T → List EtherLinux → Sendto → Rib T → ℕ → ℕ → ℕ → Wire → ℕ × Wire
unfolding ip_route_find_by_iface arp_request
ask tree ether_if sendto rib iface ip_addr errno wire =
    elim (ip_route_find_by_iface tree iface rib) [
      | none ↦ (errno, wire)
      | some route ↦
          let (retval, wire') =
            arp_request ether_if sendto route.r_iface_handle route.r_iface ip_addr wire in
          (if eqb_ℤ retval (pos 0) then ehostunreach else errno, wire')
    ]

module _ {S : Type 0} (slots : SlotTree S) where
  -- The static data before the first call.
  abbrev pub cache_init : ArpTable S
  cache_init = record {
    arp_cache = replicate xstack_arp_cache_size zero_entry;
    arp_cache_head = slots.empty;
  }

  -- What follows the loop: the entry `i` is taken out of the tree if it is dynamic, written and put in.
  unfoldable pub replace_entry :
      ℕ → ArpCacheEntry → ℕ → MacAddr → ArpCacheEntryType → ArpTable S → ArpTable S
  unfolding arp_cache_cmp
  replace_entry i entry ip_addr haddr type s =
      let head = if is_neg entry.age then s.arp_cache_head else slots.remove i s.arp_cache_head in
      let entries =
        set s.arp_cache i (record { ip_addr = ip_addr; haddr = haddr; age = type_age type }) in
      record {
        arp_cache = entries;
        arp_cache_head = slots.insert arp_cache_cmp (keys entries) i head;
      }

  -- The return value, `errno` and the state.
  unfoldable pub arp_cache_insert :
      ℕ → MacAddr → ArpCacheEntryType → ℕ → ArpTable S → ℤ × ℕ × ArpTable S
  unfolding find_slot replace_entry
  arp_cache_insert ip_addr haddr type errno s =
      if ip_addr == 0 then (pos 0, errno, s) else elim (find_slot ip_addr 0 s.arp_cache none) [
        | none ↦ (negsuc 0, enomem, s)
        | some (i, entry) ↦ (pos 0, errno, replace_entry i entry ip_addr haddr type s)
      ]

  -- The index of the entry.
  unfoldable pub arp_cache_get_entry : ℕ → ArpTable S → Option ℕ
  unfolding arp_cache_cmp
  arp_cache_get_entry ip_addr s =
      slots.find arp_cache_cmp (keys s.arp_cache) ip_addr s.arp_cache_head

  -- `none`: RB_REMOVE reads through the null pointer.
  unfoldable pub arp_cache_remove : ℕ → ArpTable S → Option (ArpTable S)
  unfolding arp_cache_get_entry
  arp_cache_remove ip_addr s = elim (arp_cache_get_entry ip_addr s) [
    | none ↦ none
    | some i ↦
        let entry = get_or s.arp_cache i zero_entry in
        some (record {
          arp_cache = set s.arp_cache i (record entry { age = type_age arp_cache_free });
          arp_cache_head = slots.remove i s.arp_cache_head;
        })
  ]

  -- The first `if`: what the cache knows.
  unfoldable pub cached : ℕ → ArpTable S → Option MacAddr
  unfolding arp_cache_get_entry
  cached ip_addr s = elim (arp_cache_get_entry ip_addr s) [
    | none ↦ none
    | some i ↦ dynamic (get_or s.arp_cache i zero_entry)
  ]

  -- The hardware address when 0 is returned, `errno` and what was sent.
  unfoldable pub arp_cache_get_haddr :
      {T : Type 0}
      → RbTrees ℕ T
      → List EtherLinux
      → Sendto
      → Rib T
      → ℕ
      → ℕ
      → ℕ
      → ArpTable S
      → Wire
      → Option MacAddr × ℕ × Wire
  unfolding cached ask
  arp_cache_get_haddr tree ether_if sendto rib iface ip_addr errno s wire =
      let (errno', wire') = ask tree ether_if sendto rib iface ip_addr errno wire in
      elim (cached ip_addr s) [
        | some haddr ↦ (some haddr, errno, wire)
        | none ↦ (none, errno', wire')
      ]

-- The loop's body: an expired entry is marked free where it is. The age that grows is at most
-- ARP_CACHE_AGE_MAX, so that the sum is that of `int` for a delay of less than 2^31 - ARP_CACHE_AGE_MAX.
abbrev pub older : ℤ → ArpCacheEntry → ArpCacheEntry
older delta_time entry =
    if ltb_ℤ arp_cache_age_max entry.age
    then record entry { age = type_age arp_cache_free }
    else if is_neg entry.age
    then entry
    else record entry { age = entry.age +ℤ delta_time }

unfoldable pub arp_cache_update : {S : Type 0} → ℤ → ArpTable S → ArpTable S
arp_cache_update delta_time s = record s { arp_cache = map (older delta_time) s.arp_cache }
