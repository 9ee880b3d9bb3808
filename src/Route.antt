-- ===== src/Route.antt =====
-- src/ip_route.c: the routing table, an array of entries with a tree by network, a tree by interface
-- address and a list of free entries. `none` is the fault of a null pointer that is followed.
mod Tests
pub mod Valid
pub mod Links
pub mod Fill
pub mod Update
pub mod Lookup
use xstack_io.Prelude.{
  ℕ, zero, suc, ◌+◌, ◌-◌, ◌^◌, List, [], ◌∷◌, Option, none, some, Bool, replicate, set, get_or,
  bit_and, ◌==◌, if◌then◌else◌,
}
use xstack_io.Prelude.Int.{ℤ, pos, negsuc, to_int}
use xstack_io.Prelude.Errno.{enoent}
use xstack_io.RbTree.Ordered.{RbTrees}

-- `struct ip_route`
pub record IpRoute : Type 0 where
  pub r_network : ℕ
  pub r_netmask : ℕ
  pub r_gw : ℕ
  pub r_iface : ℕ
  pub r_iface_handle : ℕ

abbrev pub xstack_ip_rib_size : ℕ
xstack_ip_rib_size = 5

-- What `memset` leaves.
abbrev pub no_route : IpRoute
no_route = record { r_network = 0; r_netmask = 0; r_gw = 0; r_iface = 0; r_iface_handle = 0 }

-- The static variables of the file.
pub record Rib (T : Type 0) : Type 0 where
  pub rib : List IpRoute
  pub rib_routetree : T
  pub rib_sourcetree : T
  pub rib_freelist : List ℕ

-- The comparisons of the two trees, of the networks and of the interface addresses of two entries: the
-- difference of 32-bit words, taken as an `int`.
unfoldable pub route_network_cmp : ℕ → ℕ → ℤ
route_network_cmp a b = to_int (a + 2 ^ 32 - b)

unfoldable pub route_iface_cmp : ℕ → ℕ → ℤ
route_iface_cmp a b = to_int (a + 2 ^ 32 - b)

module _ {T : Type 0} (tree : RbTrees ℕ T) where
  unfoldable pub ip_route_entry_alloc : Rib T → Option (ℕ × Rib T)
  ip_route_entry_alloc s = elim s.rib_freelist [
    | [] ↦ none
    | entry ∷ rest ↦ some (entry, record s { rib_freelist = rest })
  ]

  unfoldable pub ip_route_entry_free : ℕ → Rib T → Rib T
  ip_route_entry_free entry s = record s { rib_freelist = entry ∷ s.rib_freelist }

  -- The entry's keys are those of the route that stands in it.
  unfoldable pub ip_route_tree_insert : ℕ → Rib T → Rib T
  ip_route_tree_insert entry s =
      let route = get_or s.rib entry no_route in
      record s {
        rib_routetree = ((tree route_network_cmp).insert route.r_network entry s.rib_routetree).0;
        rib_sourcetree = ((tree route_iface_cmp).insert route.r_iface entry s.rib_sourcetree).0;
      }

  unfoldable pub ip_route_tree_remove : ℕ → Rib T → Rib T
  ip_route_tree_remove entry s =
      let route = get_or s.rib entry no_route in
      record s {
        rib_routetree = (tree route_network_cmp).remove route.r_network entry s.rib_routetree;
        rib_sourcetree = (tree route_iface_cmp).remove route.r_iface entry s.rib_sourcetree;
      }

  -- The assignment `entry->route = *route`.
  abbrev pub put_route : ℕ → IpRoute → Rib T → Rib T
  put_route entry route s = record s { rib = set s.rib entry route }

  -- The test for an empty list of free entries comes after the list has been followed.
  unfoldable pub ip_route_add : IpRoute → Rib T → Option (ℤ × Rib T)
  unfolding ip_route_entry_alloc ip_route_tree_insert
  ip_route_add route s = elim (ip_route_entry_alloc s) [
    | none ↦ none
    | some (entry, s') ↦ some (pos 0, ip_route_tree_insert entry (put_route entry route s'))
  ]

  -- The return value and the state.
  unfoldable pub ip_route_update : IpRoute → Rib T → Option (ℤ × Rib T)
  unfolding ip_route_add ip_route_tree_insert ip_route_tree_remove
  ip_route_update route s = elim ((tree route_network_cmp).find route.r_network s.rib_routetree) [
    | some entry ↦
        some
          (pos 0, ip_route_tree_insert entry (put_route entry route (ip_route_tree_remove entry s)))
    | none ↦ ip_route_add route s
  ]

  -- The return value, `errno` and the state.
  unfoldable pub ip_route_remove : IpRoute → ℕ → Rib T → ℤ × ℕ × Rib T
  unfolding ip_route_tree_remove ip_route_entry_free
  ip_route_remove route errno s =
      elim ((tree route_network_cmp).find route.r_network s.rib_routetree) [
        | none ↦ (negsuc 0, enoent, s)
        | some entry ↦ (
          pos 0,
          errno,
          ip_route_entry_free entry (put_route entry no_route (ip_route_tree_remove entry s)),
        )
      ]

  -- The first entry of the walk whose network matches the address under its mask.
  unfoldable pub first_match : List IpRoute → ℕ → List ℕ → Option ℕ
  first_match rib addr [] = none
  first_match rib addr (entry ∷ rest) =
      let later = first_match rib addr rest in
      let route = get_or rib entry no_route in
      if route.r_network == bit_and addr route.r_netmask then some entry else later

  -- The entry that the switch with its fallthroughs stops at.
  unfoldable pub match_entry : ℕ → Rib T → Option ℕ
  unfolding first_match
  match_entry addr s = elim ((tree route_network_cmp).find addr s.rib_routetree) [
    | some entry ↦ some entry
    | none ↦ elim (first_match s.rib addr ((tree route_network_cmp).to_list s.rib_routetree)) [
      | some entry ↦ some entry
      | none ↦ (tree route_network_cmp).find 0 s.rib_routetree
    ]
  ]

  -- `none` is the return value -1 with `errno` ENOENT.
  unfoldable pub ip_route_find_by_network : ℕ → Rib T → Option IpRoute
  unfolding match_entry
  ip_route_find_by_network addr s = elim (match_entry addr s) [
    | none ↦ none
    | some entry ↦ some (get_or s.rib entry no_route)
  ]

  unfoldable pub ip_route_find_by_iface : ℕ → Rib T → Option IpRoute
  ip_route_find_by_iface addr s = elim ((tree route_iface_cmp).find addr s.rib_sourcetree) [
    | none ↦ none
    | some entry ↦ some (get_or s.rib entry no_route)
  ]

  -- The loop with `left` entries to go, from the entry `i` on.
  abbrev pub free_from : ℕ → ℕ → List ℕ → List ℕ
  free_from zero i list = list
  free_from (suc left) i list = free_from left (i + 1) (i ∷ list)

  unfoldable pub ip_route_init : Rib T
  ip_route_init = record {
    rib = replicate xstack_ip_rib_size no_route;
    rib_routetree = (tree route_network_cmp).empty;
    rib_sourcetree = (tree route_iface_cmp).empty;
    rib_freelist = free_from xstack_ip_rib_size 0 [];
  }
