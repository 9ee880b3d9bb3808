-- ===== src/Route/Tests.antt =====
-- Tests of the routing table and the witnesses of its theorems.
use mathlib.Core.Path.{subst}
use xstack_io.Prelude.{
  ℕ, arith, true, ◌≡◌, refl, [], ◌∷◌, none, some, ◌==◌, if◌then◌else◌, ℕ_discrete, ◌⊎◌, ◌≢◌, inr,
}
use xstack_io.Prelude.Int.{pos, negsuc, is_neg}
use xstack_io.Prelude.Errno.{enoent}
use xstack_io.SlotTree.{IsOrder}
use xstack_io.RbTree.Ordered.{RbTrees, IsRbTrees, OrderedLaws, all-OrderedLaws}
use xstack_io.Arp.Cache.{arp_cache_cmp}
use xstack_io.Arp.Cache.Order.{Within, arp_cache_cmp-IsOrder}
use xstack_io.RbTree.Assoc.{Changes, assoc, assoc-IsRbTree}
use xstack_io.Route.{
  IpRoute, Rib, no_route, route_network_cmp, route_iface_cmp, ip_route_init, ip_route_update,
  ip_route_remove, ip_route_find_by_network,
}
use xstack_io.Route.Valid.{IsValid, table}
use xstack_io.Route.Fill.{Updated}
use xstack_io.Route.Update.{
  net_laws, iface_laws, ip_route_init-IsValid, ip_route_update_lem, ip_route_remove_lem,
}
use xstack_io.Route.Lookup.{Serves, ip_route_find_by_network_lem}

abbrev tree : RbTrees ℕ (Changes ℕ)
tree = λ cmp. assoc ℕ_discrete

promise : IsRbTrees tree
promise P cmp order = all-OrderedLaws ℕ_discrete (assoc ℕ_discrete) P (assoc-IsRbTree ℕ_discrete)

-- The comparisons order the first half of the range, as that of src/arp.c does.
net_order : IsOrder (Within 0) route_network_cmp
unfolding route_network_cmp arp_cache_cmp
net_order = arp_cache_cmp-IsOrder 0

iface_order : IsOrder (Within 0) route_iface_cmp
unfolding route_iface_cmp arp_cache_cmp
iface_order = arp_cache_cmp-IsOrder 0

abbrev nets : OrderedLaws (tree route_network_cmp) (Within 0)
nets = net_laws tree promise net_order iface_order

abbrev ifs : OrderedLaws (tree route_iface_cmp) (Within 0)
ifs = iface_laws tree promise net_order iface_order

abbrev local : IpRoute
local = record {
  r_network = 0x0a000000;
  r_netmask = 0xffffff00;
  r_gw = 0;
  r_iface = 0x0a000002;
  r_iface_handle = 0;
}

-- Nothing is found at the start, and every entry is free.
nothing_found :
    (k j : ℕ) → (tree route_network_cmp).find k (ip_route_init tree).rib_routetree ≡ some j → ⊥
unfolding ip_route_init
nothing_found k j e = cc (e, nets.find-empty k)

no_iface :
    (k j : ℕ) → (tree route_iface_cmp).find k (ip_route_init tree).rib_sourcetree ≡ some j → ⊥
unfolding ip_route_init
no_iface k j e = cc (e, ifs.find-empty k)

entries_free : (ip_route_init tree).rib_freelist ≢ []
unfolding ip_route_init
entries_free e = cc e

ip_route_update_lem_example :
    (s' : Rib (Changes ℕ)) × (ip_route_update tree local (ip_route_init tree) ≡ some (pos 0, s'))
    × Updated tree nets ifs local (ip_route_init tree) s'
ip_route_update_lem_example =
    ip_route_update_lem tree promise net_order iface_order local (ip_route_init tree)
      (ip_route_init-IsValid tree promise net_order iface_order).0 (omega arith) (omega arith)
      (λ j e. absurd (no_iface local.r_iface j e)) (inr entries_free)

-- The table with this route.
abbrev one_route : Rib (Changes ℕ)
one_route = record {
  rib = no_route ∷ no_route ∷ no_route ∷ no_route ∷ local ∷ [];
  rib_routetree = (0x0a000000, some 4) ∷ [];
  rib_sourcetree = (0x0a000002, some 4) ∷ [];
  rib_freelist = 3 ∷ 2 ∷ 1 ∷ 0 ∷ [];
}

first_update : ip_route_update tree local (ip_route_init tree) ≡ some (pos 0, one_route)
unfolding ip_route_update ip_route_init
first_update = refl

one_route-IsValid : IsValid tree nets ifs one_route
one_route-IsValid =
    let (s', run, kept) = ip_route_update_lem_example in
    let same : s' ≡ one_route = cc (run, first_update) in subst (IsValid tree nets ifs) same kept.0

ip_route_remove_lem_example :
    let (retval, errno', s') = ip_route_remove tree local 0 one_route in
    IsValid tree nets ifs s'
    × ((k : ℕ)
        → Within 0 k
        → table tree s' k ≡ (if k == 0x0a000000 then none else table tree one_route k))
    × (((retval ≡ negsuc 0)
          × (errno' ≡ enoent)
          × (s' ≡ one_route)
          × (table tree one_route 0x0a000000 ≡ none))
        ⊎ ((retval ≡ pos 0)
            × (errno' ≡ 0)
            × ((entry : ℕ) × (s'.rib_freelist ≡ entry ∷ 3 ∷ 2 ∷ 1 ∷ 0 ∷ []))))
ip_route_remove_lem_example =
    ip_route_remove_lem tree promise net_order iface_order local 0 one_route one_route-IsValid
      (omega arith)

ip_route_find_by_network_lem_example :
    ((r : IpRoute)
      → table tree one_route 0x0a000007 ≡ some r
      → ip_route_find_by_network tree 0x0a000007 one_route ≡ some r)
    × (((r : IpRoute) × (ip_route_find_by_network tree 0x0a000007 one_route ≡ some r)
          × Serves 0x0a000007 r
          × (table tree one_route r.r_network ≡ some r))
        ⊎ ((ip_route_find_by_network tree 0x0a000007 one_route ≡ none)
            × ((k : ℕ) (r : IpRoute)
                → Within 0 k
                → table tree one_route k ≡ some r
                → ¬ Serves 0x0a000007 r)))
ip_route_find_by_network_lem_example =
    ip_route_find_by_network_lem tree promise net_order iface_order 0x0a000007 one_route
      one_route-IsValid (omega arith) (omega arith)

-- An address of the network is served under its mask.
served : ip_route_find_by_network tree 0x0a000007 one_route ≡ some local
unfolding ip_route_find_by_network ℕ_discrete
served = refl

-- A default route comes first in the walk, and hides the route of the network.
abbrev default_route : IpRoute
default_route = record {
  r_network = 0;
  r_netmask = 0;
  r_gw = 0;
  r_iface = 0x0b000001;
  r_iface_handle = 0;
}

abbrev two_routes : Rib (Changes ℕ)
two_routes = record one_route {
  rib = no_route ∷ no_route ∷ no_route ∷ default_route ∷ local ∷ [];
  rib_routetree = (0, some 3) ∷ (0x0a000000, some 4) ∷ [];
}

hidden : ip_route_find_by_network tree 0x0a000007 two_routes ≡ some default_route
unfolding ip_route_find_by_network ℕ_discrete
hidden = refl

-- The comparison is no order of all addresses: 10.0.0.0 is below 100.0.0.0, this below 192.0.0.0, and
-- this below 10.0.0.0.
cycle :
    (is_neg (route_network_cmp 0x0a000000 0x64000000) ≡ true)
    × (is_neg (route_network_cmp 0x64000000 0xc0000000) ≡ true)
    × (is_neg (route_network_cmp 0xc0000000 0x0a000000) ≡ true)
unfolding route_network_cmp
cycle = (refl, refl, refl)
