-- ===== src/Route/Fill.antt =====
-- The steps of the operations of the routing table: an entry that is filled, and the branches.
use mathlib.Core.Path.{subst}
use xstack_io.Prelude.{
  ℕ, ◌≡◌, refl, sym, ap, ◌∙◌, List, [], ◌∷◌, Option, none, some, ◌==◌, if◌then◌else◌,
  get_or-set_self,
}
use xstack_io.Prelude.Int.{ℤ, pos, negsuc}
use xstack_io.Prelude.Errno.{enoent}
use xstack_io.RbTree.Ordered.{RbTrees, OrderedLaws}
use xstack_io.Route.{
  IpRoute, Rib, no_route, route_network_cmp, route_iface_cmp, put_route, ip_route_tree_insert,
  ip_route_tree_remove, ip_route_entry_free, ip_route_entry_alloc, ip_route_add, ip_route_update,
  ip_route_remove, ip_route_find_by_iface,
}
use xstack_io.Route.Valid.{IsValid, IsOpen, table, route_of, put-IsOpen, put-table}
use xstack_io.Route.Links.{link-IsValid, link-table}

module _ {T : Type 0} (tree : RbTrees ℕ T) {P Q : ℕ → Type 0}
    (nets : OrderedLaws (tree route_network_cmp) P)
    (ifs : OrderedLaws (tree route_iface_cmp) Q) where
  -- What an update to `route` promises of its outcome.
  abbrev pub Updated : IpRoute → Rib T → Rib T → Type 0
  Updated route s s' =
      IsValid tree nets ifs s'
      × ((k : ℕ)
          → P k
          → table tree s' k ≡ (if k == route.r_network then some route else table tree s k))
      × (ip_route_find_by_iface tree route.r_iface s' ≡ some route)

  found_iface :
      (k i : ℕ) (s : Rib T)
      → (tree route_iface_cmp).find k s.rib_sourcetree ≡ some i
      → ip_route_find_by_iface tree k s ≡ some (route_of s i)
  unfolding ip_route_find_by_iface
  found_iface k i s e = rw (ip_route_find_by_iface, e) refl

  -- An open entry is filled and linked.
  pub fill :
      (i : ℕ) (route : IpRoute) (s : Rib T)
      → IsOpen tree nets ifs i s
      → P route.r_network
      → Q route.r_iface
      → (tree route_network_cmp).find route.r_network s.rib_routetree ≡ none
      → (tree route_iface_cmp).find route.r_iface s.rib_sourcetree ≡ none
      → Updated route s (ip_route_tree_insert tree i (put_route tree i route s))
  unfolding ip_route_tree_insert
  fill i route s o pn qm no_network no_iface =
      let s2 = put_route tree i route s in
      let o2 = put-IsOpen tree nets ifs route o in
      let it : route_of s2 i ≡ route = get_or-set_self s.rib i route no_route o.inside in
      let no_network2 =
        ap (λ (r : IpRoute). (tree route_network_cmp).find r.r_network s.rib_routetree) it
        ∙ no_network in
      let pn2 = subst (λ (r : IpRoute). P r.r_network) (sym it) pn in
      let qm2 = subst (λ (r : IpRoute). Q r.r_iface) (sym it) qm in
      let no_iface2 =
        ap (λ (r : IpRoute). (tree route_iface_cmp).find r.r_iface s.rib_sourcetree) it
        ∙ no_iface in
      (
        link-IsValid tree nets ifs o2 pn2 qm2 no_network2 no_iface2,
        (λ k p.
            link-table tree nets ifs i s2 k o2.valid.fits_networks pn2 p no_network2
            ∙ ap (λ (r : IpRoute). if k == r.r_network then some r else table tree s2 k) it
            ∙ ap (λ x. if k == route.r_network then some route else x)
                (put-table tree nets ifs route k p o)),
        found_iface route.r_iface i (ip_route_tree_insert tree i s2) (
              ap
                (λ (r : IpRoute).
                  (tree route_iface_cmp).find route.r_iface
                    ((tree route_iface_cmp).insert r.r_iface i s.rib_sourcetree).0)
                it
              ∙ ifs.insert_free route.r_iface i s.rib_sourcetree o.valid.fits_ifaces qm no_iface)
            ∙ ap some it,
      )

  pub update_old :
      (i : ℕ) (route : IpRoute) (s : Rib T)
      → (tree route_network_cmp).find route.r_network s.rib_routetree ≡ some i
      → ip_route_update tree route s
        ≡ some (
          pos 0,
          ip_route_tree_insert tree i (put_route tree i route (ip_route_tree_remove tree i s)),
        )
  unfolding ip_route_update
  update_old i route s old = rw (ip_route_update, old) refl

  add_free :
      (i : ℕ) (rest list : List ℕ) (route : IpRoute) (s : Rib T)
      → s.rib_freelist ≡ list
      → list ≡ i ∷ rest
      → ip_route_add tree route s
        ≡ some (
          pos 0,
          ip_route_tree_insert tree i (put_route tree i route (record s { rib_freelist = rest })),
        )
  unfolding ip_route_add ip_route_entry_alloc
  add_free i rest list route s at e = ap step (at ∙ e)
    where
      step : List ℕ → Option (ℤ × Rib T)
      step l =
          let alloc : Option (ℕ × Rib T) = elim l [
            | [] ↦ none
            | entry ∷ more ↦ some (entry, record s { rib_freelist = more })
          ] in
          elim alloc [
            | none ↦ none
            | some (entry, s') ↦
                some (pos 0, ip_route_tree_insert tree entry (put_route tree entry route s'))
          ]

  pub update_new :
      (i : ℕ) (rest : List ℕ) (route : IpRoute) (s : Rib T)
      → (tree route_network_cmp).find route.r_network s.rib_routetree ≡ none
      → s.rib_freelist ≡ i ∷ rest
      → ip_route_update tree route s
        ≡ some (
          pos 0,
          ip_route_tree_insert tree i (put_route tree i route (record s { rib_freelist = rest })),
        )
  unfolding ip_route_update
  update_new i rest route s new e =
      rw (ip_route_update, new) (add_free i rest s.rib_freelist route s refl e)

  pub remove_none :
      (route : IpRoute) (errno : ℕ) (s : Rib T)
      → (tree route_network_cmp).find route.r_network s.rib_routetree ≡ none
      → ip_route_remove tree route errno s ≡ (negsuc 0, enoent, s)
  unfolding ip_route_remove
  remove_none route errno s free = rw (ip_route_remove, free) refl

  pub remove_some :
      (i : ℕ) (route : IpRoute) (errno : ℕ) (s : Rib T)
      → (tree route_network_cmp).find route.r_network s.rib_routetree ≡ some i
      → ip_route_remove tree route errno s ≡ (
        pos 0,
        errno,
        ip_route_entry_free tree i (put_route tree i no_route (ip_route_tree_remove tree i s)),
      )
  unfolding ip_route_remove
  remove_some i route errno s old = rw (ip_route_remove, old) refl
