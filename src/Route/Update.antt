-- ===== src/Route/Update.antt =====
-- The operations of the routing table keep its invariant and change the table that it stands for.
use xstack_io.Prelude.{
  ℕ, ◌≡◌, ◌≢◌, refl, sym, ap, ◌∙◌, arith, List, [], ◌∷◌, none, some, ◌==◌, if◌then◌else◌, same_test,
  differ_test, ℕ_discrete, ◌⊎◌, inl, inr, Bool, true, false, Option-cases,
}
use xstack_io.Prelude.Int.{pos, negsuc}
use xstack_io.Prelude.Errno.{enoent}
use xstack_io.SlotTree.{IsOrder}
use xstack_io.RbTree.Ordered.{RbTrees, OrderedLaws, IsRbTrees}
use xstack_io.Route.{
  IpRoute, Rib, no_route, route_network_cmp, route_iface_cmp, put_route, ip_route_tree_insert,
  ip_route_tree_remove, ip_route_entry_free, ip_route_update, ip_route_remove, ip_route_init,
}
use xstack_io.Route.Fill.{Updated, fill, update_old, update_new, remove_none, remove_some}
use xstack_io.Route.Valid.{
  IsValid, table, at_slot, route_of, put-IsOpen, put-table, take-IsOpen, free-IsValid,
}
use xstack_io.Route.Links.{unlink-IsOpen, unlink-table, left_in}

covered :
    {A : Type 0} (b : Bool) (x y z : A)
    → (if b then x else if b then y else z) ≡ (if b then x else z)
covered true x y z = refl
covered false x y z = refl

module _ {T : Type 0} (tree : RbTrees ℕ T) {P Q : ℕ → Type 0}
    (nets : OrderedLaws (tree route_network_cmp) P)
    (ifs : OrderedLaws (tree route_iface_cmp) Q) where
  update_ordered :
      (route : IpRoute) (s : Rib T)
      → IsValid tree nets ifs s
      → P route.r_network
      → Q route.r_iface
      → ((j : ℕ)
          → (tree route_iface_cmp).find route.r_iface s.rib_sourcetree ≡ some j
          → (tree route_network_cmp).find route.r_network s.rib_routetree ≡ some j)
      → ((tree route_network_cmp).find route.r_network s.rib_routetree ≢ none)
        ⊎ (s.rib_freelist ≢ [])
      → (s' : Rib T) × (ip_route_update tree route s ≡ some (pos 0, s'))
        × Updated tree nets ifs route s s'
  unfolding ip_route_tree_remove
  update_ordered route s v pn qm alone room =
      elim (Option-cases ((tree route_network_cmp).find route.r_network s.rib_routetree)) [
        | inl new ↦ go s.rib_freelist refl new
        | inr (i, old) ↦
            let o = unlink-IsOpen tree nets ifs i route.r_network s v pn old in
            let u =
              fill tree nets ifs i route (ip_route_tree_remove tree i s) o pn qm (no_network i old)
                (no_iface i old) in
            (
              ip_route_tree_insert tree i (put_route tree i route (ip_route_tree_remove tree i s)),
              update_old tree nets ifs i route s old,
              (
                u.0,
                (λ k p.
                    u.1 k p
                    ∙ ap (λ x. if k == route.r_network then some route else x)
                        (unlink-table tree nets ifs i route.r_network k s v pn p old)
                    ∙ covered (k == route.r_network) (some route) none (table tree s k)),
                u.2,
              ),
            )
      ]
    where
      no_network :
          (i : ℕ)
          → (tree route_network_cmp).find route.r_network s.rib_routetree ≡ some i
          → (tree route_network_cmp).find route.r_network
              (ip_route_tree_remove tree i s).rib_routetree
            ≡ none
      no_network i old =
          ap
            (λ x.
              (tree route_network_cmp).find route.r_network
                ((tree route_network_cmp).remove x i s.rib_routetree))
            (v.networks route.r_network i pn old).0
          ∙ nets.remove_self route.r_network i s.rib_routetree v.fits_networks pn old

      no_iface :
          (i : ℕ)
          → (tree route_network_cmp).find route.r_network s.rib_routetree ≡ some i
          → (tree route_iface_cmp).find route.r_iface (ip_route_tree_remove tree i s).rib_sourcetree
            ≡ none
      no_iface i old = elim (Option-cases ((tree route_iface_cmp).find route.r_iface removed)) [
        | inl free ↦ free
        | inr (j, e) ↦
            let (ne, e') =
              left_in ifs m route.r_iface i j s.rib_sourcetree v.fits_ifaces
                (v.networks route.r_network i pn old).2 qm at_m e in
            let same : j ≡ i = cc (alone j e', old) in
            absurd
              (ne (sym (v.ifaces route.r_iface j qm e').0 ∙ ap (λ x. (route_of s x).r_iface) same))
      ]
        where
          m : ℕ
          m = (route_of s i).r_iface

          removed : T
          removed = (tree route_iface_cmp).remove m i s.rib_sourcetree

          at_m : (tree route_iface_cmp).find m s.rib_sourcetree ≡ some i
          at_m = (v.networks route.r_network i pn old).3

      unused :
          (tree route_network_cmp).find route.r_network s.rib_routetree ≡ none
          → (tree route_iface_cmp).find route.r_iface s.rib_sourcetree ≡ none
      unused new =
          elim (Option-cases ((tree route_iface_cmp).find route.r_iface s.rib_sourcetree)) [
            | inl free ↦ free
            | inr (j, e) ↦ cc (alone j e, new)
          ]

      go :
          (list : List ℕ)
          → s.rib_freelist ≡ list
          → (tree route_network_cmp).find route.r_network s.rib_routetree ≡ none
          → (s' : Rib T) × (ip_route_update tree route s ≡ some (pos 0, s'))
            × Updated tree nets ifs route s s'
      go [] e new = elim room [ inl old ↦ absurd (old new) | inr free ↦ absurd (free e) ]
      go (i ∷ rest) e new =
          let s0 : Rib T = record s { rib_freelist = rest } in
          (
            ip_route_tree_insert tree i (put_route tree i route s0),
            update_new tree nets ifs i rest route s new e,
            fill tree nets ifs i route s0 (take-IsOpen tree nets ifs i rest s v e) pn qm new
                (unused new),
          )

  remove_ordered :
      (route : IpRoute) (errno : ℕ) (s : Rib T)
      → IsValid tree nets ifs s
      → P route.r_network
      → let (retval, errno', s') = ip_route_remove tree route errno s in
        IsValid tree nets ifs s'
        × ((k : ℕ)
            → P k
            → table tree s' k ≡ (if k == route.r_network then none else table tree s k))
        × (((retval ≡ negsuc 0)
              × (errno' ≡ enoent)
              × (s' ≡ s)
              × (table tree s route.r_network ≡ none))
            ⊎ ((retval ≡ pos 0)
                × (errno' ≡ errno)
                × ((entry : ℕ) × (s'.rib_freelist ≡ entry ∷ s.rib_freelist))))
  unfolding ip_route_entry_free ip_route_tree_remove
  remove_ordered route errno s v pn =
      elim (Option-cases ((tree route_network_cmp).find route.r_network s.rib_routetree)) [
        | inl free ↦
            rw (remove_none tree nets ifs route errno s free)
              (v, (λ k p. absent free k), inl (refl, refl, refl, ap (at_slot tree s.rib) free))
        | inr (i, old) ↦
            let o = unlink-IsOpen tree nets ifs i route.r_network s v pn old in
            rw (remove_some tree nets ifs i route errno s old) (
              free-IsValid tree nets ifs (put-IsOpen tree nets ifs no_route o),
              (λ k p.
                  put-table tree nets ifs no_route k p o
                  ∙ unlink-table tree nets ifs i route.r_network k s v pn p old),
              inr (refl, refl, (i, refl)),
            )
      ]
    where
      absent :
          (tree route_network_cmp).find route.r_network s.rib_routetree ≡ none
          → (k : ℕ) → table tree s k ≡ (if k == route.r_network then none else table tree s k)
      absent free k = elim (ℕ_discrete k route.r_network) [
        | yes same ↦
            rw (same_test k route.r_network same)
              (ap (λ x. table tree s x) same ∙ ap (at_slot tree s.rib) free)
        | no other ↦ rw (differ_test k route.r_network other) refl
      ]

  init_ordered :
      IsValid tree nets ifs (ip_route_init tree)
      × ((k : ℕ) → table tree (ip_route_init tree) k ≡ none)
  unfolding ip_route_init
  init_ordered = (
    record {
      networks = λ k i p e. cc (e, nets.find-empty k);
      ifaces = λ k i q e. cc (e, ifs.find-empty k);
      free = λ i listed. (omega arith, λ k p e. cc (e, nets.find-empty k));
      distinct = omega arith;
      fits_networks = nets.Fits-empty;
      fits_ifaces = ifs.Fits-empty;
    },
    (λ k. rw (nets.find-empty k) refl),
  )

-- The promise of the trees, for networks and interface addresses that the comparisons order.
module _ {T : Type 0} (tree : RbTrees ℕ T) (promise : IsRbTrees tree) {P Q : ℕ → Type 0}
    (net_order : IsOrder P route_network_cmp) (iface_order : IsOrder Q route_iface_cmp) where
  abbrev pub net_laws : OrderedLaws (tree route_network_cmp) P
  net_laws = promise P route_network_cmp net_order

  abbrev pub iface_laws : OrderedLaws (tree route_iface_cmp) Q
  iface_laws = promise Q route_iface_cmp iface_order

  -- Let the two comparisons order the networks and the interface addresses in use, those of the route
  -- among them, let the table be valid, and the interface of the route not be that of another
  -- network's route. If the network has a route already, or an entry is free, the update succeeds:
  -- the table is valid again, the network now has this route and every other of these networks what
  -- it had, and the route is found by its interface.
  pub ip_route_update_lem :
      (route : IpRoute) (s : Rib T)
      → IsValid tree net_laws iface_laws s
      → P route.r_network
      → Q route.r_iface
      → ((j : ℕ)
          → (tree route_iface_cmp).find route.r_iface s.rib_sourcetree ≡ some j
          → (tree route_network_cmp).find route.r_network s.rib_routetree ≡ some j)
      → ((tree route_network_cmp).find route.r_network s.rib_routetree ≢ none)
        ⊎ (s.rib_freelist ≢ [])
      → (s' : Rib T) × (ip_route_update tree route s ≡ some (pos 0, s'))
        × Updated tree net_laws iface_laws route s s'
  ip_route_update_lem route s v pn qm alone room =
      update_ordered tree net_laws iface_laws route s v pn qm alone room

  -- Let the two comparisons order the networks and the interface addresses in use, the network of the
  -- argument among them, and let the table be valid. A removal takes away the network's route and
  -- that of no other of these networks, keeps the table valid and frees the entry; without such a
  -- route it fails with ENOENT and changes nothing.
  pub ip_route_remove_lem :
      (route : IpRoute) (errno : ℕ) (s : Rib T)
      → IsValid tree net_laws iface_laws s
      → P route.r_network
      → let (retval, errno', s') = ip_route_remove tree route errno s in
        IsValid tree net_laws iface_laws s'
        × ((k : ℕ)
            → P k
            → table tree s' k ≡ (if k == route.r_network then none else table tree s k))
        × (((retval ≡ negsuc 0)
              × (errno' ≡ enoent)
              × (s' ≡ s)
              × (table tree s route.r_network ≡ none))
            ⊎ ((retval ≡ pos 0)
                × (errno' ≡ errno)
                × ((entry : ℕ) × (s'.rib_freelist ≡ entry ∷ s.rib_freelist))))
  ip_route_remove_lem route errno s v pn =
      remove_ordered tree net_laws iface_laws route errno s v pn

  -- The table that `ip_route_init` leaves is valid and has no route.
  pub ip_route_init-IsValid :
      IsValid tree net_laws iface_laws (ip_route_init tree)
      × ((k : ℕ) → table tree (ip_route_init tree) k ≡ none)
  ip_route_init-IsValid = init_ordered tree net_laws iface_laws
