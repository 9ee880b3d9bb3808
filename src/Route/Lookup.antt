-- ===== src/Route/Lookup.antt =====
-- What `ip_route_find_by_network` finds.
use mathlib.Core.Path.{subst}
use xstack_io.Prelude.{
  ℕ, ◌≡◌, refl, sym, ap, ◌∙◌, List, [], ◌∷◌, none, some, get_or, bit_and, same_test, differ_test,
  ℕ_discrete, ◌⊎◌, inl, inr, Option-cases,
}
use xstack_io.SlotTree.{IsOrder}
use xstack_io.RbTree.{In}
use xstack_io.RbTree.Ordered.{RbTrees, OrderedLaws, IsRbTrees}
use xstack_io.Route.Update.{net_laws, iface_laws}
use xstack_io.Route.{
  IpRoute, Rib, no_route, route_network_cmp, route_iface_cmp, first_match, match_entry,
  ip_route_find_by_network,
}
use xstack_io.Route.Valid.{IsValid, table, at_slot, route_of}

-- The route serves the address: its network is the address, or the address under its mask, or 0.
abbrev pub Serves : ℕ → IpRoute → Type 0
Serves addr r = (r.r_network ≡ addr) ⊎ (r.r_network ≡ bit_and addr r.r_netmask) ⊎ (r.r_network ≡ 0)

-- The entry's network is the address under its mask.
abbrev Masks : List IpRoute → ℕ → ℕ → Type 0
Masks rib addr i = let r = get_or rib i no_route in r.r_network ≡ bit_and addr r.r_netmask

module _ {T : Type 0} (tree : RbTrees ℕ T) (rib : List IpRoute) (addr : ℕ) where
  -- The walk stops at an entry of the list that masks the address, or passes over every one.
  first_match_lem :
      (list : List ℕ)
      → ((i : ℕ) × (first_match tree rib addr list ≡ some i) × In i list × Masks rib addr i)
        ⊎ ((first_match tree rib addr list ≡ none) × ((i : ℕ) → In i list → ¬ Masks rib addr i))
  unfolding first_match
  first_match_lem [] = inr (refl, λ i m. elim m [ ])
  first_match_lem (x ∷ xs) =
      let r = get_or rib x no_route in
      elim (ℕ_discrete r.r_network (bit_and addr r.r_netmask)) [
        | yes e ↦ inl (x, rw (same_test r.r_network (bit_and addr r.r_netmask) e) refl, inl refl, e)
        | no ne ↦
            rw (differ_test r.r_network (bit_and addr r.r_netmask) ne) (elim (first_match_lem xs) [
              | inl (i, e, m, masks) ↦ inl (i, e, inr m, masks)
              | inr (e, none_masks) ↦ inr (e, λ i m. passed_over i ne none_masks m)
            ])
      ]
    where
      passed_over :
          (i : ℕ)
          → ¬ Masks rib addr x
          → ((j : ℕ) → In j xs → ¬ Masks rib addr j)
          → In i (x ∷ xs)
          → ¬ Masks rib addr i
      passed_over i ne all (inl e) masks = ne (subst (Masks rib addr) (sym e) masks)
      passed_over i ne all (inr m) masks = all i m masks

module _ {T : Type 0} (tree : RbTrees ℕ T) where
  -- The three stages of the search.
  exact :
      (addr i : ℕ) (s : Rib T)
      → (tree route_network_cmp).find addr s.rib_routetree ≡ some i
      → ip_route_find_by_network tree addr s ≡ some (route_of s i)
  unfolding ip_route_find_by_network match_entry
  exact addr i s e = rw (ip_route_find_by_network, match_entry, e) refl

  masked :
      (addr i : ℕ) (s : Rib T)
      → (tree route_network_cmp).find addr s.rib_routetree ≡ none
      → first_match tree s.rib addr ((tree route_network_cmp).to_list s.rib_routetree) ≡ some i
      → ip_route_find_by_network tree addr s ≡ some (route_of s i)
  unfolding ip_route_find_by_network match_entry
  masked addr i s e m = rw (ip_route_find_by_network, match_entry, e, m) refl

  by_default :
      (addr : ℕ) (s : Rib T)
      → (tree route_network_cmp).find addr s.rib_routetree ≡ none
      → first_match tree s.rib addr ((tree route_network_cmp).to_list s.rib_routetree) ≡ none
      → ip_route_find_by_network tree addr s ≡ table tree s 0
  unfolding ip_route_find_by_network match_entry
  by_default addr s e m = elim (Option-cases ((tree route_network_cmp).find 0 s.rib_routetree)) [
    | inl f ↦ rw (ip_route_find_by_network, match_entry, e, m, f) refl
    | inr (i, f) ↦ rw (ip_route_find_by_network, match_entry, e, m, f) refl
  ]

module _ {T : Type 0} (tree : RbTrees ℕ T) {P Q : ℕ → Type 0}
    (nets : OrderedLaws (tree route_network_cmp) P)
    (ifs : OrderedLaws (tree route_iface_cmp) Q) where
  module _ (addr : ℕ) (s : Rib T) (v : IsValid tree nets ifs s) (inside : P addr)
      (zero_in : P 0) where
    abbrev pub FoundOrUnserved : Type 0
    FoundOrUnserved =
        ((r : IpRoute) × (ip_route_find_by_network tree addr s ≡ some r)
          × Serves addr r
          × (table tree s r.r_network ≡ some r))
        ⊎ ((ip_route_find_by_network tree addr s ≡ none)
            × ((k : ℕ) (r : IpRoute) → P k → table tree s k ≡ some r → ¬ Serves addr r))

    linked :
        (k i : ℕ)
        → P k
        → (tree route_network_cmp).find k s.rib_routetree ≡ some i
        → (tree route_network_cmp).find (route_of s i).r_network s.rib_routetree ≡ some i
    linked k i p e =
        ap (λ x. (tree route_network_cmp).find x s.rib_routetree) (v.networks k i p e).0 ∙ e

    in_table :
        (k i : ℕ)
        → P k
        → (tree route_network_cmp).find k s.rib_routetree ≡ some i
        → table tree s (route_of s i).r_network ≡ some (route_of s i)
    in_table k i p e = ap (at_slot tree s.rib) (linked k i p e)

    exact_first :
        (r : IpRoute) → table tree s addr ≡ some r → ip_route_find_by_network tree addr s ≡ some r
    exact_first r at = elim (Option-cases ((tree route_network_cmp).find addr s.rib_routetree)) [
      | inl e ↦ cc (at, ap (at_slot tree s.rib) e)
      | inr (i, e) ↦ exact tree addr i s e ∙ sym (ap (at_slot tree s.rib) e) ∙ at
    ]

    -- No linked entry serves the address if all three stages fail.
    unserved :
        (tree route_network_cmp).find addr s.rib_routetree ≡ none
        → ((i : ℕ) → In i ((tree route_network_cmp).to_list s.rib_routetree) → ¬ Masks s.rib addr i)
        → (tree route_network_cmp).find 0 s.rib_routetree ≡ none
        → (k i : ℕ) → P k
        → (tree route_network_cmp).find k s.rib_routetree ≡ some i
        → ¬ Serves addr (route_of s i)
    unserved no_exact no_mask no_default k i p e (inl q) = cc (linked k i p e, q, no_exact)
    unserved no_exact no_mask no_default k i p e (inr (inl q)) =
        no_mask i ((nets.to_list_iff i s.rib_routetree v.fits_networks).1 (k, p, e)) q
    unserved no_exact no_mask no_default k i p e (inr (inr q)) = cc (linked k i p e, q, no_default)

    not_in_table :
        ((k i : ℕ)
          → P k
          → (tree route_network_cmp).find k s.rib_routetree ≡ some i
          → ¬ Serves addr (route_of s i))
        → (k : ℕ) (r : IpRoute) → P k
        → table tree s k ≡ some r
        → ¬ Serves addr r
    not_in_table none_serves k r p at served =
        elim (Option-cases ((tree route_network_cmp).find k s.rib_routetree)) [
          | inl e ↦ cc (at, ap (at_slot tree s.rib) e)
          | inr (i, e) ↦
              let it : r ≡ route_of s i = cc (at, ap (at_slot tree s.rib) e) in
              none_serves k i p e (subst (Serves addr) it served)
        ]

    by_stages : FoundOrUnserved
    by_stages = elim (Option-cases ((tree route_network_cmp).find addr s.rib_routetree)) [
      | inr (i, e) ↦ inl (
        route_of s i,
        exact tree addr i s e,
        inl (v.networks addr i inside e).0,
        in_table addr i inside e,
      )
      | inl no_exact ↦
          elim (first_match_lem tree s.rib addr
            ((tree route_network_cmp).to_list s.rib_routetree)) [
              | inl (i, m, listed, masks) ↦
                  let (k, p, e) = (nets.to_list_iff i s.rib_routetree v.fits_networks).0 listed in
                  inl (
                    route_of s i,
                    masked tree addr i s no_exact m,
                    inr (inl masks),
                    in_table k i p e,
                  )
              | inr (m, no_mask) ↦
                  let last = by_default tree addr s no_exact m in
                  elim (Option-cases ((tree route_network_cmp).find 0 s.rib_routetree)) [
                    | inr (i, e) ↦ inl (
                      route_of s i,
                      last ∙ ap (at_slot tree s.rib) e,
                      inr (inr (v.networks 0 i zero_in e).0),
                      in_table 0 i zero_in e,
                    )
                    | inl no_default ↦ inr (
                      last ∙ ap (at_slot tree s.rib) no_default,
                      not_in_table (unserved no_exact no_mask no_default),
                    )
                  ]
            ]
    ]

module _ {T : Type 0} (tree : RbTrees ℕ T) (promise : IsRbTrees tree) {P Q : ℕ → Type 0}
    (net_order : IsOrder P route_network_cmp) (iface_order : IsOrder Q route_iface_cmp) where
  -- Let the two comparisons order the networks and the interface addresses in use, the address that is
  -- searched and 0 among the networks, and let the table be valid. The search gives the route of the
  -- address itself where the table has one, and always a route of the table that serves the address,
  -- as its network, under its mask or by default. It fails only if no route of these networks does.
  pub ip_route_find_by_network_lem :
      (addr : ℕ) (s : Rib T)
      → IsValid tree
          (net_laws tree promise net_order iface_order)
          (iface_laws tree promise net_order iface_order)
          s
      → P addr
      → P 0
      → ((r : IpRoute) → table tree s addr ≡ some r → ip_route_find_by_network tree addr s ≡ some r)
        × (((r : IpRoute) × (ip_route_find_by_network tree addr s ≡ some r)
              × Serves addr r
              × (table tree s r.r_network ≡ some r))
            ⊎ ((ip_route_find_by_network tree addr s ≡ none)
                × ((k : ℕ) (r : IpRoute) → P k → table tree s k ≡ some r → ¬ Serves addr r)))
  ip_route_find_by_network_lem addr s v inside zero_in =
      let nets = net_laws tree promise net_order iface_order in
      let ifs = iface_laws tree promise net_order iface_order in
      (
        exact_first tree nets ifs addr s v inside zero_in,
        by_stages tree nets ifs addr s v inside zero_in,
      )
