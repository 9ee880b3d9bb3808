-- ===== src/Route/Valid.antt =====
-- The invariant of the routing table, the table that it stands for, and the entries that are free or
-- between the trees and the list.
use mathlib.Core.Path.{subst}
use xstack_io.Prelude.{
  ℕ, ◌<◌, ◌≡◌, ◌≢◌, refl, sym, ap, ◌∙◌, List, [], ◌∷◌, Option, none, some, length, set, get_or,
  length-set, inl, inr, get_or-set_ne,
}
use xstack_io.RbTree.{In}
use xstack_io.RbTree.Ordered.{RbTrees, OrderedLaws}
use xstack_io.Route.{
  IpRoute, Rib, no_route, route_network_cmp, route_iface_cmp, put_route, ip_route_entry_free,
}

abbrev pub Distinct : List ℕ → Type 0
Distinct [] = Unit
Distinct (x ∷ xs) = (¬ In x xs) × Distinct xs

abbrev pub route_of : {T : Type 0} → Rib T → ℕ → IpRoute
route_of s i = get_or s.rib i no_route

module _ {T : Type 0} (tree : RbTrees ℕ T) where
  abbrev pub at_slot : List IpRoute → Option ℕ → Option IpRoute
  at_slot rib none = none
  at_slot rib (some i) = some (get_or rib i no_route)

  -- The table that the state stands for: the route for each network.
  abbrev pub table : Rib T → ℕ → Option IpRoute
  table s k = at_slot s.rib ((tree route_network_cmp).find k s.rib_routetree)

module _ {T : Type 0} (tree : RbTrees ℕ T) {P Q : ℕ → Type 0}
    (nets : OrderedLaws (tree route_network_cmp) P)
    (ifs : OrderedLaws (tree route_iface_cmp) Q) where
  -- The networks in use meet `P` and the interface addresses `Q`. The entries of both trees are the
  -- same, each under the keys of its route, and no free entry is in a tree or twice in the list.
  pub record IsValid (s : Rib T) : Type 0 where
    pub networks :
        (k i : ℕ)
        → P k
        → (tree route_network_cmp).find k s.rib_routetree ≡ some i
        → ((route_of s i).r_network ≡ k)
          × (i < length s.rib)
          × Q (route_of s i).r_iface
          × ((tree route_iface_cmp).find (route_of s i).r_iface s.rib_sourcetree ≡ some i)
    pub ifaces :
        (k i : ℕ)
        → Q k
        → (tree route_iface_cmp).find k s.rib_sourcetree ≡ some i
        → ((route_of s i).r_iface ≡ k)
          × P (route_of s i).r_network
          × ((tree route_network_cmp).find (route_of s i).r_network s.rib_routetree ≡ some i)
    pub free :
        (i : ℕ)
        → In i s.rib_freelist
        → (i < length s.rib)
          × ((k : ℕ) → P k → (tree route_network_cmp).find k s.rib_routetree ≢ some i)
    pub distinct : Distinct s.rib_freelist
    pub fits_networks : nets.Fits s.rib_routetree
    pub fits_ifaces : ifs.Fits s.rib_sourcetree

  -- Entry `i` is between the trees and the list.
  pub record IsOpen (i : ℕ) (s : Rib T) : Type 0 where
    pub valid : IsValid s
    pub inside : i < length s.rib
    pub unlinked : (k : ℕ) → P k → (tree route_network_cmp).find k s.rib_routetree ≢ some i
    pub taken : ¬ In i s.rib_freelist

  -- An entry that is in no tree may change.
  pub put-IsOpen : {i : ℕ} {s : Rib T} (r : IpRoute) → IsOpen i s → IsOpen i (put_route tree i r s)
  put-IsOpen {i} {s} r o = record {
    valid = record {
      networks = λ k j p e.
          let v = o.valid.networks k j p e in
          rw (kept j (λ same. o.unlinked k p (e ∙ ap some (sym same))), length-set s.rib i r) v;
      ifaces = λ k j q e.
          let v = o.valid.ifaces k j q e in
          rw (kept j (λ same. o.unlinked _ v.1 (v.2 ∙ ap some (sym same)))) v;
      free = λ j m. rw (length-set s.rib i r) (o.valid.free j m);
      distinct = o.valid.distinct;
      fits_networks = o.valid.fits_networks;
      fits_ifaces = o.valid.fits_ifaces;
    };
    inside = rw (length-set s.rib i r) o.inside;
    unlinked = o.unlinked;
    taken = o.taken;
  }
    where
      kept : (j : ℕ) → i ≢ j → get_or (set s.rib i r) j no_route ≡ get_or s.rib j no_route
      kept j ne = get_or-set_ne s.rib i j r no_route ne

  pub put-table :
      {i : ℕ} {s : Rib T} (r : IpRoute) (k : ℕ)
      → P k
      → IsOpen i s
      → table tree (put_route tree i r s) k ≡ table tree s k
  put-table {i} {s} r k p o = go ((tree route_network_cmp).find k s.rib_routetree) refl
    where
      go :
          (o' : Option ℕ)
          → (tree route_network_cmp).find k s.rib_routetree ≡ o'
          → at_slot tree (set s.rib i r) o' ≡ at_slot tree s.rib o'
      go none e = refl
      go (some j) e =
          ap some
            (get_or-set_ne s.rib i j r no_route (λ same. o.unlinked k p (e ∙ ap some (sym same))))

  -- The first free entry is taken, and an entry is given back.
  pub take-IsOpen :
      (i : ℕ) (rest : List ℕ) (s : Rib T)
      → IsValid s
      → s.rib_freelist ≡ i ∷ rest
      → IsOpen i (record s { rib_freelist = rest })
  take-IsOpen i rest s v e = record {
    valid = record {
      networks = v.networks;
      ifaces = v.ifaces;
      free = λ j m. v.free j (rw e (inr m));
      distinct = distinct.1;
      fits_networks = v.fits_networks;
      fits_ifaces = v.fits_ifaces;
    };
    inside = (v.free i (rw e (inl refl))).0;
    unlinked = (v.free i (rw e (inl refl))).1;
    taken = distinct.0;
  }
    where
      distinct : Distinct (i ∷ rest)
      distinct = subst Distinct e v.distinct

  pub free-IsValid : {i : ℕ} {s : Rib T} → IsOpen i s → IsValid (ip_route_entry_free tree i s)
  unfolding ip_route_entry_free
  free-IsValid {i} {s} o = record {
    networks = o.valid.networks;
    ifaces = o.valid.ifaces;
    free = λ j m. elim m [ inl e ↦ rw (← e) (o.inside, o.unlinked) | inr m' ↦ o.valid.free j m' ];
    distinct = (o.taken, o.valid.distinct);
    fits_networks = o.valid.fits_networks;
    fits_ifaces = o.valid.fits_ifaces;
  }
