-- ===== src/Route/Links.antt =====
-- The trees of the routing table: what linking an entry and unlinking it does to the invariant and to
-- the table.
use mathlib.Core.Path.{subst}
use xstack_io.Prelude.{
  ℕ, ◌≡◌, ◌≢◌, refl, sym, ap, ◌∙◌, none, some, ◌==◌, if◌then◌else◌, same_test, differ_test,
  ℕ_discrete,
}
use xstack_io.RbTree.{RbTree, In}
use xstack_io.RbTree.Ordered.{RbTrees, OrderedLaws}
use xstack_io.Route.{
  Rib, route_network_cmp, route_iface_cmp, ip_route_tree_insert, ip_route_tree_remove,
}
use xstack_io.Route.Valid.{route_of, IsValid, IsOpen, table}

module _ {T : Type 0} {tree : RbTree ℕ T} {P : ℕ → Type 0} (laws : OrderedLaws tree P) where
  -- What a tree still finds after a removal is what it found before, under another key.
  pub left_in :
      (k q i j : ℕ) (t : T)
      → laws.Fits t
      → P k
      → P q
      → tree.find k t ≡ some i
      → tree.find q (tree.remove k i t) ≡ some j
      → (q ≢ k) × (tree.find q t ≡ some j)
  left_in k q i j t fits p p' at e = (ne, sym (laws.remove_other k q i t fits p p' at ne) ∙ e)
    where
      ne : q ≢ k
      ne same = cc (same, e, laws.remove_self k i t fits p at)

module _ {T : Type 0} (tree : RbTrees ℕ T) {P Q : ℕ → Type 0}
    (nets : OrderedLaws (tree route_network_cmp) P)
    (ifs : OrderedLaws (tree route_iface_cmp) Q) where
  -- An entry is linked under keys that are not in use.
  pub link-IsValid :
      {i : ℕ} {s : Rib T}
      → IsOpen tree nets ifs i s
      → P (route_of s i).r_network
      → Q (route_of s i).r_iface
      → (tree route_network_cmp).find (route_of s i).r_network s.rib_routetree ≡ none
      → (tree route_iface_cmp).find (route_of s i).r_iface s.rib_sourcetree ≡ none
      → IsValid tree nets ifs (ip_route_tree_insert tree i s)
  unfolding ip_route_tree_insert
  link-IsValid {i} {s} o pn qm new_network new_iface = record {
    networks = λ k j p e. elim (ℕ_discrete k n) [
      | yes same ↦ rw (in_rtree k j same e) (sym same, o.inside, qm, at_m)
      | no other ↦
          let v = o.valid.networks k j p (sym (nets.insert_other n k i rt fits_n pn p other) ∙ e) in
          (
            v.0,
            v.1,
            v.2,
            ifs.insert_other m (route_of s j).r_iface i st fits_m qm v.2
                  (λ q. cc (v.3, new_iface, q))
                ∙ v.3,
          )
    ];
    ifaces = λ k j p e. elim (ℕ_discrete k m) [
      | yes same ↦ rw (in_stree k j same e) (sym same, pn, at_n)
      | no other ↦
          let v = o.valid.ifaces k j p (sym (ifs.insert_other m k i st fits_m qm p other) ∙ e) in
          (
            v.0,
            v.1,
            nets.insert_other n (route_of s j).r_network i rt fits_n pn v.1
                  (λ q. cc (v.2, new_network, q))
                ∙ v.2,
          )
    ];
    free = λ j listed.
        let v = o.valid.free j listed in
        (
          v.0,
          λ k p e. elim (ℕ_discrete k n) [
            | yes same ↦ o.taken (subst (λ x. In x s.rib_freelist) (in_rtree k j same e) listed)
            | no other ↦ v.1 k p (sym (nets.insert_other n k i rt fits_n pn p other) ∙ e)
          ],
        );
    distinct = o.valid.distinct;
    fits_networks = nets.Fits-insert n i rt fits_n pn;
    fits_ifaces = ifs.Fits-insert m i st fits_m qm;
  }
    where
      rt : T
      rt = s.rib_routetree

      st : T
      st = s.rib_sourcetree

      n : ℕ
      n = (route_of s i).r_network

      m : ℕ
      m = (route_of s i).r_iface

      fits_n : nets.Fits rt
      fits_n = o.valid.fits_networks

      fits_m : ifs.Fits st
      fits_m = o.valid.fits_ifaces

      at_n : (tree route_network_cmp).find n ((tree route_network_cmp).insert n i rt).0 ≡ some i
      at_n = nets.insert_free n i rt fits_n pn new_network

      at_m : (tree route_iface_cmp).find m ((tree route_iface_cmp).insert m i st).0 ≡ some i
      at_m = ifs.insert_free m i st fits_m qm new_iface

      in_rtree :
          (k j : ℕ)
          → k ≡ n
          → (tree route_network_cmp).find k ((tree route_network_cmp).insert n i rt).0 ≡ some j
          → j ≡ i
      in_rtree k j same e = cc (same, e, at_n)

      in_stree :
          (k j : ℕ)
          → k ≡ m
          → (tree route_iface_cmp).find k ((tree route_iface_cmp).insert m i st).0 ≡ some j
          → j ≡ i
      in_stree k j same e = cc (same, e, at_m)

  pub link-table :
      (i : ℕ) (s : Rib T) (k : ℕ)
      → nets.Fits s.rib_routetree
      → P (route_of s i).r_network
      → P k
      → (tree route_network_cmp).find (route_of s i).r_network s.rib_routetree ≡ none
      → table tree (ip_route_tree_insert tree i s) k
        ≡ (if k == (route_of s i).r_network then some (route_of s i) else table tree s k)
  unfolding ip_route_tree_insert
  link-table i s k fits pn p new_network =
      let r = route_of s i in
      elim (ℕ_discrete k r.r_network) [
        | yes same ↦
            rw
              (
                same_test k r.r_network same,
                same,
                nets.insert_free r.r_network i s.rib_routetree fits pn new_network,
              )
              refl
        | no other ↦
            rw
              (
                differ_test k r.r_network other,
                nets.insert_other r.r_network k i s.rib_routetree fits pn p other,
              )
              refl
      ]

  -- An entry is unlinked from both trees.
  pub unlink-IsOpen :
      (i k : ℕ) (s : Rib T)
      → IsValid tree nets ifs s
      → P k
      → (tree route_network_cmp).find k s.rib_routetree ≡ some i
      → IsOpen tree nets ifs i (ip_route_tree_remove tree i s)
  unfolding ip_route_tree_remove
  unlink-IsOpen i k s v pk at = record {
    valid = record {
      networks = λ q j p e.
          let (ne, e') = left_in nets n q i j rt fits_n pn p at_n e in
          let v' = v.networks q j p e' in
          let apart : (route_of s j).r_iface ≢ m =
            λ p. ne (same_key q j (sym v'.0) (cc (v'.3, at_m, p))) in
          (
            v'.0,
            v'.1,
            v'.2,
            ifs.remove_other m (route_of s j).r_iface i st fits_m qm v'.2 at_m apart ∙ v'.3,
          );
      ifaces = λ q j p e.
          let (ne, e') = left_in ifs m q i j st fits_m qm p at_m e in
          let v' = v.ifaces q j p e' in
          let apart : (route_of s j).r_network ≢ n =
            λ p. ne (same_iface q j (sym v'.0) (cc (v'.2, at_n, p))) in
          (
            v'.0,
            v'.1,
            nets.remove_other n (route_of s j).r_network i rt fits_n pn v'.1 at_n apart ∙ v'.2,
          );
      free = λ j listed. (
        (v.free j listed).0,
        λ q p e. (v.free j listed).1 q p (left_in nets n q i j rt fits_n pn p at_n e).1,
      );
      distinct = v.distinct;
      fits_networks = nets.Fits-remove n i rt fits_n pn at_n;
      fits_ifaces = ifs.Fits-remove m i st fits_m qm at_m;
    };
    inside = (v.networks k i pk at).1;
    unlinked = λ q p e.
        let (ne, e') = left_in nets n q i i rt fits_n pn p at_n e in
        ne (sym (v.networks q i p e').0);
    taken = λ listed. (v.free i listed).1 k pk at;
  }
    where
      rt : T
      rt = s.rib_routetree

      st : T
      st = s.rib_sourcetree

      n : ℕ
      n = (route_of s i).r_network

      m : ℕ
      m = (route_of s i).r_iface

      at_n : (tree route_network_cmp).find n rt ≡ some i
      at_n = ap (λ x. (tree route_network_cmp).find x rt) (v.networks k i pk at).0 ∙ at

      at_m : (tree route_iface_cmp).find m st ≡ some i
      at_m = (v.networks k i pk at).3

      pn : P n
      pn = subst P (sym (v.networks k i pk at).0) pk

      qm : Q m
      qm = (v.networks k i pk at).2

      fits_n : nets.Fits rt
      fits_n = v.fits_networks

      fits_m : ifs.Fits st
      fits_m = v.fits_ifaces

      same_key : (q j : ℕ) → q ≡ (route_of s j).r_network → j ≡ i → q ≡ n
      same_key q j e p = e ∙ ap (λ x. (route_of s x).r_network) p

      same_iface : (q j : ℕ) → q ≡ (route_of s j).r_iface → j ≡ i → q ≡ m
      same_iface q j e p = e ∙ ap (λ x. (route_of s x).r_iface) p

  pub unlink-table :
      (i k q : ℕ) (s : Rib T)
      → IsValid tree nets ifs s
      → P k
      → P q
      → (tree route_network_cmp).find k s.rib_routetree ≡ some i
      → table tree (ip_route_tree_remove tree i s) q ≡ (if q == k then none else table tree s q)
  unfolding ip_route_tree_remove
  unlink-table i k q s v pk pq at =
      let key = (v.networks k i pk at).0 in
      rw key (elim (ℕ_discrete q k) [
        | yes same ↦
            rw
              (same_test q k same, same, nets.remove_self k i s.rib_routetree v.fits_networks pk at)
              refl
        | no other ↦
            rw
              (
                differ_test q k other,
                nets.remove_other k q i s.rib_routetree v.fits_networks pk pq at other,
              )
              refl
      ])
