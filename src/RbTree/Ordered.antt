-- ===== src/RbTree/Ordered.antt =====
-- The red-black trees of src/tree.h that RB_GENERATE makes for a comparison. The laws are what the
-- macros promise while the comparison orders the keys in use.
use mathlib.Core.Path.{subst}
use xstack_io.Prelude.{ℕ, ◌≡◌, ◌≢◌, sym, ◌∙◌, ◌↔◌, none, some}
use xstack_io.Prelude.Int.{ℤ}
use xstack_io.SlotTree.{IsOrder}
use xstack_io.RbTree.{RbTree, IsRbTree, In}

-- The trees for each comparison.
abbrev pub RbTrees : Type 0 → Type 0 → Type 0
RbTrees K T = (K → K → ℤ) → RbTree K T

-- `Fits t`: the keys in `t` meet `P`. Nothing is said of a tree with other keys, nor of other keys.
pub record OrderedLaws {K T : Type 0} (tree : RbTree K T) (P : K → Type 0) : Type 1 where
  pub Fits : T → Type 0
  pub Fits-empty : Fits tree.empty
  pub Fits-insert : (k : K) (i : ℕ) (t : T) → Fits t → P k → Fits (tree.insert k i t).0
  pub Fits-remove :
      (k : K) (i : ℕ) (t : T) → Fits t → P k → tree.find k t ≡ some i → Fits (tree.remove k i t)
  pub find-empty : (k : K) → tree.find k tree.empty ≡ none
  pub insert_free :
      (k : K) (i : ℕ) (t : T)
      → Fits t
      → P k
      → tree.find k t ≡ none
      → tree.find k (tree.insert k i t).0 ≡ some i
  pub insert_other :
      (k q : K) (i : ℕ) (t : T)
      → Fits t
      → P k
      → P q
      → q ≢ k
      → tree.find q (tree.insert k i t).0 ≡ tree.find q t
  pub remove_self :
      (k : K) (i : ℕ) (t : T)
      → Fits t
      → P k
      → tree.find k t ≡ some i
      → tree.find k (tree.remove k i t) ≡ none
  pub remove_other :
      (k q : K) (i : ℕ) (t : T)
      → Fits t
      → P k
      → P q
      → tree.find k t ≡ some i
      → q ≢ k
      → tree.find q (tree.remove k i t) ≡ tree.find q t
  pub to_list_iff :
      (i : ℕ) (t : T) → Fits t → In i (tree.to_list t) ↔ ((k : K) × P k × (tree.find k t ≡ some i))

-- The promise holds for every comparison and all keys that it orders.
abbrev pub IsRbTrees : {K T : Type 0} → RbTrees K T → Type 1
IsRbTrees {K} trees = (P : K → Type 0) (cmp : K → K → ℤ) → IsOrder P cmp → OrderedLaws (trees cmp) P

-- A tree that meets the laws for all keys meets them for any.
pub all-OrderedLaws :
    {K T : Type 0} (dec : Discrete K) (tree : RbTree K T) (P : K → Type 0)
    → IsRbTree tree
    → OrderedLaws tree P
all-OrderedLaws {K} {T} dec tree P laws = record {
  Fits = λ t. (k : K) (i : ℕ) → tree.find k t ≡ some i → P k;
  Fits-empty = λ k i e. cc (e, laws.find-empty k);
  Fits-insert = λ k i t fits p q j e. elim (dec q k) [
    | yes same ↦ subst P (sym same) p
    | no other ↦ fits q j (sym (laws.insert_other k q i t other) ∙ e)
  ];
  Fits-remove = λ k i t fits p at q j e. elim (dec q k) [
    | yes same ↦ subst P (sym same) p
    | no other ↦ fits q j (sym (laws.remove_other k q i t at other) ∙ e)
  ];
  find-empty = laws.find-empty;
  insert_free = λ k i t fits p free. (laws.insert_free k i t free).0;
  insert_other = λ k q i t fits p p' other. laws.insert_other k q i t other;
  remove_self = λ k i t fits p at. laws.remove_self k i t at;
  remove_other = λ k q i t fits p p' at other. laws.remove_other k q i t at other;
  to_list_iff = λ i t fits. (
    (λ m. let (k, e) = (laws.to_list_iff i t).0 m in (k, fits k i e, e)),
    (λ w. (laws.to_list_iff i t).1 (w.0, w.2)),
  );
}
