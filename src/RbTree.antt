-- ===== src/RbTree.antt =====
-- The program's use of the red-black trees of src/tree.h, which are not part of it. A tree links
-- slots of an array, or nodes of a heap, under keys; `find`, `insert`, `remove` and `to_list` are
-- RB_FIND, RB_INSERT, RB_REMOVE and the order of RB_FOREACH. The laws are what the macros promise
-- for a comparison that orders the keys in use.
pub mod Assoc
pub mod Ordered
use xstack_io.Prelude.{ℕ, ◌≡◌, ◌≢◌, ◌⊎◌, ◌↔◌, List, [], ◌∷◌, Option, none, some}

-- The list holds the number.
abbrev pub In : ℕ → List ℕ → Type 0
In i [] = ⊥
In i (x ∷ xs) = (x ≡ i) ⊎ In i xs

pub record RbTree (K T : Type 0) : Type 0 where
  pub empty : T
  pub find : K → T → Option ℕ
  pub insert : K → ℕ → T → T × Option ℕ  -- the node that stands in the way is returned
  pub remove : K → ℕ → T → T
  pub to_list : T → List ℕ

pub record IsRbTree {K T : Type 0} (tree : RbTree K T) : Type 0 where
  pub find-empty : (k : K) → tree.find k tree.empty ≡ none
  pub insert_free :
      (k : K) (i : ℕ) (t : T)
      → tree.find k t ≡ none
      → (tree.find k (tree.insert k i t).0 ≡ some i) × ((tree.insert k i t).1 ≡ none)
  pub insert_taken :
      (k : K) (i j : ℕ) (t : T) → tree.find k t ≡ some j → tree.insert k i t ≡ (t, some j)
  pub insert_other :
      (k q : K) (i : ℕ) (t : T) → q ≢ k → tree.find q (tree.insert k i t).0 ≡ tree.find q t
  pub remove_self :
      (k : K) (i : ℕ) (t : T) → tree.find k t ≡ some i → tree.find k (tree.remove k i t) ≡ none
  pub remove_other :
      (k q : K) (i : ℕ) (t : T)
      → tree.find k t ≡ some i
      → q ≢ k
      → tree.find q (tree.remove k i t) ≡ tree.find q t
  pub to_list_iff : (i : ℕ) (t : T) → In i (tree.to_list t) ↔ ((k : K) × (tree.find k t ≡ some i))
