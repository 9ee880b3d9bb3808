-- ===== src/SlotTree.antt =====
-- The red-black trees of src/tree.h, which are not part of the program, for elements of an array
-- whose keys the program writes in place. A tree links slots, and reads their keys through the
-- array: `find`, `insert` and `remove` are RB_FIND, RB_INSERT and RB_REMOVE, and `to_list` is the
-- order of RB_FOREACH. The laws are what the macros promise while the tree is a search tree for the
-- keys in the array and the comparison orders these.
pub mod Slots
use xstack_io.Prelude.{
  ℕ, ◌≡◌, ◌≢◌, ◌⊎◌, ◌↔◌, Option, none, some, Bool, true, false, ◌<◌, length, get_or, List,
}
use xstack_io.Prelude.Int.{ℤ, pos, is_neg}
use xstack_io.RbTree.{In}

-- What RB_REMOVE does to an element that is not in the tree is left open.
pub record SlotTree (T : Type 0) : Type 0 where
  pub empty : T
  pub find : (ℕ → ℕ → ℤ) → (ℕ → ℕ) → ℕ → T → Option ℕ
  pub insert : (ℕ → ℕ → ℤ) → (ℕ → ℕ) → ℕ → T → T
  pub remove : ℕ → T → T
  pub to_list : T → List ℕ

-- The comparison is a total order on the keys that meet `P`.
pub record IsOrder {K : Type 0} (P : K → Type 0) (cmp : K → K → ℤ) : Type 0 where
  pub cmp_refl : (a : K) → P a → cmp a a ≡ pos 0
  pub cmp_zero : (a b : K) → P a → P b → cmp a b ≡ pos 0 → a ≡ b
  pub cmp_flip : (a b : K) → P a → P b → a ≢ b → is_neg (cmp a b) ≡ false → is_neg (cmp b a) ≡ true
  pub cmp_trans :
      (a b c : K)
      → P a
      → P b
      → P c
      → is_neg (cmp a b) ≡ true
      → is_neg (cmp b c) ≡ true
      → is_neg (cmp a c) ≡ true

-- `Fits keys t`: `t` is a search tree for the keys, and these meet `P`.
pub record SlotLaws {T : Type 0} (tree : SlotTree T) (P : ℕ → Type 0) (cmp : ℕ → ℕ → ℤ)
    : Type 1 where
  pub Fits : (ℕ → ℕ) → T → Type 0
  pub Fits-empty : (keys : ℕ → ℕ) → Fits keys tree.empty
  pub In-empty : (i : ℕ) → In i (tree.to_list tree.empty) → ⊥
  pub Fits_agree :
      (keys keys' : ℕ → ℕ) (t : T)
      → ((i : ℕ) → In i (tree.to_list t) → keys' i ≡ keys i)
      → Fits keys t
      → Fits keys' t
  pub find_in :
      (keys : ℕ → ℕ) (i : ℕ) (t : T)
      → Fits keys t
      → In i (tree.to_list t)
      → tree.find cmp keys (keys i) t ≡ some i
  pub find_out :
      (keys : ℕ → ℕ) (k : ℕ) (t : T)
      → Fits keys t
      → P k
      → ((i : ℕ) → In i (tree.to_list t) → keys i ≢ k)
      → tree.find cmp keys k t ≡ none
  pub Fits-insert :
      (keys : ℕ → ℕ) (i : ℕ) (t : T)
      → Fits keys t
      → P (keys i)
      → ((j : ℕ) → In j (tree.to_list t) → keys j ≢ keys i)
      → Fits keys (tree.insert cmp keys i t)
  pub In-insert :
      (keys : ℕ → ℕ) (i : ℕ) (t : T)
      → Fits keys t
      → P (keys i)
      → ((j : ℕ) → In j (tree.to_list t) → keys j ≢ keys i)
      → (j : ℕ) → In j (tree.to_list (tree.insert cmp keys i t)) ↔ ((i ≡ j) ⊎ In j (tree.to_list t))
  pub insert_taken :
      (keys : ℕ → ℕ) (i j : ℕ) (t : T)
      → Fits keys t
      → In j (tree.to_list t)
      → keys j ≡ keys i
      → tree.insert cmp keys i t ≡ t
  pub Fits-remove :
      (keys : ℕ → ℕ) (i : ℕ) (t : T)
      → Fits keys t
      → In i (tree.to_list t)
      → Fits keys (tree.remove i t)
  pub In-remove :
      (keys : ℕ → ℕ) (i : ℕ) (t : T)
      → Fits keys t
      → In i (tree.to_list t)
      → (j : ℕ) → In j (tree.to_list (tree.remove i t)) ↔ ((i ≢ j) × In j (tree.to_list t))

-- The promise holds for every comparison that is an order.
abbrev pub IsSlotTree : {T : Type 0} → SlotTree T → Type 1
IsSlotTree tree = (P : ℕ → Type 0) (cmp : ℕ → ℕ → ℤ) → IsOrder P cmp → SlotLaws tree P cmp
