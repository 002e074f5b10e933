-- ===== src/Rbtree.antt =====
-- The red-black tree, src/rbtree.c and include/u80211/rbtree.h. The nodes stand in a tree of values;
-- a pointer to a node is the node's subtree together with the chain of its parents, which the
-- parent pointers give the source. `none` stands for an access through a null pointer.
pub mod Insert
pub mod Remove
pub mod Sequence
pub mod Balance
pub mod Search
pub mod Order
use u.Common.{Option, none, some, List, [], ◌∷◌}

pub data Colour : Type 0 where
  black red : Colour

pub data Tree {ℓ} (A : Type ℓ) : Type ℓ where
  nil : Tree A
  node : Colour → Tree A → A → Tree A → Tree A

infixl 5 ◌>>=◌
abbrev pub ◌>>=◌ {ℓ κ} : {A : Type ℓ} {B : Type κ} → Option A → (A → Option B) → Option B
none >>= f = none
some a >>= f = f a

-- What a comparison returns: -1, 0 or 1.
pub data Comparison : Type 0 where
  less equal greater : Comparison

-- Which child of its parent a node is.
pub data Side : Type 0 where
  left right : Side

-- The parent of a node: the side at which the node stands, the parent's colour and value, and the
-- parent's other child.
pub data Frame {ℓ} (A : Type ℓ) : Type ℓ where
  frame : Side → Colour → A → Tree A → Frame A

-- A pointer to a node: its parents stand with the nearest first.
pub record Node {ℓ} (A : Type ℓ) : Type ℓ where
  pub colour : Colour
  pub left_child : Tree A
  pub value : A
  pub right_child : Tree A
  pub parents : List (Frame A)

module _ {ℓ} {A : Type ℓ} where
  -- The colour of a null pointer is black.
  abbrev pub colour_of : Tree A → Colour
  colour_of nil = black
  colour_of (node c l x r) = c

  -- A null pointer has no colour to set.
  abbrev pub set_colour : Colour → Tree A → Option (Tree A)
  set_colour c nil = none
  set_colour c (node _ l x r) = some (node c l x r)

  -- The subtree at a parent with the child `t` at the side and `s` at the other.
  abbrev pub join : Side → Colour → Tree A → A → Tree A → Tree A
  join left c t x s = node c t x s
  join right c t x s = node c s x t

  -- The whole tree, from a node's subtree and its parents.
  abbrev pub zip : Tree A → List (Frame A) → Tree A
  zip t [] = t
  zip t (frame d c x s ∷ p) = zip (join d c t x s) p

  abbrev pub subtree : Node A → Tree A
  subtree n = node n.colour n.left_child n.value n.right_child

  abbrev pub tree_of : Node A → Tree A
  tree_of n = zip (subtree n) n.parents

  -- `rotate_right` on the subtree at the parent of the node that it is called with.
  abbrev pub rotate_right : Tree A → Option (Tree A)
  rotate_right (node pc (node c l x r) px s) = some (node c l x (node pc r px s))
  rotate_right (node pc nil px s) = none
  rotate_right nil = none

  abbrev pub rotate_left : Tree A → Option (Tree A)
  rotate_left (node pc s px (node c l x r)) = some (node c (node pc s px l) x r)
  rotate_left (node pc s px nil) = none
  rotate_left nil = none

  -- Down from a node to the left as far as it goes.
  unfoldable pub leftmost : Colour → Tree A → A → Tree A → List (Frame A) → Node A
  leftmost c nil x r p = record {
    colour = c;
    left_child = nil;
    value = x;
    right_child = r;
    parents = p;
  }
  leftmost c (node c' l' x' r') x r p = leftmost c' l' x' r' (frame left c x r ∷ p)

  unfoldable pub rightmost : Colour → Tree A → A → Tree A → List (Frame A) → Node A
  rightmost c l x nil p = record {
    colour = c;
    left_child = l;
    value = x;
    right_child = nil;
    parents = p;
  }
  rightmost c l x (node c' l' x' r') p = rightmost c' l' x' r' (frame right c x l ∷ p)

  unfoldable pub first : Tree A → Option (Node A)
  first nil = none
  first (node c l x r) = some (leftmost c l x r [])

  unfoldable pub last : Tree A → Option (Node A)
  last nil = none
  last (node c l x r) = some (rightmost c l x r [])

  -- Up from a subtree until a left child is left.
  unfoldable pub leave_left : Tree A → List (Frame A) → Option (Node A)
  leave_left t [] = none
  leave_left t (frame left c x s ∷ p) =
      some (record { colour = c; left_child = t; value = x; right_child = s; parents = p })
  leave_left t (frame right c x s ∷ p) = leave_left (node c s x t) p

  unfoldable pub leave_right : Tree A → List (Frame A) → Option (Node A)
  leave_right t [] = none
  leave_right t (frame right c x s ∷ p) =
      some (record { colour = c; left_child = s; value = x; right_child = t; parents = p })
  leave_right t (frame left c x s ∷ p) = leave_right (node c t x s) p

  -- The next node, `none` at the end of the tree.
  unfoldable pub successor : Node A → Option (Node A)
  successor n = elim n.right_child [
    | nil ↦ leave_left (subtree n) n.parents
    | node c l x r ↦ some (leftmost c l x r (frame right n.colour n.value n.left_child ∷ n.parents))
  ]

  unfoldable pub predecessor : Node A → Option (Node A)
  predecessor n = elim n.left_child [
    | nil ↦ leave_right (subtree n) n.parents
    | node c l x r ↦
        some (rightmost c l x r (frame left n.colour n.value n.right_child ∷ n.parents))
  ]

  -- The loop of a lookup, with the comparison of the key that is looked for.
  unfoldable pub lookup_from : (A → Comparison) → Tree A → List (Frame A) → Option (Node A)
  lookup_from compare nil p = none
  lookup_from compare (node c l x r) p = elim (compare x) [
    | equal ↦ some (record { colour = c; left_child = l; value = x; right_child = r; parents = p })
    | greater ↦ lookup_from compare r (frame right c x l ∷ p)
    | less ↦ lookup_from compare l (frame left c x r ∷ p)
  ]

  abbrev pub lookup : (A → Comparison) → Tree A → Option (Node A)
  lookup compare t = lookup_from compare t []

  -- The loop of the search for the first node that is not smaller, with the best one so far.
  unfoldable pub larger_equal_from :
      (A → Comparison) → Tree A → List (Frame A) → Option (Node A) → Option (Node A)
  larger_equal_from compare nil p found = found
  larger_equal_from compare (node c l x r) p found =
      let here : Node A = record {
        colour = c;
        left_child = l;
        value = x;
        right_child = r;
        parents = p;
      } in
      elim (compare x) [
        | equal ↦ some here
        | less ↦ larger_equal_from compare l (frame left c x r ∷ p) (some here)
        | greater ↦ larger_equal_from compare r (frame right c x l ∷ p) found
      ]

  abbrev pub find_first_larger_equal : (A → Comparison) → Tree A → Option (Node A)
  find_first_larger_equal compare t = larger_equal_from compare t [] none
