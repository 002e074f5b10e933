-- ===== src/Rbtree/Insert.antt =====
-- Insertion into the red-black tree, u80211_rbtree_insert of src/rbtree.c.
use u.Common.{Option, none, some, List, [], ◌∷◌}
use u.Rbtree.{
  ◌>>=◌, Colour, black, red, Tree, nil, node, Comparison, less, equal, greater, Side, left, right,
  Frame, frame, join, zip, rotate_left, rotate_right,
}

module _ {ℓ} {A : Type ℓ} where
  -- Down to the null pointer where the new node is put: the parents of that place.
  unfoldable pub place : (A → Comparison) → Tree A → List (Frame A) → List (Frame A)
  place compare nil p = p
  place compare (node c l x r) p = elim (compare x) [
    | greater ↦ place compare r (frame right c x l ∷ p)
    | equal ↦ place compare l (frame left c x r ∷ p)
    | less ↦ place compare l (frame left c x r ∷ p)
  ]

  -- If the node and its parent are children at opposite sides, a rotation of the node over the
  -- parent straightens them; the result is the new subtree below the grandparent.
  abbrev pub straighten : Side → Side → Tree A → Option (Tree A)
  straighten left right t = rotate_left t
  straighten right left t = rotate_right t
  straighten left left t = some t
  straighten right right t = some t

  -- The rotation of the parent over the grandparent.
  abbrev pub rotate_over : Side → Tree A → Option (Tree A)
  rotate_over left t = rotate_right t
  rotate_over right t = rotate_left t

  -- The colours after a rotation: the node that has come up is black, the one that has gone down at
  -- the other side red.
  abbrev pub recolour : Side → Tree A → Option (Tree A)
  recolour left (node c l x (node d m y r)) = some (node black l x (node red m y r))
  recolour left (node c l x nil) = none
  recolour right (node c (node d l x m) y r) = some (node black (node red l x m) y r)
  recolour right (node c nil y r) = none
  recolour e nil = none

  -- What follows the loop: the parent `t` is a red child of the grandparent, whose other child is
  -- black.
  unfoldable pub rotate_up :
      Side → Tree A → Side → Colour → A → Tree A → List (Frame A) → Option (Tree A)
  rotate_up d t e c x s p = do
    parent ← straighten e d t
    turned ← rotate_over e (join e c parent x s)
    coloured ← recolour e turned
    some (zip coloured p)

  -- The root is never made red.
  abbrev pub grand_parent_colour : Colour → List (Frame A) → Colour
  grand_parent_colour c [] = c
  grand_parent_colour c (f ∷ p) = red

  -- The loop up from a node that may be a red child of a red parent.
  unfoldable pub fix_up : Tree A → List (Frame A) → Option (Tree A)
  fix_up t [] = some t
  fix_up t (frame d black x s ∷ p) = some (zip (join d black t x s) p)
  fix_up t (frame d red x s ∷ []) = none
  fix_up t (frame d red x s ∷ frame e c y nil ∷ p) = rotate_up d (join d red t x s) e c y nil p
  fix_up t (frame d red x s ∷ frame e c y (node black l z r) ∷ p) =
      rotate_up d (join d red t x s) e c y (node black l z r) p
  fix_up t (frame d red x s ∷ frame e c y (node red l z r) ∷ p) =
      fix_up (join e (grand_parent_colour c p) (join d black t x s) y (node black l z r)) p

  unfoldable pub insert : (A → A → Comparison) → A → Tree A → Option (Tree A)
  unfolding place fix_up rotate_up
  insert compare v nil = some (node black nil v nil)
  insert compare v (node c l x r) =
      fix_up (node red nil v nil) (place (compare v) (node c l x r) [])
