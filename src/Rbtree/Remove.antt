-- ===== src/Rbtree/Remove.antt =====
-- Removal from the red-black tree, u80211_rbtree_remove of src/rbtree.c.
use u.Common.{Bool, true, false, not, ◌&&◌, if◌then◌else◌, Option, none, some, List, [], ◌∷◌, ◌++◌}
use u.Rbtree.{
  ◌>>=◌, Colour, black, red, Tree, nil, node, Side, left, right, Frame, frame, Node, colour_of,
  set_colour, zip, rotate_left, rotate_right, leftmost,
}
use u.Rbtree.Insert.{recolour}

abbrev pub is_black : Colour → Bool
is_black black = true
is_black red = false

module _ {ℓ} {A : Type ℓ} where
  -- The nephew at the node's own side, and the other.
  abbrev pub close_nephew : Side → Tree A → Tree A → Tree A
  close_nephew left l r = l
  close_nephew right l r = r

  abbrev pub far_nephew : Side → Tree A → Tree A → Tree A
  far_nephew left l r = r
  far_nephew right l r = l

  -- The condition for another round of the loop: the parent, the sibling and its children are black.
  abbrev pub all_black : Colour → Tree A → Option Bool
  all_black red s = some false
  all_black black nil = none
  all_black black (node red l x r) = some false
  all_black black (node black l x r) = some (is_black (colour_of l) && is_black (colour_of r))

  -- The rotation of the sibling over the parent, seen from the node: the sibling becomes the node's
  -- grandparent, and its child at the node's side the node's sibling.
  abbrev pub rotate_sibling : Side → Colour → A → Tree A → List (Frame A) → Option (List (Frame A))
  rotate_sibling d c x nil p = none
  rotate_sibling d c x (node sc l sx r) p =
      some (frame d c x (close_nephew d l r) ∷ frame d sc sx (far_nephew d l r) ∷ p)

  -- The colours after the last rotation: the sibling takes the parent's, and the parent and the far
  -- nephew are black.
  abbrev pub recolour_far : List (Frame A) → Option (List (Frame A))
  recolour_far (frame d c x close ∷ frame e sc sx far ∷ p) = do
    far' ← set_colour black far
    some (frame d black x close ∷ frame e c sx far' ∷ p)
  recolour_far (f ∷ []) = none
  recolour_far [] = none

  abbrev pub rotate_far : Side → Colour → A → Tree A → List (Frame A) → Option (List (Frame A))
  rotate_far d c x s p = do q ← rotate_sibling d c x s p; recolour_far q

  -- The rotation of a red close nephew over the sibling.
  abbrev pub rotate_close : Side → Tree A → Option (Tree A)
  rotate_close left s = do turned ← rotate_right s; recolour left turned
  rotate_close right s = do turned ← rotate_left s; recolour right turned

  -- What follows the case of a red sibling.
  unfoldable pub black_sibling :
      Side → Colour → A → Tree A → List (Frame A) → Option (List (Frame A))
  black_sibling d c x nil p = none
  black_sibling d c x (node sc l sx r) p =
      if not (is_black c) && is_black sc && is_black (colour_of l) && is_black (colour_of r)
      then some (frame d black x (node red l sx r) ∷ p)
      else (if not (is_black (colour_of (close_nephew d l r)))
            && is_black (colour_of (far_nephew d l r))
          then rotate_close d (node sc l sx r) >>= (λ s. rotate_far d c x s p)
          else rotate_far d c x (node sc l sx r) p)

  -- What follows the loop: a red sibling is rotated up first.
  unfoldable pub rotate_parent :
      Side → Colour → A → Tree A → List (Frame A) → Option (List (Frame A))
  unfolding black_sibling
  rotate_parent d c x nil p = black_sibling d c x nil p
  rotate_parent d c x (node black l sx r) p = black_sibling d c x (node black l sx r) p
  rotate_parent d c x (node red l sx r) p = do
    q ← rotate_sibling d red x (node black l sx r) p
    elim q [ [] ↦ none | (frame e pc px s) ∷ q' ↦ black_sibling e pc px s q' ]

  -- The rebalancing above a black node that is to be removed: the node's parents afterwards.
  unfoldable pub rebalance : List (Frame A) → Option (List (Frame A))
  unfolding rotate_parent
  rebalance [] = some []
  rebalance (frame d c x s ∷ p) = elim (all_black c s) [
    | none ↦ none
    | some true ↦ set_colour red s >>= (λ s'. rebalance p >>= (λ q. some (frame d c x s' ∷ q)))
    | some false ↦ rotate_parent d c x s p
  ]

  unfoldable pub remove_leaf : Colour → List (Frame A) → Option (Tree A)
  unfolding rebalance
  remove_leaf c [] = some nil
  remove_leaf red (f ∷ p) = some (zip nil (f ∷ p))
  remove_leaf black (f ∷ p) = do q ← rebalance (f ∷ p); some (zip nil q)

  -- The removal of a node with one child at most.
  unfoldable pub splice : Colour → Tree A → List (Frame A) → Option (Tree A)
  unfolding remove_leaf
  splice c nil p = remove_leaf c p
  splice c (node d l x r) p = some (zip (node black l x r) p)

  -- A node with two children takes the place and the colour of its successor, which comes up in
  -- its stead, and is removed there.
  unfoldable pub remove : Node A → Option (Tree A)
  unfolding splice leftmost
  remove n = elim n.left_child [
    | nil ↦ splice n.colour n.right_child n.parents
    | node lc ll lx lr ↦ elim n.right_child [
      | nil ↦ splice n.colour (node lc ll lx lr) n.parents
      | node rc rl rx rr ↦
          let next = leftmost rc rl rx rr [] in
          splice next.colour next.right_child
            (next.parents ++ frame right n.colour next.value (node lc ll lx lr) ∷ n.parents)
    ]
  ]
