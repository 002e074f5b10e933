-- ===== src/Rbtree/Balance/Removed.antt =====
-- Removal from the red-black tree of src/rbtree.c reads no null pointer and keeps the invariant.
use u.Common.{
  Bool-cases, inl, inr, ℕ, suc, ◌≡◌, refl, false, ◌&&◌, Option, some, List, [], ◌∷◌, ◌++◌, subst,
  arith,
}
use u.Rbtree.{
  Colour, black, red, Tree, nil, node, Side, left, right, Frame, frame, Node, colour_of, join, zip,
  leftmost, tree_of, subtree,
}
use u.Rbtree.Sequence.{leftmost-append, node_at}
use u.Rbtree.Remove.{
  is_black, all_black, black_sibling, rotate_parent, rebalance, remove_leaf, splice, remove,
}
use u.Rbtree.Balance.{
  black_height, IsRedBlack, IsValid, Allows, above, Fits, FitsIn, enter, zip-IsValid, unzip-FitsIn,
}

module _ {ℓ} {A : Type ℓ} where
  -- The parents afterwards take a subtree with one black node less.
  abbrev Lowers : ℕ → Option (List (Frame A)) → Type ℓ
  Lowers h o = (q : List (Frame A)) × (o ≡ some q) × Fits h q

  module _ (h : ℕ) (c : Colour) (x : A) (a : Tree A) (v : A) (b : Tree A) (y : A) (t : Tree A)
      (p : List (Frame A)) (allowed : Allows c p) (rest : Fits (above c (suc h)) p) where
    far_red :
        (d : Side)
        → IsRedBlack (join d black t y (node red a v b))
        → black_height t ≡ h
        → black_height a ≡ h
        → Lowers h (black_sibling d c x (join d black t y (node red a v b)) p)
    unfolding black_sibling
    far_red left s e k =
        (frame left black x t ∷ frame left c y (node black a v b) ∷ p, ground arith, ground arith)
    far_red right s e k =
        (frame right black x t ∷ frame right c y (node black a v b) ∷ p, ground arith, ground arith)

    close_red :
        (d : Side)
        → IsRedBlack (join d black (node red a v b) y t)
        → black_height t ≡ h
        → black_height a ≡ h
        → colour_of t ≡ black
        → Lowers h (black_sibling d c x (join d black (node red a v b) y t) p)
    unfolding black_sibling
    close_red left s e k ht =
        (frame left black x a ∷ frame left c v (node black b y t) ∷ p, ground arith, ground arith)
    close_red right s e k ht =
        (frame right black x b ∷ frame right c v (node black t y a) ∷ p, ground arith, ground arith)

  module _ (h : ℕ) (c : Colour) (x : A) (y : A) (p : List (Frame A)) (allowed : Allows c p)
      (rest : Fits (above c (suc h)) p) where
    both_black :
        (d : Side) (t s : Tree A)
        → IsRedBlack (join d black t y s)
        → black_height t ≡ h
        → colour_of t ≡ black
        → colour_of s ≡ black
        → all_black c (join d black t y s) ≡ some false
        → Lowers h (black_sibling d c x (join d black t y s) p)
    unfolding black_sibling
    both_black left t s w e ht hs n =
        (frame left black x (node red t y s) ∷ p, ground arith, ground arith)
    both_black right t s w e ht hs n =
        (frame right black x (node red s y t) ∷ p, ground arith, ground arith)

    black_far :
        (d : Side) (t s : Tree A)
        → IsRedBlack (join d black t y s)
        → black_height t ≡ h
        → black_height s ≡ h
        → colour_of s ≡ black
        → all_black c (join d black t y s) ≡ some false
        → Lowers h (black_sibling d c x (join d black t y s) p)
    black_far d nil s w e k hs n = both_black d nil s w e refl hs n
    black_far d (node black a v b) s w e k hs n = both_black d (node black a v b) s w e refl hs n
    black_far d (node red a v b) s w e k hs n = close_red h c x a v b y s p allowed rest d w k e hs

    any_far :
        (d : Side) (t s : Tree A)
        → IsRedBlack (join d black t y s)
        → black_height t ≡ h
        → black_height s ≡ h
        → all_black c (join d black t y s) ≡ some false
        → Lowers h (black_sibling d c x (join d black t y s) p)
    any_far d t nil w e k n = black_far d t nil w e k refl n
    any_far d t (node black a v b) w e k n = black_far d t (node black a v b) w e k refl n
    any_far d t (node red a v b) w e k n = far_red h c x a v b y t p allowed rest d w e k

  -- A sibling that is black, where not all are black.
  black_sibling-Lowers :
      (h : ℕ) (d : Side) (c : Colour) (x : A) (s : Tree A) (p : List (Frame A))
      → IsRedBlack s
      → black_height s ≡ suc h
      → colour_of s ≡ black
      → Allows c p
      → Fits (above c (suc h)) p
      → all_black c s ≡ some false
      → Lowers h (black_sibling d c x s p)
  black_sibling-Lowers h d c x nil p w e k allowed rest n = absurd (omega arith)
  black_sibling-Lowers h d c x (node red l y r) p w e k allowed rest n = cc
  black_sibling-Lowers h left c x (node black l y r) p w e k allowed rest n =
      any_far h c x y p allowed rest left l r w (omega arith) (omega arith) n
  black_sibling-Lowers h right c x (node black l y r) p w e k allowed rest n =
      any_far h c x y p allowed rest right r l w (omega arith) (omega arith) n

  rotate_parent-Lowers :
      (h : ℕ) (d : Side) (c : Colour) (x : A) (s : Tree A) (p : List (Frame A))
      → Fits (suc h) (frame d c x s ∷ p)
      → all_black c s ≡ some false
      → Lowers h (rotate_parent d c x s p)
  unfolding rotate_parent
  rotate_parent-Lowers h d c x nil p f n = absurd (omega arith)
  rotate_parent-Lowers h d c x (node black l y r) p f n =
      black_sibling-Lowers h d c x (node black l y r) p f.0 f.1 refl f.3 f.4 n
  rotate_parent-Lowers h d red x (node red l y r) p f n = cc
  rotate_parent-Lowers h left black x (node red l y r) p f n =
      black_sibling-Lowers h left red x l (frame left black y r ∷ p) (ground arith) (ground arith)
        (ground arith) refl (ground arith) refl
  rotate_parent-Lowers h right black x (node red l y r) p f n =
      black_sibling-Lowers h right red x r (frame right black y l ∷ p) (ground arith) (ground arith)
        (ground arith) refl (ground arith) refl

  -- One round with a black parent and a black sibling.
  round-Lowers :
      (h : ℕ) (d : Side) (x : A) (l : Tree A) (y : A) (r : Tree A) (p : List (Frame A))
      → Fits (suc h) (frame d black x (node black l y r) ∷ p)
      → Lowers (suc h) (rebalance p)
      → Lowers h (rebalance (frame d black x (node black l y r) ∷ p))
  unfolding rebalance
  round-Lowers h d x l y r p f (q, e, fits) =
      elim (Bool-cases (is_black (colour_of l) && is_black (colour_of r))) [
        | inl all ↦
            (frame d black x (node red l y r) ∷ q, ground (arith, all, e), ground (arith, all))
        | inr some_red ↦
            let (q', e', fits') =
              rotate_parent-Lowers h d black x (node black l y r) p f (rw some_red) in
            (q', ground (arith, some_red, e'), fits')
      ]

  -- The rebalancing takes one black node off each way down below the parents.
  rebalance-Lowers : (h : ℕ) (p : List (Frame A)) → Fits (suc h) p → Lowers h (rebalance p)
  unfolding rebalance
  rebalance-Lowers h [] f = ([], refl, tt)
  rebalance-Lowers h (frame d red x s ∷ p) f = rotate_parent-Lowers h d red x s p f refl
  rebalance-Lowers h (frame d black x nil ∷ p) f = absurd (omega arith)
  rebalance-Lowers h (frame d black x (node red l y r) ∷ p) f =
      rotate_parent-Lowers h d black x (node red l y r) p f refl
  rebalance-Lowers h (frame d black x (node black l y r) ∷ p) f =
      round-Lowers h d x l y r p f (rebalance-Lowers (suc h) p f.4)

  abbrev Kept : Option (Tree A) → Type ℓ
  Kept o = (u : Tree A) × (o ≡ some u) × IsValid u

  remove_leaf-Kept :
      (c : Colour) (x : A) (p : List (Frame A))
      → FitsIn (node c nil x nil) p
      → Kept (remove_leaf c p)
  unfolding remove_leaf
  remove_leaf-Kept c x [] f = (nil, refl, ground arith)
  remove_leaf-Kept red x (g ∷ p) f = (
    zip nil (g ∷ p),
    refl,
    zip-IsValid nil (g ∷ p) (record { within = tt; around = f.around; colours = tt }),
  )
  remove_leaf-Kept black x (g ∷ p) f =
      let (q, e, fits) = rebalance-Lowers 0 (g ∷ p) f.around in
      (zip nil q, rw e, zip-IsValid nil q (record { within = tt; around = fits; colours = tt }))

  splice-Kept :
      (d : Side) (c : Colour) (x : A) (t : Tree A) (p : List (Frame A))
      → FitsIn (join d c t x nil) p
      → Kept (splice c t p)
  unfolding splice
  splice-Kept left c x nil p f = remove_leaf-Kept c x p f
  splice-Kept right c x nil p f = remove_leaf-Kept c x p f
  splice-Kept left c x (node black l y r) p f = absurd (ground (arith, f.within.1))
  splice-Kept right c x (node black l y r) p f = absurd (ground (arith, f.within.1))
  splice-Kept left red x (node red l y r) p f = cc
  splice-Kept right red x (node red l y r) p f = cc
  splice-Kept left black x (node red l y r) p f =
      (zip (node black l y r) p, refl, zip-IsValid (node black l y r) p (ground arith))
  splice-Kept right black x (node red l y r) p f =
      (zip (node black l y r) p, refl, zip-IsValid (node black l y r) p (ground arith))

  -- The node without its left child, where it has none.
  abbrev right_only : Node A → Tree A
  right_only m = node m.colour nil m.value m.right_child

  leftmost-FitsIn :
      (c : Colour) (l : Tree A) (x : A) (r : Tree A) (p : List (Frame A))
      → FitsIn (node c l x r) p
      → let m = leftmost c l x r p in FitsIn (right_only m) m.parents
  unfolding leftmost
  leftmost-FitsIn c nil x r p f = f
  leftmost-FitsIn c (node d a y b) x r p f =
      leftmost-FitsIn d a y b (frame left c x r ∷ p) (enter left c (node d a y b) x r p f)

  remove-Kept :
      (c : Colour) (l : Tree A) (x : A) (r : Tree A) (p : List (Frame A))
      → FitsIn (node c l x r) p
      → Kept (remove (node_at c l x r p))
  unfolding remove
  remove-Kept c nil x r p f = splice-Kept right c x r p f
  remove-Kept c (node lc ll lx lr) x nil p f = splice-Kept left c x (node lc ll lx lr) p f
  remove-Kept c (node lc ll lx lr) x (node rc rl rx rr) p f =
      let next = leftmost rc rl rx rr [] in
      let here = frame right c next.value (node lc ll lx lr) ∷ p in
      splice-Kept right next.colour next.value next.right_child (next.parents ++ here) (
        subst (λ m. FitsIn (right_only m) m.parents) (leftmost-append rc rl rx rr [] here)
          (leftmost-FitsIn rc rl rx rr here
            (enter right c (node rc rl rx rr) next.value (node lc ll lx lr) p (ground arith))))

  -- Removal of a node from a valid tree succeeds, with no access through a null pointer, and
  -- leaves a valid tree.
  pub remove-IsValid :
      (n : Node A) → IsValid (tree_of n) → (u : Tree A) × (remove n ≡ some u) × IsValid u
  remove-IsValid n v =
      remove-Kept n.colour n.left_child n.value n.right_child n.parents
        (unzip-FitsIn (subtree n) n.parents v)
