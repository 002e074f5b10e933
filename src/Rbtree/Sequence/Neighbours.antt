-- ===== src/Rbtree/Sequence/Neighbours.antt =====
-- u80211_rbtree_first, _last, _successor and _predecessor of src/rbtree.c walk the values in order.
use u.Common.{
  ℕ, zero, suc, ◌≡◌, refl, sym, ap, subst, ◌∙◌, Option, none, some, List, [], ◌∷◌, ◌++◌, take,
}
use mathlib.Core.List.{append-nil, append_assoc}
use u.Rbtree.{
  Colour, Tree, nil, node, left, right, Frame, frame, Node, zip, tree_of, leftmost, rightmost,
  first, last, leave_left, leave_right, successor, predecessor,
}
use u.Rbtree.Sequence.{
  to_list, before, after, values_before, values_after, node_at, leftmost-before, leftmost-after,
  rightmost-before, rightmost-after,
}

module _ {ℓ} {A : Type ℓ} where
  -- The node is the one of the tree that stands between the first values and the others: it is the
  -- first of the others, and there is none exactly if there are no others.
  abbrev pub IsNext : Tree A → List A → List A → Option (Node A) → Type ℓ
  IsNext t xs ys none = ys ≡ []
  IsNext t xs ys (some n) =
      (tree_of n ≡ t) × (values_before n ≡ xs) × (n.value ∷ values_after n ≡ ys)

  -- The same, where it is the last of the first values.
  abbrev pub IsPrevious : Tree A → List A → List A → Option (Node A) → Type ℓ
  IsPrevious t xs ys none = xs ≡ []
  IsPrevious t xs ys (some n) =
      (tree_of n ≡ t) × (values_before n ++ n.value ∷ [] ≡ xs) × (values_after n ≡ ys)

  leftmost-tree_of :
      (c : Colour) (l : Tree A) (x : A) (r : Tree A) (p : List (Frame A))
      → tree_of (leftmost c l x r p) ≡ zip (node c l x r) p
  unfolding leftmost
  leftmost-tree_of c nil x r p = refl
  leftmost-tree_of c (node d a y b) x r p = leftmost-tree_of d a y b (frame left c x r ∷ p)

  rightmost-tree_of :
      (c : Colour) (l : Tree A) (x : A) (r : Tree A) (p : List (Frame A))
      → tree_of (rightmost c l x r p) ≡ zip (node c l x r) p
  unfolding rightmost
  rightmost-tree_of c l x nil p = refl
  rightmost-tree_of c l x (node d a y b) p = rightmost-tree_of d a y b (frame right c x l ∷ p)

  leave_left-IsNext :
      (t : Tree A) (p : List (Frame A))
      → IsNext (zip t p) (before p ++ to_list t) (after p) (leave_left t p)
  unfolding leave_left
  leave_left-IsNext t [] = refl
  leave_left-IsNext t (frame left c x s ∷ p) = (refl, refl, refl)
  leave_left-IsNext t (frame right c x s ∷ p) =
      subst (λ xs. IsNext (zip (node c s x t) p) xs (after p) (leave_left (node c s x t) p))
        (simp append_assoc) (leave_left-IsNext (node c s x t) p)

  leave_right-IsPrevious :
      (t : Tree A) (p : List (Frame A))
      → IsPrevious (zip t p) (before p) (to_list t ++ after p) (leave_right t p)
  unfolding leave_right
  leave_right-IsPrevious t [] = refl
  leave_right-IsPrevious t (frame right c x s ∷ p) = (refl, simp append_assoc, refl)
  leave_right-IsPrevious t (frame left c x s ∷ p) =
      subst (λ ys. IsPrevious (zip (node c t x s) p) (before p) ys (leave_right (node c t x s) p))
        (simp append_assoc) (leave_right-IsPrevious (node c t x s) p)

  successor_at :
      (c : Colour) (l : Tree A) (x : A) (r : Tree A) (p : List (Frame A))
      → let n = node_at c l x r p in
        IsNext (tree_of n) (values_before n ++ x ∷ []) (values_after n) (successor n)
  unfolding successor
  successor_at c l x nil p =
      subst (λ xs. IsNext (zip (node c l x nil) p) xs (after p) (leave_left (node c l x nil) p))
        (simp append_assoc) (leave_left-IsNext (node c l x nil) p)
  successor_at c l x (node d a y b) p =
      let here = frame right c x l ∷ p in
      (
        leftmost-tree_of d a y b here,
        leftmost-before d a y b here ∙ simp append_assoc,
        leftmost-after d a y b here,
      )

  -- The successor of a node is the next node of the same tree.
  pub successor-IsNext :
      (n : Node A)
      → IsNext (tree_of n) (values_before n ++ n.value ∷ []) (values_after n) (successor n)
  successor-IsNext n = successor_at n.colour n.left_child n.value n.right_child n.parents

  predecessor_at :
      (c : Colour) (l : Tree A) (x : A) (r : Tree A) (p : List (Frame A))
      → let n = node_at c l x r p in
        IsPrevious (tree_of n) (values_before n) (x ∷ values_after n) (predecessor n)
  unfolding predecessor
  predecessor_at c nil x r p =
      subst
        (λ xs.
          IsPrevious (zip (node c nil x r) p) xs (x ∷ (to_list r ++ after p))
            (leave_right (node c nil x r) p))
        (sym (append-nil (before p))) (leave_right-IsPrevious (node c nil x r) p)
  predecessor_at c (node d a y b) x r p =
      let here = frame left c x r ∷ p in
      (rightmost-tree_of d a y b here, rightmost-before d a y b here, rightmost-after d a y b here)

  -- The predecessor of a node is the node before it in the same tree.
  pub predecessor-IsPrevious :
      (n : Node A)
      → IsPrevious (tree_of n) (values_before n) (n.value ∷ values_after n) (predecessor n)
  predecessor-IsPrevious n = predecessor_at n.colour n.left_child n.value n.right_child n.parents

  pub first-IsNext : (t : Tree A) → IsNext t [] (to_list t) (first t)
  unfolding first
  first-IsNext nil = refl
  first-IsNext (node c l x r) = (
    leftmost-tree_of c l x r [],
    leftmost-before c l x r [],
    leftmost-after c l x r [] ∙ append-nil (to_list (node c l x r)),
  )

  pub last-IsPrevious : (t : Tree A) → IsPrevious t (to_list t) [] (last t)
  unfolding last
  last-IsPrevious nil = refl
  last-IsPrevious (node c l x r) =
      (rightmost-tree_of c l x r [], rightmost-before c l x r [], rightmost-after c l x r [])

  -- The values met on a walk by successors, as many as there is room for.
  unfoldable pub walk : ℕ → Option (Node A) → List A
  walk zero o = []
  walk (suc k) none = []
  walk (suc k) (some n) = n.value ∷ walk k (successor n)

  walk-take :
      (k : ℕ) (t : Tree A) (xs ys : List A) (o : Option (Node A))
      → IsNext t xs ys o
      → walk k o ≡ take k ys
  unfolding walk
  walk-take zero t xs ys o h = refl
  walk-take (suc k) t xs ys none h = rw h refl
  walk-take (suc k) t xs ys (some n) h = rw (← h.2) (
      ap (λ r. n.value ∷ r)
        (walk-take k (tree_of n) (values_before n ++ n.value ∷ []) (values_after n) (successor n)
          (successor-IsNext n)))

  -- A walk from the first node meets all the values in order.
  pub walk-first : (k : ℕ) (t : Tree A) → walk k (first t) ≡ take k (to_list t)
  walk-first k t = walk-take k t [] (to_list t) (first t) (first-IsNext t)
