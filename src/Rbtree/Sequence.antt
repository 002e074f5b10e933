-- ===== src/Rbtree/Sequence.antt =====
-- The values of the red-black tree of src/rbtree.c in order, and those before and after a node.
pub mod Inserted
pub mod Removed
pub mod Neighbours
use u.Common.{◌≡◌, refl, sym, ap, ◌∙◌, List, [], ◌∷◌, ◌++◌}
use mathlib.Core.List.{append-nil, append_assoc}
use u.Rbtree.{
  Colour, black, red, Tree, nil, node, Side, left, right, Frame, frame, Node, join, zip, subtree,
  tree_of, leftmost, rightmost,
}

module _ {ℓ} {A : Type ℓ} where
  abbrev pub to_list : Tree A → List A
  to_list nil = []
  to_list (node c l x r) = to_list l ++ x ∷ to_list r

  -- The values before a subtree with these parents, and after it.
  abbrev pub before : List (Frame A) → List A
  before [] = []
  before (frame left c x s ∷ p) = before p
  before (frame right c x s ∷ p) = before p ++ (to_list s ++ x ∷ [])

  abbrev pub after : List (Frame A) → List A
  after [] = []
  after (frame left c x s ∷ p) = x ∷ (to_list s ++ after p)
  after (frame right c x s ∷ p) = after p

  pub to_list-zip :
      (t : Tree A) (p : List (Frame A)) → to_list (zip t p) ≡ before p ++ (to_list t ++ after p)
  to_list-zip t [] = sym (append-nil (to_list t))
  to_list-zip t (frame left c x s ∷ p) = simp (to_list-zip (node c t x s) p, append_assoc)
  to_list-zip t (frame right c x s ∷ p) = simp (to_list-zip (node c s x t) p, append_assoc)

  -- The same node, below further parents.
  abbrev pub lift : Node A → List (Frame A) → Node A
  lift n p = record n { parents = n.parents ++ p }

  pub leftmost-append :
      (c : Colour) (l : Tree A) (x : A) (r : Tree A) (q p : List (Frame A))
      → leftmost c l x r (q ++ p) ≡ lift (leftmost c l x r q) p
  unfolding leftmost
  leftmost-append c nil x r q p = refl
  leftmost-append c (node d a y b) x r q p = leftmost-append d a y b (frame left c x r ∷ q) p

  -- The values before and after a node.
  abbrev pub values_before : Node A → List A
  values_before n = before n.parents ++ to_list n.left_child

  abbrev pub values_after : Node A → List A
  values_after n = to_list n.right_child ++ after n.parents

  pub to_list-tree_of :
      (n : Node A) → to_list (tree_of n) ≡ values_before n ++ n.value ∷ values_after n
  to_list-tree_of n = simp (to_list-zip (subtree n) n.parents, append_assoc)

  abbrev pub node_at : Colour → Tree A → A → Tree A → List (Frame A) → Node A
  node_at c l x r p = record { colour = c; left_child = l; value = x; right_child = r; parents = p }

  pub leftmost-parents :
      (c : Colour) (l : Tree A) (x : A) (r : Tree A) (p : List (Frame A))
      → before (leftmost c l x r p).parents ≡ before p
  unfolding leftmost
  leftmost-parents c nil x r p = refl
  leftmost-parents c (node d a y b) x r p = leftmost-parents d a y b (frame left c x r ∷ p)

  pub leftmost-before :
      (c : Colour) (l : Tree A) (x : A) (r : Tree A) (p : List (Frame A))
      → values_before (leftmost c l x r p) ≡ before p
  unfolding leftmost
  leftmost-before c nil x r p = append-nil (before p)
  leftmost-before c (node d a y b) x r p = leftmost-before d a y b (frame left c x r ∷ p)

  pub leftmost-after :
      (c : Colour) (l : Tree A) (x : A) (r : Tree A) (p : List (Frame A))
      → let m = leftmost c l x r p in m.value ∷ values_after m ≡ to_list (node c l x r) ++ after p
  unfolding leftmost
  leftmost-after c nil x r p = refl
  leftmost-after c (node d a y b) x r p =
      leftmost-after d a y b (frame left c x r ∷ p) ∙ simp append_assoc

  pub rightmost-after :
      (c : Colour) (l : Tree A) (x : A) (r : Tree A) (p : List (Frame A))
      → values_after (rightmost c l x r p) ≡ after p
  unfolding rightmost
  rightmost-after c l x nil p = refl
  rightmost-after c l x (node d a y b) p = rightmost-after d a y b (frame right c x l ∷ p)

  pub rightmost-before :
      (c : Colour) (l : Tree A) (x : A) (r : Tree A) (p : List (Frame A))
      → let m = rightmost c l x r p in
        values_before m ++ m.value ∷ [] ≡ before p ++ to_list (node c l x r)
  unfolding rightmost
  rightmost-before c l x nil p = simp append_assoc
  rightmost-before c l x (node d a y b) p =
      rightmost-before d a y b (frame right c x l ∷ p) ∙ simp append_assoc
