-- ===== src/Rbtree/Sequence/Removed.antt =====
-- u80211_rbtree_remove of src/rbtree.c takes one value out of the sequence and keeps the others.
use u.Common.{
  ◌≡◌, refl, sym, subst, ap, ap₂, ◌∙◌, not, if◌then◌else◌, Bool, true, false, ◌&&◌, Option, none,
  some, List, [], ◌∷◌, ◌++◌,
}
use mathlib.Core.List.{append_assoc}
use mathlib.Core.Path.{◌≡⟨◌⟩◌, ◌∎}
use u.Rbtree.{
  ◌>>=◌, Colour, black, red, Tree, nil, node, Side, left, right, Frame, frame, Node, colour_of, zip,
  leftmost,
}
use u.Rbtree.Remove.{
  is_black, close_nephew, far_nephew, rotate_far, rotate_close, black_sibling, rotate_parent,
  rebalance, remove_leaf, splice, remove,
}
use u.Rbtree.Sequence.{
  to_list, before, after, to_list-zip, leftmost-append, lift, values_before, values_after,
  leftmost-parents, node_at, leftmost-after,
}

module _ {ℓ} {A : Type ℓ} where
  -- The parents `q`, if there are any, have the same values before and after them as `p`.
  abbrev KeepsPath : List (Frame A) → Option (List (Frame A)) → Type ℓ
  KeepsPath p none = Unit
  KeepsPath p (some q) = (before q ≡ before p) × (after q ≡ after p)

  rotate_far-Keeps :
      (d : Side) (c : Colour) (x : A) (s : Tree A) (p : List (Frame A))
      → KeepsPath (frame d c x s ∷ p) (rotate_far d c x s p)
  rotate_far-Keeps d c x nil p = tt
  rotate_far-Keeps left c x (node k l y nil) p = tt
  rotate_far-Keeps left c x (node k l y (node j a v b)) p = (refl, simp append_assoc)
  rotate_far-Keeps right c x (node k nil y r) p = tt
  rotate_far-Keeps right c x (node k (node j a v b) y r) p = (simp append_assoc, refl)

  Keeps-trans :
      (p q : List (Frame A)) (o : Option (List (Frame A)))
      → before q ≡ before p
      → after q ≡ after p
      → KeepsPath q o
      → KeepsPath p o
  Keeps-trans p q none b a k = tt
  Keeps-trans p q (some r) b a k = (k.0 ∙ b, k.1 ∙ a)

  Keeps-if :
      (p : List (Frame A)) (b : Bool) (o o' : Option (List (Frame A)))
      → KeepsPath p o
      → KeepsPath p o'
      → KeepsPath p (if b then o else o')
  Keeps-if p true o o' k k' = k
  Keeps-if p false o o' k k' = k'

  close-Keeps :
      (d : Side) (c : Colour) (x : A) (j : Colour) (l : Tree A) (y : A) (r : Tree A)
      (p : List (Frame A))
      → KeepsPath
          (frame d c x (node j l y r) ∷ p)
          (rotate_close d (node j l y r) >>= λ s. rotate_far d c x s p)
  close-Keeps left c x j nil y r p = tt
  close-Keeps left c x j (node k a v b) y r p =
      Keeps-trans (frame left c x (node j (node k a v b) y r) ∷ p)
        (frame left c x (node black a v (node red b y r)) ∷ p)
        (rotate_far left c x (node black a v (node red b y r)) p) refl (simp append_assoc)
        (rotate_far-Keeps left c x (node black a v (node red b y r)) p)
  close-Keeps right c x j l y nil p = tt
  close-Keeps right c x j l y (node k a v b) p =
      Keeps-trans (frame right c x (node j l y (node k a v b)) ∷ p)
        (frame right c x (node black (node red l y a) v b) ∷ p)
        (rotate_far right c x (node black (node red l y a) v b) p) (simp append_assoc) refl
        (rotate_far-Keeps right c x (node black (node red l y a) v b) p)

  red_sibling-Keeps :
      (d : Side) (c k : Colour) (x : A) (j : Colour) (l : Tree A) (y : A) (r : Tree A)
      (p : List (Frame A))
      → KeepsPath (frame d c x (node j l y r) ∷ p) (some (frame d k x (node red l y r) ∷ p))
  red_sibling-Keeps left c k x j l y r p = (refl, refl)
  red_sibling-Keeps right c k x j l y r p = (refl, refl)

  black_sibling-Keeps :
      (d : Side) (c : Colour) (x : A) (s : Tree A) (p : List (Frame A))
      → KeepsPath (frame d c x s ∷ p) (black_sibling d c x s p)
  unfolding black_sibling
  black_sibling-Keeps d c x nil p = tt
  black_sibling-Keeps d c x (node j l y r) p =
      let turn = rotate_close d (node j l y r) >>= (λ s. rotate_far d c x s p) in
      let far = rotate_far d c x (node j l y r) p in
      let near =
        not (is_black (colour_of (close_nephew d l r)))
        && is_black (colour_of (far_nephew d l r)) in
      Keeps-if (frame d c x (node j l y r) ∷ p)
        (not (is_black c) && is_black j && is_black (colour_of l) && is_black (colour_of r))
        (some (frame d black x (node red l y r) ∷ p)) (if near then turn else far)
        (red_sibling-Keeps d c black x j l y r p)
        (Keeps-if (frame d c x (node j l y r) ∷ p) near turn far (close-Keeps d c x j l y r p)
          (rotate_far-Keeps d c x (node j l y r) p))

  rotate_parent-Keeps :
      (d : Side) (c : Colour) (x : A) (s : Tree A) (p : List (Frame A))
      → KeepsPath (frame d c x s ∷ p) (rotate_parent d c x s p)
  unfolding rotate_parent
  rotate_parent-Keeps d c x nil p = black_sibling-Keeps d c x nil p
  rotate_parent-Keeps d c x (node black l y r) p = black_sibling-Keeps d c x (node black l y r) p
  rotate_parent-Keeps left c x (node red l y r) p =
      Keeps-trans (frame left c x (node red l y r) ∷ p)
        (frame left red x l ∷ frame left black y r ∷ p)
        (black_sibling left red x l (frame left black y r ∷ p)) refl (simp append_assoc)
        (black_sibling-Keeps left red x l (frame left black y r ∷ p))
  rotate_parent-Keeps right c x (node red l y r) p =
      Keeps-trans (frame right c x (node red l y r) ∷ p)
        (frame right red x r ∷ frame right black y l ∷ p)
        (black_sibling right red x r (frame right black y l ∷ p)) (simp append_assoc) refl
        (black_sibling-Keeps right red x r (frame right black y l ∷ p))

  frame-Keeps :
      (d : Side) (x : A) (l : Tree A) (y : A) (r : Tree A) (p : List (Frame A))
      (o : Option (List (Frame A)))
      → KeepsPath p o
      → KeepsPath
          (frame d black x (node black l y r) ∷ p)
          (o >>= λ q. some (frame d black x (node red l y r) ∷ q))
  frame-Keeps d x l y r p none k = tt
  frame-Keeps left x l y r p (some q) k =
      (k.0, ap (λ z. x ∷ ((to_list l ++ y ∷ to_list r) ++ z)) k.1)
  frame-Keeps right x l y r p (some q) k =
      (ap (λ z. z ++ ((to_list l ++ y ∷ to_list r) ++ x ∷ [])) k.0, k.1)

  rebalance-Keeps : (p : List (Frame A)) → KeepsPath p (rebalance p)
  unfolding rebalance
  rebalance-Keeps [] = (refl, refl)
  rebalance-Keeps (frame d red x s ∷ p) = rotate_parent-Keeps d red x s p
  rebalance-Keeps (frame d black x nil ∷ p) = tt
  rebalance-Keeps (frame d black x (node red l y r) ∷ p) =
      rotate_parent-Keeps d black x (node red l y r) p
  rebalance-Keeps (frame d black x (node black l y r) ∷ p) =
      let recur = frame-Keeps d x l y r p (rebalance p) (rebalance-Keeps p) in
      let stop = rotate_parent-Keeps d black x (node black l y r) p in
      elim (is_black (colour_of l) && is_black (colour_of r))
        as (λ b. KeepsPath (frame d black x (node black l y r) ∷ p) (elim b [
          | true ↦ rebalance p >>= (λ q. some (frame d black x (node red l y r) ∷ q))
          | false ↦ rotate_parent d black x (node black l y r) p
        ])) [ true ↦ recur | false ↦ stop ]

  -- The sequence of the tree afterwards, if the removal succeeds.
  abbrev Holds : List A → Option (Tree A) → Type ℓ
  Holds xs none = Unit
  Holds xs (some u) = to_list u ≡ xs

  moved-Holds :
      (p : List (Frame A)) (o : Option (List (Frame A)))
      → KeepsPath p o
      → Holds (before p ++ after p) (o >>= λ q. some (zip nil q))
  moved-Holds p none k = tt
  moved-Holds p (some q) k = to_list-zip nil q ∙ ap₂ (λ a b. a ++ b) k.0 k.1

  remove_leaf-Holds :
      (c : Colour) (p : List (Frame A)) → Holds (before p ++ after p) (remove_leaf c p)
  unfolding remove_leaf
  remove_leaf-Holds c [] = refl
  remove_leaf-Holds red (f ∷ p) = to_list-zip nil (f ∷ p)
  remove_leaf-Holds black (f ∷ p) =
      moved-Holds (f ∷ p) (rebalance (f ∷ p)) (rebalance-Keeps (f ∷ p))

  splice-Holds :
      (c : Colour) (t : Tree A) (p : List (Frame A))
      → Holds (before p ++ (to_list t ++ after p)) (splice c t p)
  unfolding splice
  splice-Holds c nil p = remove_leaf-Holds c p
  splice-Holds c (node d l x r) p = to_list-zip (node black l x r) p

  -- The removal of a node with no left child.
  abbrev splice_next : Node A → Option (Tree A)
  splice_next m = splice m.colour m.right_child m.parents

  abbrev values_right : Node A → List A
  values_right m = to_list m.right_child ++ after m.parents

  next-Holds :
      (c : Colour) (l : Tree A) (x : A) (r : Tree A) (p : List (Frame A))
      → let m = leftmost c l x r p in Holds (before p ++ values_right m) (splice_next m)
  next-Holds c l x r p =
      let m = leftmost c l x r p in
      subst (λ b. Holds (b ++ values_right m) (splice_next m)) (leftmost-parents c l x r p)
        (splice-Holds m.colour m.right_child m.parents)

  -- The values around a node with two children, whose successor is the value in its place.
  around :
      (l : Tree A) (rc : Colour) (rl : Tree A) (rx : A) (rr : Tree A) (c : Colour)
      (p : List (Frame A)) (v : A)
      → let m = leftmost rc rl rx rr (frame right c v l ∷ p) in
        v ≡ m.value
        → before (frame right c v l ∷ p) ++ values_right m
          ≡ (before p ++ to_list l) ++ (to_list (node rc rl rx rr) ++ after p)
  around l rc rl rx rr c p v e =
      let here = frame right c v l ∷ p in
      let m = leftmost rc rl rx rr here in
      before here ++ values_right m
      ≡⟨ (simp append_assoc) ⟩ (before p ++ to_list l) ++ v ∷ values_right m
      ≡⟨ ap (λ w. (before p ++ to_list l) ++ w ∷ values_right m) e ⟩
        (before p ++ to_list l) ++ m.value ∷ values_right m
      ≡⟨ ap (λ w. (before p ++ to_list l) ++ w) (leftmost-after rc rl rx rr here) ⟩
        (before p ++ to_list l) ++ (to_list (node rc rl rx rr) ++ after p) ∎

  two-Holds :
      (c : Colour) (l : Tree A) (rc : Colour) (rl : Tree A) (rx : A) (rr : Tree A)
      (p : List (Frame A))
      → let m = leftmost rc rl rx rr [] in
        Holds
          ((before p ++ to_list l) ++ (to_list (node rc rl rx rr) ++ after p))
          (splice_next (lift m (frame right c m.value l ∷ p)))
  two-Holds c l rc rl rx rr p =
      let m = leftmost rc rl rx rr [] in
      let here = frame right c m.value l ∷ p in
      let e = leftmost-append rc rl rx rr [] here in
      subst
        (λ n.
          Holds ((before p ++ to_list l) ++ (to_list (node rc rl rx rr) ++ after p))
            (splice_next n))
        e
        (subst (λ xs. Holds xs (splice_next (leftmost rc rl rx rr here)))
          (around l rc rl rx rr c p m.value (ap (λ (n : Node A). n.value) (sym e)))
          (next-Holds rc rl rx rr here))

  remove-Keeps :
      (c : Colour) (l : Tree A) (x : A) (r : Tree A) (p : List (Frame A))
      → Holds ((before p ++ to_list l) ++ (to_list r ++ after p)) (remove (node_at c l x r p))
  unfolding remove
  remove-Keeps c nil x r p =
      subst (λ xs. Holds xs (splice c r p)) (simp append_assoc) (splice-Holds c r p)
  remove-Keeps c (node lc ll lx lr) x nil p =
      subst (λ xs. Holds xs (splice c (node lc ll lx lr) p)) (simp append_assoc)
        (splice-Holds c (node lc ll lx lr) p)
  remove-Keeps c (node lc ll lx lr) x (node rc rl rx rr) p =
      two-Holds c (node lc ll lx lr) rc rl rx rr p

  -- A removal that succeeds takes the node's value out, and the others stay in their order.
  pub remove-to_list :
      (n : Node A) {u : Tree A} → remove n ≡ some u → to_list u ≡ values_before n ++ values_after n
  remove-to_list n h =
      subst (Holds (values_before n ++ values_after n)) h
        (remove-Keeps n.colour n.left_child n.value n.right_child n.parents)
