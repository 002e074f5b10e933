-- ===== src/Rbtree/Sequence/Inserted.antt =====
-- Where u80211_rbtree_insert of src/rbtree.c puts the new value among the values in order.
use u.Common.{◌≡◌, ◌≢◌, inl, inr, refl, subst, sym, ◌∙◌, some, List, [], ◌∷◌, ◌++◌, arith}
use mathlib.Core.List.{append-nil, append_assoc}
use u.Rbtree.{
  Colour, black, red, Tree, nil, node, Comparison, greater, Side, left, right, Frame, frame, join,
}
use u.Rbtree.Insert.{place, grand_parent_colour, rotate_up, fix_up, insert}
use u.Rbtree.Order.{
  greater_cases, Precede, Sweeps, Sweeps-append, insert_sorted, insert_sorted-left,
  insert_sorted-right,
}
use u.Rbtree.Sequence.{to_list, before, after, to_list-zip}

module _ {ℓ} {A : Type ℓ} where
  some_inj : {t u : Tree A} → some t ≡ some u → t ≡ u
  some_inj h = cc

  -- A rotation and the new colours keep the sequence.
  rotate_up-to_list :
      (d : Side) (t : Tree A) (x : A) (s : Tree A) (e : Side) (c : Colour) (y : A) (g : Tree A)
      (p : List (Frame A)) {u : Tree A}
      → rotate_up d (join d red t x s) e c y g p ≡ some u
      → to_list u ≡ before p ++ (to_list (join e c (join d red t x s) y g) ++ after p)
  unfolding rotate_up
  rotate_up-to_list left t x s left c y g p h =
      rw (← some_inj h) (simp (to_list-zip (node black t x (node red s y g)) p, append_assoc))
  rotate_up-to_list right t x s right c y g p h =
      rw (← some_inj h) (simp (to_list-zip (node black (node red g y s) x t) p, append_assoc))
  rotate_up-to_list right nil x s left c y g p h = cc
  rotate_up-to_list right (node k a v b) x s left c y g p h =
      rw (← some_inj h)
        (simp (to_list-zip (node black (node red s x a) v (node red b y g)) p, append_assoc))
  rotate_up-to_list left nil x s right c y g p h = cc
  rotate_up-to_list left (node k a v b) x s right c y g p h =
      rw (← some_inj h)
        (simp (to_list-zip (node black (node red g y a) v (node red b x s)) p, append_assoc))

  -- The sequence around a subtree, with its parent and its grandparent.
  regroup :
      (d : Side) (k : Colour) (t : Tree A) (x : A) (s : Tree A) (e : Side) (c : Colour) (y : A)
      (g : Tree A) (p : List (Frame A))
      → before (frame d k x s ∷ frame e c y g ∷ p)
          ++ (to_list t ++ after (frame d k x s ∷ frame e c y g ∷ p))
        ≡ before p ++ (to_list (join e c (join d k t x s) y g) ++ after p)
  regroup left k t x s left c y g p = simp append_assoc
  regroup left k t x s right c y g p = simp append_assoc
  regroup right k t x s left c y g p = simp append_assoc
  regroup right k t x s right c y g p = simp append_assoc

  recoloured :
      (d : Side) (t : Tree A) (x : A) (s : Tree A) (e : Side) (c : Colour) (y : A) (l : Tree A)
      (z : A) (r : Tree A) (p : List (Frame A))
      → before (frame d red x s ∷ frame e c y (node red l z r) ∷ p)
          ++ (to_list t ++ after (frame d red x s ∷ frame e c y (node red l z r) ∷ p))
        ≡ before p
          ++ (to_list (join e (grand_parent_colour c p) (join d black t x s) y (node black l z r))
              ++ after p)
  recoloured left t x s left c y l z r p = simp append_assoc
  recoloured left t x s right c y l z r p = simp append_assoc
  recoloured right t x s left c y l z r p = simp append_assoc
  recoloured right t x s right c y l z r p = simp append_assoc

  -- The loop keeps the sequence.
  fix_up-to_list :
      (t : Tree A) (p : List (Frame A)) {u : Tree A}
      → fix_up t p ≡ some u
      → to_list u ≡ before p ++ (to_list t ++ after p)
  unfolding fix_up
  fix_up-to_list t [] h = rw (← some_inj h) (sym (append-nil (to_list t)))
  fix_up-to_list t (frame left black x s ∷ p) h =
      rw (← some_inj h) (to_list-zip t (frame left black x s ∷ p))
  fix_up-to_list t (frame right black x s ∷ p) h =
      rw (← some_inj h) (to_list-zip t (frame right black x s ∷ p))
  fix_up-to_list t (frame d red x s ∷ []) h = cc
  fix_up-to_list t (frame d red x s ∷ frame e c y nil ∷ p) h =
      rotate_up-to_list d t x s e c y nil p h ∙ sym (regroup d red t x s e c y nil p)
  fix_up-to_list t (frame d red x s ∷ frame e c y (node black l z r) ∷ p) h =
      rotate_up-to_list d t x s e c y (node black l z r) p h
      ∙ sym (regroup d red t x s e c y (node black l z r) p)
  fix_up-to_list t (frame d red x s ∷ frame e c y (node red l z r) ∷ p) h =
      fix_up-to_list (join e (grand_parent_colour c p) (join d black t x s) y (node black l z r)) p
        h
      ∙ sym (recoloured d t x s e c y l z r p)

  place-right :
      (k : A → Comparison) (c : Colour) (l : Tree A) (x : A) (r : Tree A) (p : List (Frame A))
      → k x ≡ greater
      → place k (node c l x r) p ≡ place k r (frame right c x l ∷ p)
  unfolding place
  place-right k c l x r p h = ground arith

  place-left :
      (k : A → Comparison) (c : Colour) (l : Tree A) (x : A) (r : Tree A) (p : List (Frame A))
      → k x ≢ greater
      → place k (node c l x r) p ≡ place k l (frame left c x r ∷ p)
  unfolding place
  place-left k c l x r p h = ground arith

  place-nil :
      (k : A → Comparison) (v : A) (p : List (Frame A))
      → before (place k nil p) ++ v ∷ after (place k nil p)
        ≡ before p ++ (insert_sorted k v [] ++ after p)
  unfolding place insert_sorted
  place-nil k v p = refl

  -- The place that the descent finds is the one of the insertion into the sequence.
  place-insert_sorted :
      (k : A → Comparison) (v : A) (t : Tree A) (p : List (Frame A))
      → Sweeps k (to_list t)
      → before (place k t p) ++ v ∷ after (place k t p)
        ≡ before p ++ (insert_sorted k v (to_list t) ++ after p)
  place-insert_sorted k v nil p s = place-nil k v p
  place-insert_sorted k v (node c l x r) p s =
      let (sl, pre, post, sr) = Sweeps-append k (to_list l) x (to_list r) s in
      elim (greater_cases (k x)) [
        | inl h ↦ rw (place-right k c l x r p h) (
            place-insert_sorted k v r (frame right c x l ∷ p) sr
            ∙ rw
                (insert_sorted-right k v (to_list l) x (to_list r) h
                  (subst (Precede k (to_list l)) h pre))
                (simp append_assoc))
        | inr h ↦ rw (place-left k c l x r p h) (
            place-insert_sorted k v l (frame left c x r ∷ p) sl
            ∙ rw (insert_sorted-left k v (to_list l) x (to_list r) h) (simp append_assoc))
      ]

  -- Insertion into the tree is insertion into the sequence.
  pub insert-to_list :
      (compare : A → A → Comparison) (v : A) (t : Tree A) {u : Tree A}
      → Sweeps (compare v) (to_list t)
      → insert compare v t ≡ some u
      → to_list u ≡ insert_sorted (compare v) v (to_list t)
  unfolding insert insert_sorted
  insert-to_list compare v nil s h = rw (← some_inj h) refl
  insert-to_list compare v (node c l x r) s h =
      fix_up-to_list (node red nil v nil) (place (compare v) (node c l x r) []) h
      ∙ place-insert_sorted (compare v) v (node c l x r) [] s
      ∙ append-nil _
