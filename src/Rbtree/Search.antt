-- ===== src/Rbtree/Search.antt =====
-- u80211_rbtree_lookup and u80211_rbtree_find_first_larger_equal of src/rbtree.c against the values
-- in order.
use u.Common.{
  ◌≡◌, ◌≢◌, ◌⊎◌, inl, inr, refl, sym, subst, ◌∙◌, Option, none, some, List, [], ◌∷◌, ◌++◌, arith,
}
use mathlib.Core.List.{append-nil, append_assoc}
use u.Rbtree.{
  Colour, Tree, nil, node, Comparison, less, equal, greater, left, right, Frame, frame, Node, zip,
  tree_of, lookup_from, lookup, larger_equal_from, find_first_larger_equal,
}
use u.Rbtree.Order.{Precede, Succeed, Sweeps, Sweeps-append}
use u.Rbtree.Sequence.{to_list, before, after, to_list-zip, values_before, node_at}

module _ {ℓ} {A : Type ℓ} (k : A → Comparison) where
  -- The probe is equal to none of the values.
  abbrev pub NoneEqual : List A → Type ℓ
  NoneEqual [] = Unit
  NoneEqual (x ∷ xs) = (k x ≢ equal) × NoneEqual xs

  -- The probe is greater than all the values.
  abbrev pub AllSmaller : List A → Type ℓ
  AllSmaller [] = Unit
  AllSmaller (x ∷ xs) = (k x ≡ greater) × AllSmaller xs

  NoneEqual-append :
      (xs : List A) (y : A) (ys : List A)
      → NoneEqual xs
      → k y ≢ equal
      → NoneEqual ys
      → NoneEqual (xs ++ y ∷ ys)
  NoneEqual-append [] y ys a h b = (h, b)
  NoneEqual-append (x ∷ xs) y ys a h b = (a.0, NoneEqual-append xs y ys a.1 h b)

  AllSmaller-append : (xs ys : List A) → AllSmaller xs → AllSmaller ys → AllSmaller (xs ++ ys)
  AllSmaller-append [] ys a b = b
  AllSmaller-append (x ∷ xs) ys a b = (a.0, AllSmaller-append xs ys a.1 b)

  smaller-NoneEqual : (xs : List A) → AllSmaller xs → NoneEqual xs
  smaller-NoneEqual [] a = tt
  smaller-NoneEqual (x ∷ xs) a = (ground (arith, a.0), smaller-NoneEqual xs a.1)

  before_smaller : (xs : List A) (c : Comparison) → Precede k xs c → c ≡ greater → AllSmaller xs
  before_smaller [] c p h = tt
  before_smaller (x ∷ xs) c p h = (ground (arith, p.0), before_smaller xs c p.1 h)

  after_larger : (c : Comparison) (xs : List A) → Succeed k c xs → c ≡ less → NoneEqual xs
  after_larger c [] p h = tt
  after_larger c (x ∷ xs) p h = (ground (arith, p.0), after_larger c xs p.1 h)

  -- The result of a lookup: a node of the tree that the probe is equal to, or none where it is
  -- equal to none of the values.
  abbrev pub Finds : Tree A → List A → Option (Node A) → Type ℓ
  Finds t xs none = NoneEqual xs
  Finds t xs (some n) = (tree_of n ≡ t) × (k n.value ≡ equal)

  Finds-more :
      (t : Tree A) (xs ys : List A) (o : Option (Node A))
      → (NoneEqual xs → NoneEqual ys)
      → Finds t xs o
      → Finds t ys o
  Finds-more t xs ys none f h = f h
  Finds-more t xs ys (some n) f h = h

  lookup_from-Finds :
      (t : Tree A) (p : List (Frame A))
      → Sweeps k (to_list t)
      → Finds (zip t p) (to_list t) (lookup_from k t p)
  unfolding lookup_from
  lookup_from-Finds nil p s = tt
  lookup_from-Finds (node c l x r) p s =
      let (sl, pre, post, sr) = Sweeps-append k (to_list l) x (to_list r) s in
      elim (k x)
          as (λ o.
            o ≡ k x
            → Finds (zip (node c l x r) p) (to_list (node c l x r)) (elim o [
              | equal ↦ some (node_at c l x r p)
              | greater ↦ lookup_from k r (frame right c x l ∷ p)
              | less ↦ lookup_from k l (frame left c x r ∷ p)
            ])) [
              | equal ↦ λ e. (refl, sym e)
              | greater ↦ λ e.
                  Finds-more (zip (node c l x r) p) (to_list r) (to_list (node c l x r))
                    (lookup_from k r (frame right c x l ∷ p))
                    (λ h.
                      NoneEqual-append (to_list l) x (to_list r)
                        (smaller-NoneEqual (to_list l)
                          (before_smaller (to_list l) (k x) pre (sym e)))
                        (ground arith) h)
                    (lookup_from-Finds r (frame right c x l ∷ p) sr)
              | less ↦ λ e.
                  Finds-more (zip (node c l x r) p) (to_list l) (to_list (node c l x r))
                    (lookup_from k l (frame left c x r ∷ p))
                    (λ h.
                      NoneEqual-append (to_list l) x (to_list r) h (ground arith)
                        (after_larger (k x) (to_list r) post (sym e)))
                    (lookup_from-Finds l (frame left c x r ∷ p) sl)
            ]
        refl

  -- u80211_rbtree_lookup finds a node of the tree that the key is equal to, or returns null and
  -- the key is equal to none of the values. For values in an order that the key can be searched
  -- in.
  pub lookup-Finds : (t : Tree A) → Sweeps k (to_list t) → Finds t (to_list t) (lookup k t)
  lookup-Finds t s = lookup_from-Finds t [] s

  -- The result of the search for the first value that is not smaller.
  abbrev pub Meets : Tree A → Option (Node A) → Type ℓ
  Meets t none = AllSmaller (to_list t)
  Meets t (some n) =
      (tree_of n ≡ t) × ((k n.value ≡ equal) ⊎ ((k n.value ≡ less) × AllSmaller (values_before n)))

  -- The best node so far: all that is left to search stands before it.
  abbrev Best : Tree A → List (Frame A) → Option (Node A) → Type ℓ
  Best t p none = after p ≡ []
  Best t p (some m) =
      (k m.value ≡ less) × (tree_of m ≡ zip t p) × (values_before m ≡ before p ++ to_list t)

  Best-right :
      (c : Colour) (l : Tree A) (x : A) (r : Tree A) (p : List (Frame A)) (o : Option (Node A))
      → Best (node c l x r) p o
      → Best r (frame right c x l ∷ p) o
  Best-right c l x r p none h = h
  Best-right c l x r p (some m) h = (h.0, h.1, h.2 ∙ simp append_assoc)

  Best-end :
      (p : List (Frame A)) (o : Option (Node A))
      → AllSmaller (before p)
      → Best nil p o
      → Meets (zip nil p) o
  Best-end p none a h = subst AllSmaller (sym (to_list-zip nil p ∙ rw h (append-nil (before p)))) a
  Best-end p (some m) a h = (h.1, inr (h.0, subst AllSmaller (sym (h.2 ∙ append-nil (before p))) a))

  larger_equal_from-Meets :
      (t : Tree A) (p : List (Frame A)) (found : Option (Node A))
      → Sweeps k (to_list t)
      → AllSmaller (before p)
      → Best t p found
      → Meets (zip t p) (larger_equal_from k t p found)
  unfolding larger_equal_from
  larger_equal_from-Meets nil p found s a b = Best-end p found a b
  larger_equal_from-Meets (node c l x r) p found s a b =
      let (sl, pre, post, sr) = Sweeps-append k (to_list l) x (to_list r) s in
      elim (k x)
          as (λ o.
            o ≡ k x
            → Meets (zip (node c l x r) p) (elim o [
              | equal ↦ some (node_at c l x r p)
              | less ↦ larger_equal_from k l (frame left c x r ∷ p) (some (node_at c l x r p))
              | greater ↦ larger_equal_from k r (frame right c x l ∷ p) found
            ])) [
              | equal ↦ λ e. (refl, inl (sym e))
              | less ↦ λ e.
                  larger_equal_from-Meets l (frame left c x r ∷ p) (some (node_at c l x r p)) sl a
                    (sym e, refl, refl)
              | greater ↦ λ e.
                  larger_equal_from-Meets r (frame right c x l ∷ p) found sr
                    (AllSmaller-append (before p) (to_list l ++ x ∷ []) a (
                      AllSmaller-append (to_list l) (x ∷ [])
                        (before_smaller (to_list l) (k x) pre (sym e)) (sym e, tt)))
                    (Best-right c l x r p found b)
            ]
        refl

  -- u80211_rbtree_find_first_larger_equal finds a node of the tree that the key is equal to, or
  -- one that is larger where all the values before it are smaller, or returns null and all the
  -- values are smaller. For values in an order that the key can be searched in.
  pub larger_equal-Meets :
      (t : Tree A) → Sweeps k (to_list t) → Meets t (find_first_larger_equal k t)
  larger_equal-Meets t s = larger_equal_from-Meets t [] none s tt refl
