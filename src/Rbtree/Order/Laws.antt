-- ===== src/Rbtree/Order/Laws.antt =====
-- The order that the comparison function of include/u80211/rbtree.h gives, and that insertion and
-- removal of src/rbtree.c keep.
use u.Common.{◌≡◌, ◌≢◌, refl, sym, subst, some, List, [], ◌∷◌, ◌++◌, arith}
use u.Rbtree.{Tree, Node, Comparison, less, equal, greater, tree_of}
use u.Rbtree.Insert.{insert}
use u.Rbtree.Remove.{remove}
use u.Rbtree.Sequence.{to_list, to_list-tree_of, values_before, values_after}
use u.Rbtree.Sequence.Inserted.{insert-to_list}
use u.Rbtree.Sequence.Removed.{remove-to_list}
use u.Rbtree.Balance.{IsValid}
use u.Rbtree.Balance.Inserted.{insert-IsValid}
use u.Rbtree.Balance.Removed.{remove-IsValid}
use u.Rbtree.Order.{Follows, Succeed, Sweeps, insert_sorted}

abbrev pub flip : Comparison → Comparison
flip less = greater
flip equal = equal
flip greater = less

-- What the tree relies on: the comparison is that of a total order of the keys.
pub record IsOrder {ℓ} {A : Type ℓ} (compare : A → A → Comparison) : Type ℓ where
  pub flips : (a b : A) → compare b a ≡ flip (compare a b)
  pub less_trans : (a b c : A) → compare a b ≡ less → compare b c ≡ less → compare a c ≡ less
  pub equal_left : (a b c : A) → compare a b ≡ equal → compare a c ≡ compare b c

module _ {ℓ} {A : Type ℓ} (compare : A → A → Comparison) where
  abbrev pub AtMostAll : A → List A → Type ℓ
  AtMostAll x [] = Unit
  AtMostAll x (y ∷ ys) = (compare x y ≢ greater) × AtMostAll x ys

  abbrev pub IsSorted : List A → Type ℓ
  IsSorted [] = Unit
  IsSorted (x ∷ xs) = AtMostAll x xs × IsSorted xs

  -- A valid red-black tree with its values in order.
  pub record IsSearchTree (t : Tree A) : Type ℓ where
    pub valid : IsValid t
    pub sorted : IsSorted (to_list t)

  AtMostAll-remove :
      (x : A) (xs : List A) (y : A) (ys : List A)
      → AtMostAll x (xs ++ y ∷ ys)
      → AtMostAll x (xs ++ ys)
  AtMostAll-remove x [] y ys a = a.1
  AtMostAll-remove x (z ∷ xs) y ys a = (a.0, AtMostAll-remove x xs y ys a.1)

  IsSorted-remove :
      (xs : List A) (y : A) (ys : List A) → IsSorted (xs ++ y ∷ ys) → IsSorted (xs ++ ys)
  IsSorted-remove [] y ys s = s.1
  IsSorted-remove (x ∷ xs) y ys s = (AtMostAll-remove x xs y ys s.0, IsSorted-remove xs y ys s.1)

  -- The removal of any node from a red-black search tree succeeds, with no access through a null
  -- pointer, and leaves one: the colours, the black heights and the order are kept, the root is
  -- black, and the values are all the others in their order.
  pub remove-IsSearchTree :
      (n : Node A)
      → IsSearchTree (tree_of n)
      → (u : Tree A) × (remove n ≡ some u)
        × IsSearchTree u
        × (to_list u ≡ values_before n ++ values_after n)
  remove-IsSearchTree n s =
      let (u, e, valid) = remove-IsValid n s.valid in
      let values = remove-to_list n e in
      let sorted =
        IsSorted-remove (values_before n) n.value (values_after n)
          (subst IsSorted (to_list-tree_of n) s.sorted) in
      (u, e, record { valid = valid; sorted = subst IsSorted (sym values) sorted }, values)

  -- A sorted sequence can be searched by a probe that goes with the order.
  module _ (probe : A → Comparison)
      (follows : (x y : A) → compare x y ≢ greater → Follows (probe x) (probe y)) where
    AtMostAll-Succeed : (x : A) (xs : List A) → AtMostAll x xs → Succeed probe (probe x) xs
    AtMostAll-Succeed x [] a = tt
    AtMostAll-Succeed x (y ∷ ys) a = (follows x y a.0, AtMostAll-Succeed x ys a.1)

    pub probe-Sweeps : (xs : List A) → IsSorted xs → Sweeps probe xs
    probe-Sweeps [] s = tt
    probe-Sweeps (x ∷ xs) s = (AtMostAll-Succeed x xs s.0, probe-Sweeps xs s.1)

  module _ (o : IsOrder compare) where
    open o use {flips, less_trans, equal_left}

    pub at_most-Follows : (v x y : A) → compare x y ≢ greater → Follows (compare v x) (compare v y)
    at_most-Follows v x y h = ground (
      arith,
      flips v x,
      flips v y,
      flips x y,
      less_trans v x y,
      equal_left v x y,
      equal_left x y v,
    )

    -- A sorted sequence can be searched for any value.
    pub IsSorted-Sweeps : (v : A) (xs : List A) → IsSorted xs → Sweeps (compare v) xs
    IsSorted-Sweeps v = probe-Sweeps (compare v) (at_most-Follows v)

    at_most_trans :
        (x y z : A) → compare x y ≢ greater → compare y z ≢ greater → compare x z ≢ greater
    at_most_trans x y z h k = ground (
      arith,
      less_trans x y z,
      equal_left x y z,
      equal_left y z x,
      flips x y,
      flips y z,
      flips x z,
    )

    AtMostAll-trans :
        (x y : A) (ys : List A) → compare x y ≢ greater → AtMostAll y ys → AtMostAll x ys
    AtMostAll-trans x y [] h a = tt
    AtMostAll-trans x y (z ∷ zs) h a = (at_most_trans x y z h a.0, AtMostAll-trans x y zs h a.1)

    AtMostAll-insert :
        (v x : A) (xs : List A)
        → compare x v ≢ greater
        → AtMostAll x xs
        → AtMostAll x (insert_sorted (compare v) v xs)
    unfolding insert_sorted
    AtMostAll-insert v x [] h a = (h, tt)
    AtMostAll-insert v x (y ∷ ys) h a =
        elim (compare v y)
          as (λ c. AtMostAll x (elim c [
            | greater ↦ y ∷ insert_sorted (compare v) v ys
            | equal ↦ v ∷ y ∷ ys
            | less ↦ v ∷ y ∷ ys
          ])) [ greater ↦ (a.0, AtMostAll-insert v x ys h a.1) | equal ↦ (h, a) | less ↦ (h, a) ]

    at_front :
        (v y : A) (ys : List A) → compare v y ≢ greater → IsSorted (y ∷ ys) → IsSorted (v ∷ y ∷ ys)
    at_front v y ys h s = ((h, AtMostAll-trans v y ys h s.0), s)

    above : (v y : A) → compare v y ≡ greater → compare y v ≢ greater
    above v y h = ground (arith, flips v y)

    insert_sorted-IsSorted :
        (v : A) (xs : List A) → IsSorted xs → IsSorted (insert_sorted (compare v) v xs)
    unfolding insert_sorted
    insert_sorted-IsSorted v [] s = (tt, tt)
    insert_sorted-IsSorted v (y ∷ ys) s =
        elim (compare v y)
            as (λ c.
              c ≡ compare v y
              → IsSorted (elim c [
                | greater ↦ y ∷ insert_sorted (compare v) v ys
                | equal ↦ v ∷ y ∷ ys
                | less ↦ v ∷ y ∷ ys
              ])) [
                | greater ↦ λ e. (
                  AtMostAll-insert v y ys (above v y (sym e)) s.0,
                  insert_sorted-IsSorted v ys s.1,
                )
                | equal ↦ λ e. at_front v y ys (ground arith) s
                | less ↦ λ e. at_front v y ys (ground arith) s
              ]
          refl

    -- Insertion into a red-black search tree succeeds, with no access through a null pointer, and
    -- leaves one: the colours, the black heights and the order are kept, the root is black, and
    -- the values are those from before with the new one before the first that is not smaller. For
    -- a comparison that is that of a total order of the keys.
    pub insert-IsSearchTree :
        (v : A) (t : Tree A)
        → IsSearchTree t
        → (u : Tree A) × (insert compare v t ≡ some u)
          × IsSearchTree u
          × (to_list u ≡ insert_sorted (compare v) v (to_list t))
    insert-IsSearchTree v t s =
        let (u, e, valid) = insert-IsValid compare v t s.valid in
        let values = insert-to_list compare v t (IsSorted-Sweeps v (to_list t) s.sorted) e in
        let sorted = insert_sorted-IsSorted v (to_list t) s.sorted in
        (u, e, record { valid = valid; sorted = subst IsSorted (sym values) sorted }, values)
