-- ===== src/BssCache/Pointers.antt =====
-- Where a pointer to an entry of the cache of src/bss_cache.c leads in the tree.
use u.Common.{
  ℕ, ◌≡◌, ◌≢◌, refl, sym, ap, subst, ◌∙◌, Bool, true, false, Option, none, some, List, [], ◌∷◌,
  ◌++◌, ◌==◌, ==_iff, if◌then◌else◌, arith,
}
use u.Packet.{MacAddress}
use u.Rbtree.{Colour, Tree, nil, node, left, right, Frame, frame, Node, equal, tree_of, zip}
use u.Rbtree.Sequence.{to_list, node_at, to_list-tree_of, values_before, values_after}
use u.Rbtree.Search.{NoneEqual}
use u.BssCache.{ap_compare, node_of}
use u.BssCache.Entries.{Distinct, equal_self}

-- The address is that of none of the access points.
abbrev Absent : ℕ → List ℕ → Type 0
Absent a [] = Unit
Absent a (x ∷ xs) = (x ≢ a) × Absent a xs

Absent-append :
    (a : ℕ) (xs : List ℕ) (y : ℕ) (ys : List ℕ)
    → Absent a xs
    → y ≢ a
    → Absent a ys
    → Absent a (xs ++ y ∷ ys)
Absent-append a [] y ys h e k = (e, k)
Absent-append a (x ∷ xs) y ys h e k = (h.0, Absent-append a xs y ys h.1 e k)

not-Absent : (a : ℕ) (xs ys : List ℕ) → ¬ (Absent a (xs ++ a ∷ ys))
not-Absent a [] ys h = h.0 refl
not-Absent a (x ∷ xs) ys h = not-Absent a xs ys h.1

-- A pointer leads to the node with the address, unless there is none.
abbrev Leads : ℕ → Tree ℕ → List ℕ → Option (Node ℕ) → Type 0
Leads a t xs none = Absent a xs
Leads a t xs (some n) = (tree_of n ≡ t) × (n.value ≡ a)

Leads-here :
    (a : ℕ) (c : Colour) (l : Tree ℕ) (x : ℕ) (r : Tree ℕ) (p : List (Frame ℕ))
    (o : Option (Node ℕ)) (b : Bool)
    → (x == a) ≡ b
    → Absent a (to_list l)
    → Leads a (zip (node c l x r) p) (to_list r) o
    → Leads a
        (zip (node c l x r) p)
        (to_list (node c l x r))
        (if b then some (node_at c l x r p) else o)
Leads-here a c l x r p o true e h k = (refl, (==_iff x a).0 e)
Leads-here a c l x r p none false e h k =
    Absent-append a (to_list l) x (to_list r) h (ground (arith, (==_iff x a).1)) k
Leads-here a c l x r p (some n) false e h k = k

leads :
    (a : ℕ) (c : Colour) (l : Tree ℕ) (x : ℕ) (r : Tree ℕ) (p : List (Frame ℕ))
    (o o' : Option (Node ℕ))
    → Leads a (zip (node c l x r) p) (to_list l) o
    → Leads a (zip (node c l x r) p) (to_list r) o'
    → Leads a
        (zip (node c l x r) p)
        (to_list (node c l x r))
        (elim o [ some n ↦ some n | none ↦ (if x == a then some (node_at c l x r p) else o') ])
leads a c l x r p (some n) o' h k = h
leads a c l x r p none o' h k = Leads-here a c l x r p o' (x == a) refl h k

node_of-Leads :
    (a : ℕ) (t : Tree ℕ) (p : List (Frame ℕ)) → Leads a (zip t p) (to_list t) (node_of a t p)
unfolding node_of
node_of-Leads a nil p = tt
node_of-Leads a (node c l x r) p =
    leads a c l x r p (node_of a l (frame left c x r ∷ p)) (node_of a r (frame right c x l ∷ p))
      (node_of-Leads a l (frame left c x r ∷ p)) (node_of-Leads a r (frame right c x l ∷ p))

module _ (mac_of : ℕ → MacAddress) where
  pub differ : (a b : ℕ) → ap_compare mac_of a b ≢ equal → a ≢ b
  differ a b h e = h (rw e (equal_self mac_of b))

  not_in : (y : ℕ) (xs ys : List ℕ) → ¬ (NoneEqual (ap_compare mac_of y) (xs ++ y ∷ ys))
  not_in y [] ys h = h.0 (equal_self mac_of y)
  not_in y (x ∷ xs) ys h = not_in y xs ys h.1

  -- An entry stands at one place only.
  one_place :
      (xs xs' : List ℕ) (y : ℕ) (ys ys' : List ℕ)
      → Distinct mac_of (xs ++ y ∷ ys)
      → xs ++ y ∷ ys ≡ xs' ++ y ∷ ys'
      → (xs ≡ xs') × (ys ≡ ys')
  one_place [] [] y ys ys' d e = (refl, cc)
  one_place [] (x ∷ xs') y ys ys' d e =
      absurd (not_in y xs' ys' (subst (NoneEqual (ap_compare mac_of y)) (cc) d.0))
  one_place (x ∷ xs) [] y ys ys' d e =
      let same : x ≡ y = cc in
      absurd (not_in y xs ys (subst (λ z. NoneEqual (ap_compare mac_of z) (xs ++ y ∷ ys)) same d.0))
  one_place (x ∷ xs) (x' ∷ xs') y ys ys' d e =
      let (a, b) = one_place xs xs' y ys ys' d.1 (cc) in (cc, b)

  -- The node of an entry of the tree.
  pub node_of_lem :
      (root : Tree ℕ) (xs : List ℕ) (y : ℕ) (ys : List ℕ)
      → Distinct mac_of (to_list root)
      → to_list root ≡ xs ++ y ∷ ys
      → (n : Node ℕ) × (node_of y root [] ≡ some n)
        × (tree_of n ≡ root)
        × (n.value ≡ y)
        × (values_before n ≡ xs)
        × (values_after n ≡ ys)
  node_of_lem root xs y ys d e = found (node_of y root []) refl (node_of-Leads y root [])
    where
      found :
          (o : Option (Node ℕ))
          → node_of y root [] ≡ o
          → Leads y root (to_list root) o
          → (n : Node ℕ) × (node_of y root [] ≡ some n)
            × (tree_of n ≡ root)
            × (n.value ≡ y)
            × (values_before n ≡ xs)
            × (values_after n ≡ ys)
      found none h k = absurd (not-Absent y xs ys (subst (Absent y) e k))
      found (some n) h k =
          let all =
            sym e
            ∙ ap to_list (sym k.0)
            ∙ to_list-tree_of n
            ∙ ap (λ v. values_before n ++ v ∷ values_after n) k.1 in
          let (a, b) =
            one_place xs (values_before n) y ys (values_after n) (subst (Distinct mac_of) e d)
              all in
          (n, h, k.0, k.1, sym a, sym b)
