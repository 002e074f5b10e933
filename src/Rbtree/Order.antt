-- ===== src/Rbtree/Order.antt =====
-- The order of the values in the red-black tree of src/rbtree.c, as a probe by comparison sees it.
pub mod Laws
use u.Common.{◌≡◌, ◌≢◌, ◌⊎◌, inl, inr, refl, List, [], ◌∷◌, ◌++◌, arith}
use u.Rbtree.{Comparison, less, equal, greater}

-- The probe is compared with a value and with a later one: first it is the greater, then equal to
-- some, then the smaller.
abbrev pub Follows : Comparison → Comparison → Type 0
Follows greater c = Unit
Follows equal greater = ⊥
Follows equal equal = Unit
Follows equal less = Unit
Follows less less = Unit
Follows less equal = ⊥
Follows less greater = ⊥

pub greater_cases : (c : Comparison) → (c ≡ greater) ⊎ (c ≢ greater)
greater_cases greater = inl refl
greater_cases equal = inr (λ h. cc)
greater_cases less = inr (λ h. cc)

module _ {ℓ} {A : Type ℓ} (probe : A → Comparison) where
  -- What stands before, and after, the value with the comparison.
  abbrev pub Precede : List A → Comparison → Type 0
  Precede [] c = Unit
  Precede (x ∷ xs) c = Follows (probe x) c × Precede xs c

  abbrev pub Succeed : Comparison → List A → Type 0
  Succeed c [] = Unit
  Succeed c (x ∷ xs) = Follows c (probe x) × Succeed c xs

  -- The values are in an order that the probe can search.
  abbrev pub Sweeps : List A → Type 0
  Sweeps [] = Unit
  Sweeps (x ∷ xs) = Succeed (probe x) xs × Sweeps xs

  Succeed-append :
      (c : Comparison) (xs ys : List A) → Succeed c (xs ++ ys) → Succeed c xs × Succeed c ys
  Succeed-append c [] ys s = (tt, s)
  Succeed-append c (x ∷ xs) ys s = let (a, b) = Succeed-append c xs ys s.1 in ((s.0, a), b)

  -- The values left of a value, the value itself, and those right of it.
  pub Sweeps-append :
      (xs : List A) (y : A) (ys : List A)
      → Sweeps (xs ++ y ∷ ys)
      → Sweeps xs × Precede xs (probe y) × Succeed (probe y) ys × Sweeps ys
  Sweeps-append [] y ys s = (tt, tt, s.0, s.1)
  Sweeps-append (x ∷ xs) y ys s =
      let (a, b, c, d) = Sweeps-append xs y ys s.1 in
      let (e, f) = Succeed-append (probe x) xs (y ∷ ys) s.0 in ((e, a), (f.0, b), c, d)

  -- Insertion into a sequence: before the first value that is not smaller.
  unfoldable pub insert_sorted : A → List A → List A
  insert_sorted v [] = v ∷ []
  insert_sorted v (x ∷ xs) = elim (probe x) [
    | greater ↦ x ∷ insert_sorted v xs
    | equal ↦ v ∷ x ∷ xs
    | less ↦ v ∷ x ∷ xs
  ]

  -- All the values before a smaller one are smaller.
  pub insert_sorted-right :
      (v : A) (xs : List A) (y : A) (ys : List A)
      → probe y ≡ greater
      → Precede xs greater
      → insert_sorted v (xs ++ y ∷ ys) ≡ xs ++ y ∷ insert_sorted v ys
  unfolding insert_sorted
  insert_sorted-right v [] y ys h p = rw h
  insert_sorted-right v (x ∷ xs) y ys h p = ground (arith, insert_sorted-right v xs y ys)

  pub insert_sorted-left :
      (v : A) (xs : List A) (y : A) (ys : List A)
      → probe y ≢ greater
      → insert_sorted v (xs ++ y ∷ ys) ≡ insert_sorted v xs ++ y ∷ ys
  unfolding insert_sorted
  insert_sorted-left v [] y ys h = ground arith
  insert_sorted-left v (x ∷ xs) y ys h = ground (arith, insert_sorted-left v xs y ys)
