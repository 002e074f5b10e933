-- ===== src/Rbtree/Balance/Height.antt =====
-- The height of the red-black tree of src/rbtree.c is logarithmic in the number of its values, and
-- so are the loops that go down it.
use u.Common.{ℕ, suc, ◌+◌, ◌*◌, ◌^◌, ◌≤◌, List, [], ◌∷◌, length, length-append, arith}
use Prim.Native.Nat.{max}
use native.Mathlib.Nat.{two-pow-succ}
use u.Rbtree.{Colour, black, red, Tree, nil, node, Comparison, left, right, Frame, frame, colour_of}
use u.Rbtree.Insert.{place}
use u.Rbtree.Sequence.{to_list}
use u.Rbtree.Balance.{black_height, IsRedBlack, IsValid}

-- A red node may add one to the depth.
abbrev reds : Colour → ℕ
reds black = 0
reds red = 1

reds-le : (c : Colour) → reds c ≤ 1
reds-le black = omega arith
reds-le red = omega arith

-- The bound of a node from those of its two sides.
double : (n a b : ℕ) → 2 ^ n ≤ a + 1 → 2 ^ n ≤ b + 1 → 2 ^ suc n ≤ a + suc b + 1
double n a b h k = omega (arith, two-pow-succ n)

module _ {ℓ} {A : Type ℓ} where
  abbrev pub depth : Tree A → ℕ
  depth nil = 0
  depth (node c l x r) = suc (max (depth l) (depth r))

  size-black : (t : Tree A) → IsRedBlack t → 2 ^ black_height t ≤ length (to_list t) + 1
  size-black nil w = omega arith
  size-black (node black l x r) w = rw (length-append (to_list l) (x ∷ to_list r)) (
      double (black_height l) (length (to_list l)) (length (to_list r)) (size-black l w.2)
        (rw w.1 (size-black r w.3)))
  size-black (node red l x r) w =
      omega (arith, size-black l w.2, length-append (to_list l) (x ∷ to_list r))

  depth-black : (t : Tree A) → IsRedBlack t → depth t ≤ 2 * black_height t + reds (colour_of t)
  depth-black nil w = omega arith
  depth-black (node black l x r) w =
      ground
        (arith, depth-black l w.2, depth-black r w.3, reds-le (colour_of l), reds-le (colour_of r))
  depth-black (node red l x r) w = ground (arith, depth-black l w.2, depth-black r w.3)

  -- Every loop that goes down a valid tree with n values is logarithmic: no way down is longer than
  -- 2 log2(n + 1).
  pub depth_bound :
      (t : Tree A)
      → IsValid t
      → (depth t ≤ 2 * black_height t) × (2 ^ black_height t ≤ length (to_list t) + 1)
  depth_bound t v = (ground (arith, depth-black t v.1), size-black t v.1)

  -- The place of an insertion is no deeper than the tree.
  pub length-place :
      (k : A → Comparison) (t : Tree A) (p : List (Frame A))
      → length (place k t p) ≤ length p + depth t
  unfolding place
  length-place k nil p = omega arith
  length-place k (node c l x r) p =
      ground
        (arith, length-place k l (frame left c x r ∷ p), length-place k r (frame right c x l ∷ p))

  -- The place of an insertion into a valid tree lies at most twice as deep as there are black nodes on
  -- a way down, whatever the comparison says, and two to that number is at most one more than the
  -- number of values.
  pub place_bound :
      (k : A → Comparison) (t : Tree A)
      → IsValid t
      → (length (place k t []) ≤ 2 * black_height t) × (2 ^ black_height t ≤ length (to_list t) + 1)
  place_bound k t v =
      let (deep, size) = depth_bound t v in (ground (arith, length-place k t [], deep), size)
