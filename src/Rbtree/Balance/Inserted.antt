-- ===== src/Rbtree/Balance/Inserted.antt =====
-- Insertion into the red-black tree of src/rbtree.c reads no null pointer and keeps the invariant.
use u.Common.{◌≡◌, ◌≢◌, refl, Option, some, List, [], ◌∷◌, arith}
use u.Rbtree.{
  Colour, black, red, Tree, nil, node, Comparison, less, equal, greater, Side, left, right, Frame,
  frame, colour_of, join, zip,
}
use u.Rbtree.Insert.{place, grand_parent_colour, rotate_up, fix_up, insert}
use u.Rbtree.Balance.{
  black_height, IsRedBlack, IsValid, Allows, Fits, FitsIn, enter, zip-IsValid, unzip-FitsIn,
}

module _ {ℓ} {A : Type ℓ} where
  place-FitsIn :
      (compare : A → Comparison) (t : Tree A) (p : List (Frame A))
      → FitsIn t p
      → FitsIn nil (place compare t p)
  unfolding place
  place-FitsIn compare nil p f = f
  place-FitsIn compare (node c l x r) p f =
      elim (compare x)
        as (λ o. FitsIn nil (elim o [
          | greater ↦ place compare r (frame right c x l ∷ p)
          | equal ↦ place compare l (frame left c x r ∷ p)
          | less ↦ place compare l (frame left c x r ∷ p)
        ])) [
          | greater ↦ place-FitsIn compare r (frame right c x l ∷ p) (enter right c r x l p f)
          | equal ↦ place-FitsIn compare l (frame left c x r ∷ p) (enter left c l x r p f)
          | less ↦ place-FitsIn compare l (frame left c x r ∷ p) (enter left c l x r p f)
        ]

  -- The parents of the new node's place are at least those that the descent starts from.
  place-ne-nil :
      (compare : A → Comparison) (t : Tree A) (f : Frame A) (p : List (Frame A))
      → place compare t (f ∷ p) ≢ []
  unfolding place
  place-ne-nil compare nil f p = cc
  place-ne-nil compare (node c l x r) f p = ground (
    arith,
    place-ne-nil compare l (frame left c x r) (f ∷ p),
    place-ne-nil compare r (frame right c x l) (f ∷ p),
  )

  place_in_tree :
      (compare : A → Comparison) (c : Colour) (l : Tree A) (x : A) (r : Tree A)
      → place compare (node c l x r) [] ≢ []
  unfolding place
  place_in_tree compare c l x r = ground (
    arith,
    place-ne-nil compare l (frame left c x r) [],
    place-ne-nil compare r (frame right c x l) [],
  )

  rotate_up_total :
      (d : Side) (a : Tree A) (v : A) (b : Tree A) (x : A) (s : Tree A) (e : Side) (c : Colour)
      (y : A) (g : Tree A) (p : List (Frame A))
      → IsRedBlack (node red a v b)
      → Fits (black_height a) (frame d red x s ∷ frame e c y g ∷ p)
      → colour_of g ≡ black
      → (u : Tree A) × (rotate_up d (join d red (node red a v b) x s) e c y g p ≡ some u)
        × IsValid u
  unfolding rotate_up
  rotate_up_total left a v b x s left c y g p w f k =
      let u = node black (node red a v b) x (node red s y g) in
      (zip u p, refl, zip-IsValid u p (ground arith))
  rotate_up_total right a v b x s right c y g p w f k =
      let u = node black (node red g y s) x (node red a v b) in
      (zip u p, refl, zip-IsValid u p (ground arith))
  rotate_up_total right a v b x s left c y g p w f k =
      let u = node black (node red s x a) v (node red b y g) in
      (zip u p, refl, zip-IsValid u p (ground arith))
  rotate_up_total left a v b x s right c y g p w f k =
      let u = node black (node red g y a) v (node red b x s) in
      (zip u p, refl, zip-IsValid u p (ground arith))

  -- The loop's node: red, or the black root.
  abbrev InLoop : Tree A → List (Frame A) → Type 0
  InLoop t [] = colour_of t ≡ black
  InLoop t (f ∷ p) = colour_of t ≡ red

  abbrev Fixed : Option (Tree A) → Type ℓ
  Fixed o = (u : Tree A) × (o ≡ some u) × IsValid u

  rotate_up-Fixed :
      (d : Side) (t : Tree A) (x : A) (s : Tree A) (e : Side) (c : Colour) (y : A) (g : Tree A)
      (p : List (Frame A))
      → IsRedBlack t
      → Fits (black_height t) (frame d red x s ∷ frame e c y g ∷ p)
      → colour_of g ≡ black
      → colour_of t ≡ red
      → Fixed (rotate_up d (join d red t x s) e c y g p)
  rotate_up-Fixed d nil x s e c y g p w f k r = cc
  rotate_up-Fixed d (node black a v b) x s e c y g p w f k r = cc
  rotate_up-Fixed d (node red a v b) x s e c y g p w f k r =
      rotate_up_total d a v b x s e c y g p w f k

  -- A red uncle: the grandparent is the loop's next node.
  abbrev Recolours :
      Side → Tree A → A → Tree A → Side → Colour → A → Tree A → A → Tree A → List (Frame A) → Type 0
  Recolours d t x s e c y l z r p =
      let u = join e (grand_parent_colour c p) (join d black t x s) y (node black l z r) in
      IsRedBlack u × Fits (black_height u) p × InLoop u p

  recolours :
      (d : Side) (t : Tree A) (x : A) (s : Tree A) (e : Side) (c : Colour) (y : A) (l : Tree A)
      (z : A) (r : Tree A) (p : List (Frame A))
      → IsRedBlack t
      → Fits (black_height t) (frame d red x s ∷ frame e c y (node red l z r) ∷ p)
      → Recolours d t x s e c y l z r p
  recolours left t x s left c y l z r [] w f = ground arith
  recolours left t x s left c y l z r (g ∷ p) w f = ground arith
  recolours left t x s right c y l z r [] w f = ground arith
  recolours left t x s right c y l z r (g ∷ p) w f = ground arith
  recolours right t x s left c y l z r [] w f = ground arith
  recolours right t x s left c y l z r (g ∷ p) w f = ground arith
  recolours right t x s right c y l z r [] w f = ground arith
  recolours right t x s right c y l z r (g ∷ p) w f = ground arith

  below_black :
      (d : Side) (t : Tree A) (x : A) (s : Tree A) (p : List (Frame A))
      → Allows (colour_of t) (frame d black x s ∷ p)
  below_black d nil x s p = tt
  below_black d (node black l y r) x s p = tt
  below_black d (node red l y r) x s p = refl

  fix_up-Fixed :
      (t : Tree A) (p : List (Frame A))
      → IsRedBlack t
      → Fits (black_height t) p
      → InLoop t p
      → Fixed (fix_up t p)
  unfolding fix_up
  fix_up-Fixed t [] w f i = (t, refl, (i, w))
  fix_up-Fixed t (frame d black x s ∷ p) w f i = (
    zip (join d black t x s) p,
    refl,
    zip-IsValid t (frame d black x s ∷ p)
        (record { within = w; around = f; colours = below_black d t x s p }),
  )
  fix_up-Fixed t (frame d red x s ∷ []) w f i = absurd f.3
  fix_up-Fixed t (frame d red x s ∷ frame e c y nil ∷ p) w f i =
      rotate_up-Fixed d t x s e c y nil p w f refl i
  fix_up-Fixed t (frame d red x s ∷ frame e c y (node black l z r) ∷ p) w f i =
      rotate_up-Fixed d t x s e c y (node black l z r) p w f refl i
  fix_up-Fixed t (frame d red x s ∷ frame e c y (node red l z r) ∷ p) w f i =
      let next = recolours d t x s e c y l z r p w f in
      fix_up-Fixed (join e (grand_parent_colour c p) (join d black t x s) y (node black l z r)) p
        next.0 next.1 next.2

  in_loop : (v : A) (p : List (Frame A)) → p ≢ [] → InLoop (node red nil v nil) p
  in_loop v [] h = absurd (h refl)
  in_loop v (f ∷ p) h = refl

  -- Insertion into a valid tree succeeds, with no access through a null pointer, and leaves a valid
  -- tree.
  pub insert-IsValid :
      (compare : A → A → Comparison) (v : A) (t : Tree A)
      → IsValid t
      → (u : Tree A) × (insert compare v t ≡ some u) × IsValid u
  unfolding insert place
  insert-IsValid compare v nil h = (node black nil v nil, refl, ground arith)
  insert-IsValid compare v (node c l x r) h =
      let f = place-FitsIn (compare v) (node c l x r) [] (unzip-FitsIn (node c l x r) [] h) in
      fix_up-Fixed (node red nil v nil) (place (compare v) (node c l x r) []) (ground arith)
        f.around (in_loop v _ (place_in_tree (compare v) c l x r))
