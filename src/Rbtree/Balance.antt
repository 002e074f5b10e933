-- ===== src/Rbtree/Balance.antt =====
-- The red-black invariant of src/rbtree.c: no red node has a red child, every way down meets as many
-- black nodes, and the root is black; and what it means for the parents of a node.
pub mod Inserted
pub mod Removed
pub mod Height
use u.Common.{ℕ, suc, ◌+◌, ◌≡◌, refl, sym, List, [], ◌∷◌, arith}
use u.Rbtree.{
  Colour, black, red, Tree, nil, node, Side, left, right, Frame, frame, Node, colour_of, join, zip,
  subtree, tree_of,
}

-- The black nodes on a way down from a node of the colour, with those below it.
abbrev pub above : Colour → ℕ → ℕ
above black h = suc h
above red h = h

module _ {ℓ} {A : Type ℓ} where
  abbrev pub black_height : Tree A → ℕ
  black_height nil = 0
  black_height (node red l x r) = black_height l
  black_height (node black l x r) = suc (black_height l)

  -- What the colour of a node asks of its children.
  abbrev pub MayHave : Colour → Tree A → Tree A → Type 0
  MayHave black l r = Unit
  MayHave red l r = (colour_of l ≡ black) × (colour_of r ≡ black)

  abbrev pub IsRedBlack : Tree A → Type 0
  IsRedBlack nil = Unit
  IsRedBlack (node c l x r) =
      MayHave c l r × (black_height l ≡ black_height r) × IsRedBlack l × IsRedBlack r

  abbrev pub IsValid : Tree A → Type 0
  IsValid t = (colour_of t ≡ black) × IsRedBlack t

  -- A red node stands under a black parent.
  abbrev pub Allows : Colour → List (Frame A) → Type 0
  Allows black p = Unit
  Allows red [] = ⊥
  Allows red (frame d c x s ∷ p) = c ≡ black

  -- A parent's colour and its other child.
  abbrev pub MaySit : Colour → Tree A → Type 0
  MaySit black s = Unit
  MaySit red s = colour_of s ≡ black

  -- A subtree with `h` black nodes on each way down fits below these parents.
  abbrev pub Fits : ℕ → List (Frame A) → Type 0
  Fits h [] = Unit
  Fits h (frame d c x s ∷ p) =
      IsRedBlack s × (black_height s ≡ h) × MaySit c s × Allows c p × Fits (above c h) p

  -- A subtree and its parents.
  pub record FitsIn (t : Tree A) (p : List (Frame A)) : Type 0 where
    pub within : IsRedBlack t
    pub around : Fits (black_height t) p
    pub colours : Allows (colour_of t) p

  pub enter :
      (d : Side) (c : Colour) (t : Tree A) (x : A) (s : Tree A) (p : List (Frame A))
      → FitsIn (join d c t x s) p
      → FitsIn t (frame d c x s ∷ p)
  enter left black t x s p f = ground arith
  enter left red t x s p f = ground arith
  enter right black t x s p f = ground arith
  enter right red t x s p f = ground arith

  pub below_red :
      (d : Side) (t : Tree A) (x : A) (s : Tree A) (p : List (Frame A))
      → Allows (colour_of t) (frame d red x s ∷ p)
      → colour_of t ≡ black
  below_red d nil x s p a = refl
  below_red d (node black l y r) x s p a = refl
  below_red d (node red l y r) x s p a = cc

  pub leave :
      (d : Side) (c : Colour) (t : Tree A) (x : A) (s : Tree A) (p : List (Frame A))
      → FitsIn t (frame d c x s ∷ p)
      → FitsIn (join d c t x s) p
  leave left black t x s p f = ground arith
  leave left red t x s p f = ground (arith, below_red left t x s p f.colours)
  leave right black t x s p f = ground (arith, sym f.around.1)
  leave right red t x s p f = ground (arith, below_red right t x s p f.colours, sym f.around.1)

  pub at_root : (t : Tree A) → Allows (colour_of t) [] → colour_of t ≡ black
  at_root nil a = refl
  at_root (node black l x r) a = refl
  at_root (node red l x r) a = absurd a

  -- A subtree that fits below its parents makes a valid tree with them.
  pub zip-IsValid : (t : Tree A) (p : List (Frame A)) → FitsIn t p → IsValid (zip t p)
  zip-IsValid t [] f = (at_root t f.colours, f.within)
  zip-IsValid t (frame d c x s ∷ p) f = zip-IsValid (join d c t x s) p (leave d c t x s p f)

  pub unzip-FitsIn : (t : Tree A) (p : List (Frame A)) → IsValid (zip t p) → FitsIn t p
  unzip-FitsIn t [] v = record { within = v.1; around = tt; colours = rw v.0 tt }
  unzip-FitsIn t (frame d c x s ∷ p) v = enter d c t x s p (unzip-FitsIn (join d c t x s) p v)
