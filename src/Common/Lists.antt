-- ===== src/Common/Lists.antt =====
-- Byte buffers as lists, indexed by native numbers, with the routines of src/string.c.
use Prim.Native.Nat.{ℕ, zero, suc, ◌+◌, ◌-◌, ◌≤◌, ◌<◌, min}
use mathlib.Core.Path.{◌≡◌, refl, ap, ◌∙◌}
use mathlib.Core.List.{List, [], ◌∷◌, ◌++◌}
use native.Mathlib.Omega.{arith}

module _ {ℓ} {A : Type ℓ} where
  abbrev pub length : List A → ℕ
  length [] = 0
  length (x ∷ xs) = suc (length xs)

  abbrev pub get_or : List A → ℕ → A → A
  get_or [] i d = d
  get_or (x ∷ xs) zero d = x
  get_or (x ∷ xs) (suc i) d = get_or xs i d

  -- A write out of bounds changes nothing.
  abbrev pub set : List A → ℕ → A → List A
  set [] i v = []
  set (x ∷ xs) zero v = v ∷ xs
  set (x ∷ xs) (suc i) v = x ∷ set xs i v

  abbrev pub take : ℕ → List A → List A
  take zero xs = []
  take (suc n) [] = []
  take (suc n) (x ∷ xs) = x ∷ take n xs

  abbrev pub drop : ℕ → List A → List A
  drop zero xs = xs
  drop (suc n) [] = []
  drop (suc n) (x ∷ xs) = drop n xs

  abbrev pub replicate : ℕ → A → List A
  replicate zero a = []
  replicate (suc n) a = a ∷ replicate n a

  -- `memcpy(dest + offset, source, size)`, where `source` holds the `size` bytes that are copied:
  -- the source's bytes replace those of the destination from the offset on. What would be
  -- written past the end is dropped.
  abbrev pub memcpy : List A → ℕ → List A → List A
  memcpy [] offset source = []
  memcpy (d ∷ dest) (suc offset) source = d ∷ memcpy dest offset source
  memcpy (d ∷ dest) zero [] = d ∷ dest
  memcpy (d ∷ dest) zero (s ∷ source) = s ∷ memcpy dest zero source

  pub length-append : (xs ys : List A) → length (xs ++ ys) ≡ length xs + length ys
  length-append [] ys = omega arith
  length-append (x ∷ xs) ys = omega (arith, length-append xs ys)

  pub length-take : (n : ℕ) (xs : List A) → length (take n xs) ≡ min n (length xs)
  length-take zero xs = omega arith
  length-take (suc n) [] = omega arith
  length-take (suc n) (x ∷ xs) = omega (arith, length-take n xs)

  pub length-drop : (n : ℕ) (xs : List A) → length (drop n xs) ≡ length xs - n
  length-drop zero xs = omega arith
  length-drop (suc n) [] = omega arith
  length-drop (suc n) (x ∷ xs) = omega (arith, length-drop n xs)

  pub length-replicate : (n : ℕ) (a : A) → length (replicate n a) ≡ n
  length-replicate zero a = refl
  length-replicate (suc n) a = ap suc (length-replicate n a)

  pub length-set : (xs : List A) (i : ℕ) (v : A) → length (set xs i v) ≡ length xs
  length-set [] i v = refl
  length-set (x ∷ xs) zero v = refl
  length-set (x ∷ xs) (suc i) v = ap suc (length-set xs i v)

  pub length-memcpy :
      (dest : List A) (offset : ℕ) (source : List A)
      → length (memcpy dest offset source) ≡ length dest
  length-memcpy [] offset source = refl
  length-memcpy (d ∷ dest) (suc offset) source = ap suc (length-memcpy dest offset source)
  length-memcpy (d ∷ dest) zero [] = refl
  length-memcpy (d ∷ dest) zero (s ∷ source) = ap suc (length-memcpy dest zero source)

  pub memcpy-nil : (dest : List A) (offset : ℕ) → memcpy dest offset [] ≡ dest
  memcpy-nil [] offset = refl
  memcpy-nil (d ∷ dest) zero = refl
  memcpy-nil (d ∷ dest) (suc offset) = ap (λ r. d ∷ r) (memcpy-nil dest offset)

  -- The source stands from the offset on, and what follows it stays.
  pub drop-memcpy :
      (dest : List A) (offset : ℕ) (source : List A)
      → offset + length source ≤ length dest
      → drop offset (memcpy dest offset source) ≡ source ++ drop (length source) (drop offset dest)
  drop-memcpy [] zero [] h = refl
  drop-memcpy [] zero (s ∷ source) h = absurd (omega arith)
  drop-memcpy [] (suc offset) source h = absurd (omega arith)
  drop-memcpy (d ∷ dest) zero [] h = refl
  drop-memcpy (d ∷ dest) zero (s ∷ source) h =
      ap (λ r. s ∷ r) (drop-memcpy dest zero source (omega arith))
  drop-memcpy (d ∷ dest) (suc offset) source h = drop-memcpy dest offset source (omega arith)

  -- What stands before the offset stays.
  pub take-memcpy :
      (dest : List A) (offset : ℕ) (source : List A)
      → take offset (memcpy dest offset source) ≡ take offset dest
  take-memcpy [] zero source = refl
  take-memcpy [] (suc offset) source = refl
  take-memcpy (d ∷ dest) zero source = refl
  take-memcpy (d ∷ dest) (suc offset) source = ap (λ r. d ∷ r) (take-memcpy dest offset source)

  pub take-append_all : (xs ys : List A) (n : ℕ) → n ≡ length xs → take n (xs ++ ys) ≡ xs
  take-append_all [] [] zero e = refl
  take-append_all [] (y ∷ ys) zero e = refl
  take-append_all [] ys (suc n) e = absurd (omega arith)
  take-append_all (x ∷ xs) ys zero e = absurd (omega arith)
  take-append_all (x ∷ xs) ys (suc n) e = ap (λ q. x ∷ q) (take-append_all xs ys n (omega arith))

  pub drop-append : (xs ys : List A) (n : ℕ) → n ≡ length xs → drop n (xs ++ ys) ≡ ys
  drop-append [] ys zero e = refl
  drop-append [] ys (suc n) e = absurd (omega arith)
  drop-append (x ∷ xs) ys zero e = absurd (omega arith)
  drop-append (x ∷ xs) ys (suc n) e = drop-append xs ys n (omega arith)

  -- Two adjacent copies are one.
  pub memcpy-append :
      (dest : List A) (offset next : ℕ) (source more : List A)
      → next ≡ offset + length source
      → memcpy (memcpy dest offset source) next more ≡ memcpy dest offset (source ++ more)
  memcpy-append [] offset next source more e = refl
  memcpy-append (d ∷ dest) (suc offset) zero source more e = absurd (omega arith)
  memcpy-append (d ∷ dest) (suc offset) (suc next) source more e =
      ap (λ r. d ∷ r) (memcpy-append dest offset next source more (omega arith))
  memcpy-append (d ∷ dest) zero zero [] more e = refl
  memcpy-append (d ∷ dest) zero (suc next) [] more e = absurd (omega arith)
  memcpy-append (d ∷ dest) zero zero (s ∷ source) more e = absurd (omega arith)
  memcpy-append (d ∷ dest) zero (suc next) (s ∷ source) more e =
      ap (λ r. s ∷ r) (memcpy-append dest zero next source more (omega arith))

  pub drop-drop : (n k : ℕ) (xs : List A) → drop n (drop k xs) ≡ drop (k + n) xs
  drop-drop n zero xs = ap (λ j. drop j xs) (omega arith)
  drop-drop zero (suc k) [] = ap {B = List A} (λ j. drop j []) {x = suc k} (omega arith)
  drop-drop (suc n) (suc k) [] =
      ap {B = List A} (λ j. drop j []) {x = suc (k + suc n)} (omega arith)
  drop-drop n (suc k) (x ∷ xs) =
      drop-drop n k xs ∙ ap {B = List A} (λ j. drop j (x ∷ xs)) {x = suc (k + n)} (omega arith)

  pub take-append : (xs ys : List A) (n : ℕ) → take (length xs + n) (xs ++ ys) ≡ xs ++ take n ys
  take-append [] ys n = ap (λ k. take k ys) (omega arith)
  take-append (x ∷ xs) ys n =
      ap {B = List A} (λ k. take k (x ∷ xs ++ ys)) {y = suc (length xs + n)} (omega arith)
      ∙ ap (λ r. x ∷ r) (take-append xs ys n)

-- Every element of a buffer is a byte.
abbrev pub AllBytes : List ℕ → Type 0
AllBytes [] = Unit
AllBytes (b ∷ bs) = (b < 256) × AllBytes bs
