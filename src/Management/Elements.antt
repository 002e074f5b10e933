-- ===== src/Management/Elements.antt =====
-- Which bytes `process_information_elements` accepts, and what it does with them.
use u.Common.{
  ℕ, zero, suc, ◌≤◌, ◌≡◌, refl, ap, ◌∙◌, Bool, true, false, Option, none, some, List, [], ◌∷◌, ◌++◌,
  ltb, if◌then◌else◌, length, take, drop, length-append, length-take, ap₂, arith,
}
use u.Management.{ElementData, process_element, elements_from, process_information_elements}

-- An information element: its id and its bytes.
pub record Element : Type 0 where
  pub id : ℕ
  pub bytes : List ℕ

abbrev pub encode : List Element → List ℕ
encode [] = []
encode (x ∷ xs) = x.id ∷ length x.bytes ∷ x.bytes ++ encode xs

-- The elements taken one after the other.
pub apply_all : Bool → List Element → ElementData → Option ElementData
apply_all wanted [] e = some e
apply_all wanted (x ∷ xs) e = elim (process_element wanted x.id x.bytes e) [
  | none ↦ none
  | some e1 ↦ apply_all wanted xs e1
]

take_append_all : (xs ys : List ℕ) → take (length xs) (xs ++ ys) ≡ xs
take_append_all [] ys = refl
take_append_all (x ∷ xs) ys = ap (λ r. x ∷ r) (take_append_all xs ys)

drop_append_all : (xs ys : List ℕ) → drop (length xs) (xs ++ ys) ≡ ys
drop_append_all [] ys = refl
drop_append_all (x ∷ xs) ys = drop_append_all xs ys

bind_same :
    (r : Option ElementData) (f g : ElementData → Option ElementData)
    → ((e : ElementData) → f e ≡ g e)
    → elim r [ none ↦ none | some e ↦ f e ] ≡ elim r [ none ↦ none | some e ↦ g e ]
bind_same none f g h = refl
bind_same (some e) f g h = h e

fits : (xs ys : List ℕ) → ltb (length (xs ++ ys)) (length xs) ≡ false
fits xs ys = let n = length-append xs ys in ground arith

elements_from-encode :
    (fuel : ℕ) (wanted : Bool) (xs : List Element) (e : ElementData)
    → length (encode xs) ≤ fuel
    → elements_from fuel wanted (encode xs) e ≡ apply_all wanted xs e
unfolding elements_from apply_all
elements_from-encode fuel wanted [] e h = refl
elements_from-encode zero wanted (x ∷ xs) e h = absurd (omega arith)
elements_from-encode (suc fuel) wanted (x ∷ xs) e h = rw (fits x.bytes (encode xs)) (
    rw (take_append_all x.bytes (encode xs)) (
      bind_same (process_element wanted x.id x.bytes e)
        (λ e1. elements_from fuel wanted (drop (length x.bytes) (x.bytes ++ encode xs)) e1)
        (λ e1. apply_all wanted xs e1)
        (λ e1.
          ap (λ q. elements_from fuel wanted q e1) (drop_append_all x.bytes (encode xs))
          ∙ elements_from-encode fuel wanted xs e1
              (omega (arith, length-append x.bytes (encode xs))))))

-- A sequence of elements is parsed as what it encodes: each element is taken once, in order, with
-- exactly its bytes, and the result is false exactly where one of them is refused.
pub process_information_elements-encode :
    (wanted : Bool) (xs : List Element) (e : ElementData)
    → process_information_elements wanted (encode xs) e ≡ apply_all wanted xs e
unfolding process_information_elements
process_information_elements-encode wanted xs e =
    elements_from-encode (length (encode xs)) wanted xs e (omega arith)

take-drop : (n : ℕ) (xs : List ℕ) → take n xs ++ drop n xs ≡ xs
take-drop zero xs = refl
take-drop (suc n) [] = refl
take-drop (suc n) (x ∷ xs) = ap (λ r. x ∷ r) (take-drop n xs)

bound_some :
    (r : Option ElementData) (f : ElementData → Option ElementData) {out : ElementData}
    → elim r [ none ↦ none | some e ↦ f e ] ≡ some out
    → (e : ElementData) × (f e ≡ some out)
bound_some none f h = absurd (cc)
bound_some (some e) f h = (e, h)

guard_passed :
    (b : Bool) {r : Option ElementData} {out : ElementData}
    → (if b then none else r) ≡ some out
    → (b ≡ false) × (r ≡ some out)
guard_passed true h = absurd (cc)
guard_passed false h = (refl, h)

length_taken :
    (size : ℕ) (rest : List ℕ) → ltb (length rest) size ≡ false → length (take size rest) ≡ size
length_taken size rest h = let n = length-take size rest in ground arith

-- accepted bytes are cut into elements from the front
elements_from-Encoded :
    (fuel : ℕ) (wanted : Bool) (bytes : List ℕ) (e : ElementData) {out : ElementData}
    → elements_from fuel wanted bytes e ≡ some out
    → (xs : List Element) × (encode xs ≡ bytes)
unfolding elements_from
elements_from-Encoded fuel wanted [] e h = ([], refl)
elements_from-Encoded zero wanted (id ∷ rest) e h = absurd (cc)
elements_from-Encoded (suc fuel) wanted (id ∷ []) e h = absurd (cc)
elements_from-Encoded (suc fuel) wanted (id ∷ size ∷ rest) e h =
    let (long, h1) = guard_passed (ltb (length rest) size) h in
    let (e1, h2) =
      bound_some (process_element wanted id (take size rest) e)
        (λ q. elements_from fuel wanted (drop size rest) q) h1 in
    let (xs, eq) = elements_from-Encoded fuel wanted (drop size rest) e1 h2 in
    (
      record { id = id; bytes = take size rest } ∷ xs,
      ap₂ (λ n q. id ∷ n ∷ q) (length_taken size rest long)
          (ap (λ q. take size rest ++ q) eq ∙ take-drop size rest),
    )

-- Bytes are accepted only where they encode a sequence of elements: none is left over and none is
-- missing.
pub process_information_elements-Encoded :
    (wanted : Bool) (bytes : List ℕ) (e out : ElementData)
    → process_information_elements wanted bytes e ≡ some out
    → (xs : List Element) × (encode xs ≡ bytes)
unfolding process_information_elements
process_information_elements-Encoded wanted bytes e out h =
    elements_from-Encoded (length bytes) wanted bytes e h
