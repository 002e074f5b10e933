-- ===== src/Management/Rates.antt =====
-- The rate elements that src/packet_management.c builds.
use Prim.Native.Nat.{min}
use u.Common.{
  ℕ, zero, suc, ◌+◌, ◌-◌, ◌≤◌, ◌<◌, ◌≡◌, refl, sym, ap, ap₂, ◌∙◌, ◌⊎◌, inl, inr, List, [], ◌∷◌,
  ◌++◌, ltb, if◌then◌else◌, length, take, drop, length-append, length-take, length-drop, arith,
}
use u.Management.{
  min_count, has_rate, count_rates_from, count_rates, rate_information_elements_size,
  serialize_rates_from, serialize_rate_information_elements,
}

-- The rates of a bitmap, in order.
unfoldable pub rates_from : List ℕ → ℕ → ℕ → List ℕ
rates_from rate_bitmap zero rate = []
rates_from rate_bitmap (suc left) rate =
    let rest = rates_from rate_bitmap left (suc rate) in
    if has_rate rate_bitmap rate then rate ∷ rest else rest

unfoldable pub rates_of : List ℕ → List ℕ
rates_of rate_bitmap = rates_from rate_bitmap 126 0

-- The elements for a list of rates: the first eight in one, the others in a second one if there are any.
abbrev pub rate_elements : List ℕ → List ℕ
rate_elements rates =
    1 ∷ min (length rates) 8 ∷ take 8 rates
    ++ (if ltb 8 (length rates) then 50 ∷ (length rates - 8) ∷ drop 8 rates else [])

count_rates_from-length :
    (b : List ℕ) (left rate : ℕ) → count_rates_from b left rate ≡ length (rates_from b left rate)
unfolding count_rates_from rates_from
count_rates_from-length b zero rate = refl
count_rates_from-length b (suc left) rate =
    let rest = count_rates_from-length b left (suc rate) in ground arith

-- past the end of the first element, or where there is no second one, the rates follow each other
plain_rates :
    (b : List ℕ) (supported extended left rate index : ℕ)
    → (extended ≡ 0) ⊎ (supported < index)
    → serialize_rates_from b supported extended left rate index ≡ rates_from b left rate
unfolding serialize_rates_from rates_from
plain_rates b supported extended zero rate index h = refl
plain_rates b supported extended (suc left) rate index h =
    let skip = plain_rates b supported extended left (suc rate) index h in
    let next =
      plain_rates b supported extended left (suc rate) (suc index)
        (elim h [ inl e ↦ inl e | inr k ↦ inr (omega arith) ]) in
    ground arith

-- from an index in the first element on, with room for `room` rates there and a second one to come
split_rates :
    (b : List ℕ) (extended room left rate index : ℕ)
    → 0 < extended
    → serialize_rates_from b (index + room) extended left rate index ≡ (
        let rates = rates_from b left rate in
        take room rates
        ++ (if ltb room (length rates) then 50 ∷ extended ∷ drop room rates else []))
unfolding serialize_rates_from rates_from
split_rates b extended zero zero rate index h = refl
split_rates b extended (suc room) zero rate index h = ground arith
split_rates b extended zero (suc left) rate index h =
    let skip = split_rates b extended zero left (suc rate) index h in
    let next = plain_rates b (index + 0) extended left (suc rate) (suc index) (inr (omega arith)) in
    ground arith
split_rates b extended (suc room) (suc left) rate index h =
    let skip = split_rates b extended (suc room) left (suc rate) index h in
    let next = split_rates b extended room left (suc rate) (suc index) h in
    let same : suc index + room ≡ index + suc room = omega arith in ground arith

all_taken : (n : ℕ) (xs : List ℕ) → length xs ≤ n → take n xs ++ [] ≡ xs
all_taken zero [] h = refl
all_taken zero (x ∷ xs) h = absurd (omega arith)
all_taken (suc n) [] h = refl
all_taken (suc n) (x ∷ xs) h = ap (λ r. x ∷ r) (all_taken n xs (omega arith))

abbrev tail_of : List ℕ → List ℕ
tail_of rates = if ltb 8 (length rates) then 50 ∷ (length rates - 8) ∷ drop 8 rates else []

cut_off : (n : ℕ) → ((n ≤ 8) × (n - min_count n 8 ≡ 0)) ⊎ ((8 < n) × (min_count n 8 ≡ 8))
cut_off n = ground arith

short_tail : (rates : List ℕ) → length rates ≤ 8 → tail_of rates ≡ []
short_tail rates h = ground arith

both_elements :
    (b : List ℕ) (left n : ℕ)
    → n ≡ length (rates_from b left 0)
    → serialize_rates_from b (min_count n 8) (n - min_count n 8) left 0 0
      ≡ take 8 (rates_from b left 0) ++ tail_of (rates_from b left 0)
both_elements b left n e = elim (cut_off n) [
  | inl (small, none_left) ↦
      plain_rates b (min_count n 8) (n - min_count n 8) left 0 0 (inl none_left)
      ∙ sym (all_taken 8 (rates_from b left 0) (omega arith))
      ∙ ap (λ t. take 8 (rates_from b left 0) ++ t)
          (sym (short_tail (rates_from b left 0) (omega arith)))
  | inr (large, eight) ↦
      ap₂ (λ s k. serialize_rates_from b s k left 0 0) eight (omega arith)
      ∙ split_rates b (length (rates_from b left 0) - 8) 8 left 0 0 (omega arith)
]

both_elements_length :
    (rates : List ℕ)
    → suc (suc (length (take 8 rates ++ tail_of rates)))
      ≡ rate_information_elements_size (length rates)
unfolding rate_information_elements_size
both_elements_length rates =
    let a = length-append (take 8 rates) (tail_of rates) in
    let t = length-take 8 rates in let d = length-drop 8 rates in ground arith

-- The elements that are built for a bitmap list exactly its rates from 0 to 125, in order: the first
-- eight in a Supported Rates element, the others in an Extended Supported Rates element if there
-- are any; and they take as many bytes as `rate_information_elements_size` says.
pub serialize_rate_information_elements_lem :
    (b : List ℕ)
    → (serialize_rate_information_elements b (count_rates b) ≡ rate_elements (rates_of b))
      × (length (serialize_rate_information_elements b (count_rates b))
          ≡ rate_information_elements_size (count_rates b))
unfolding serialize_rate_information_elements count_rates rates_of
serialize_rate_information_elements_lem b =
    let n = count_rates_from-length b 126 0 in
    let built =
      ap₂ (λ s r. 1 ∷ s ∷ r) (min_same n) (both_elements b 126 (count_rates_from b 126 0) n) in
    (
      built,
      ap length built
          ∙ both_elements_length (rates_from b 126 0)
          ∙ ap rate_information_elements_size (sym n),
    )
  where
    min_same : {x y : ℕ} → x ≡ y → min_count x 8 ≡ min y 8
    min_same e = ground arith
