-- ===== src/Michael/Half.antt =====
-- The key and the length of the code of src/michael.c.
use u.Common.{ℕ, ◌≡◌, refl, ap₂, List, [], ◌∷◌, ◌++◌, length, drop, take}
use u.Common.{deserialize_le32, serialize_le32}
use u.Michael.{michael_mic, michael_update, michael_finish}

-- A code depends on the first eight bytes of its key only.
le32_halves :
    (key : List ℕ)
    → (deserialize_le32 (take 8 key) ≡ deserialize_le32 key)
      × (deserialize_le32 (drop 4 (take 8 key)) ≡ deserialize_le32 (drop 4 key))
unfolding deserialize_le32
le32_halves [] = (refl, refl)
le32_halves (k0 ∷ []) = (refl, refl)
le32_halves (k0 ∷ k1 ∷ []) = (refl, refl)
le32_halves (k0 ∷ k1 ∷ k2 ∷ []) = (refl, refl)
le32_halves (k0 ∷ k1 ∷ k2 ∷ k3 ∷ []) = (refl, refl)
le32_halves (k0 ∷ k1 ∷ k2 ∷ k3 ∷ k4 ∷ []) = (refl, refl)
le32_halves (k0 ∷ k1 ∷ k2 ∷ k3 ∷ k4 ∷ k5 ∷ []) = (refl, refl)
le32_halves (k0 ∷ k1 ∷ k2 ∷ k3 ∷ k4 ∷ k5 ∷ k6 ∷ []) = (refl, refl)
le32_halves (k0 ∷ k1 ∷ k2 ∷ k3 ∷ k4 ∷ k5 ∷ k6 ∷ k7 ∷ key) = (refl, refl)

pub michael_mic-take :
    (key da sa : List ℕ) (priority : ℕ) (bytes : List ℕ)
    → michael_mic (take 8 key) da sa priority bytes ≡ michael_mic key da sa priority bytes
unfolding michael_mic
michael_mic-take key da sa priority bytes =
    ap₂
      (λ l r.
        let context = michael_finish (
          michael_update
            (michael_update (record { left = l; right = r; pending = [] })
              (da ++ sa ++ (priority ∷ 0 ∷ 0 ∷ 0 ∷ [])))
            bytes) in
        serialize_le32 context.left ++ serialize_le32 context.right)
      (le32_halves key).0 (le32_halves key).1

pub michael_mic-length :
    (key da sa : List ℕ) (priority : ℕ) (bytes : List ℕ)
    → length (michael_mic key da sa priority bytes) ≡ 8
unfolding michael_mic serialize_le32
michael_mic-length key da sa priority bytes = refl
