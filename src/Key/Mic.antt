-- ===== src/Key/Mic.antt =====
-- The comparison of message integrity codes in src/key.c, which looks at every byte.
use Prim.Native.Nat.{bit_or, bit_xor}
use u.Common.{ℕ, ◌≡◌, refl, ap₂, ◌↔◌, true, List, [], ◌∷◌, ==_iff, length, arith}
use u.Common.Bits.{bit_or-eq-zero, bit_xor-eq-zero, bit_or_zeroes}
use u.Key.{mic_difference, mic_equal}

difference_zero :
    (a b : List ℕ) (d : ℕ) → length a ≡ length b → mic_difference a b d ≡ 0 → (d ≡ 0) × (a ≡ b)
unfolding mic_difference
difference_zero [] [] d h e = (e, refl)
difference_zero [] (y ∷ b) d h e = absurd (omega arith)
difference_zero (x ∷ a) [] d h e = absurd (omega arith)
difference_zero (x ∷ a) (y ∷ b) d h e =
    let ih = difference_zero a b (bit_or d (bit_xor x y)) (omega arith) e in
    let parts = bit_or-eq-zero d (bit_xor x y) ih.0 in
    (parts.0, ap₂ ◌∷◌ ((bit_xor-eq-zero x y).0 parts.1) ih.1)

difference_self : (a : List ℕ) → mic_difference a a 0 ≡ 0
unfolding mic_difference
difference_self [] = refl
difference_self (x ∷ a) = rw ((bit_xor-eq-zero x x).1 refl, bit_or_zeroes) (difference_self a)

-- The accumulated difference is zero exactly when the two codes, of one length, are the same.
pub mic_equal_iff : (a b : List ℕ) → length a ≡ length b → (mic_equal a b ≡ true) ↔ (a ≡ b)
unfolding mic_equal
mic_equal_iff a b h = (
  (λ e. (difference_zero a b 0 h ((==_iff (mic_difference a b 0) 0).0 e)).1),
  λ e. rw (← e) ((==_iff (mic_difference a a 0) 0).1 (difference_self a)),
)
