-- ===== src/BssCache/Compare.antt =====
-- mac_compare of src/bss_cache.c is the lexicographic order of the addresses.
use u.Common.{ℕ, ◌≡◌, ◌↔◌, refl, ap, List, [], ◌∷◌, length, arith}
use u.Packet.{MacAddress, mac_bytes}
use u.Rbtree.{less, equal}
use u.Rbtree.Order.Laws.{IsOrder, flip}
use u.BssCache.{compare_bytes, mac_compare, ap_compare}

compare_bytes-flips :
    (a b : List ℕ) → length a ≡ length b → compare_bytes b a ≡ flip (compare_bytes a b)
unfolding compare_bytes
compare_bytes-flips [] [] e = refl
compare_bytes-flips [] (y ∷ b) e = absurd (omega arith)
compare_bytes-flips (x ∷ a) [] e = absurd (omega arith)
compare_bytes-flips (x ∷ a) (y ∷ b) e = ground (arith, compare_bytes-flips a b)

compare_bytes_trans :
    (a b c : List ℕ)
    → length a ≡ length b
    → length b ≡ length c
    → compare_bytes a b ≡ less
    → compare_bytes b c ≡ less
    → compare_bytes a c ≡ less
unfolding compare_bytes
compare_bytes_trans [] b c e f h k = cc
compare_bytes_trans (x ∷ a) [] c e f h k = absurd (omega arith)
compare_bytes_trans (x ∷ a) (y ∷ b) [] e f h k = absurd (omega arith)
compare_bytes_trans (x ∷ a) (y ∷ b) (z ∷ c) e f h k = ground (arith, compare_bytes_trans a b c)

compare_bytes-eq : (a b : List ℕ) → length a ≡ length b → compare_bytes a b ≡ equal → a ≡ b
unfolding compare_bytes
compare_bytes-eq [] [] e h = refl
compare_bytes-eq [] (y ∷ b) e h = absurd (omega arith)
compare_bytes-eq (x ∷ a) [] e h = absurd (omega arith)
compare_bytes-eq (x ∷ a) (y ∷ b) e h = ground (arith, compare_bytes-eq a b)

compare_bytes_refl : (a : List ℕ) → compare_bytes a a ≡ equal
unfolding compare_bytes
compare_bytes_refl [] = refl
compare_bytes_refl (x ∷ a) = ground (arith, compare_bytes_refl a)

mac_bytes-inj : (a b : MacAddress) → mac_bytes a ≡ mac_bytes b → a ≡ b
mac_bytes-inj a b h = ground arith

-- Two addresses compare equal exactly if they are.
pub mac_compare-eq : (a b : MacAddress) → (mac_compare a b ≡ equal) ↔ (a ≡ b)
unfolding mac_compare
mac_compare-eq a b = (
  λ h. mac_bytes-inj a b (compare_bytes-eq (mac_bytes a) (mac_bytes b) refl h),
  λ e. rw e (compare_bytes_refl (mac_bytes b)),
)

-- The comparison is that of a total order, as the tree relies on.
pub mac_compare-IsOrder : IsOrder mac_compare
unfolding mac_compare
mac_compare-IsOrder = record {
  flips = λ a b. compare_bytes-flips (mac_bytes a) (mac_bytes b) refl;
  less_trans = λ a b c. compare_bytes_trans (mac_bytes a) (mac_bytes b) (mac_bytes c) refl refl;
  equal_left = λ a b c h.
      ap (λ m. compare_bytes (mac_bytes m) (mac_bytes c))
        (mac_bytes-inj a b (compare_bytes-eq (mac_bytes a) (mac_bytes b) refl h));
}

-- The access points are in the order of their addresses.
pub ap_compare-IsOrder : (mac_of : ℕ → MacAddress) → IsOrder (ap_compare mac_of)
ap_compare-IsOrder mac_of =
    let o = mac_compare-IsOrder in
    record {
      flips = λ a b. o.flips (mac_of a) (mac_of b);
      less_trans = λ a b c. o.less_trans (mac_of a) (mac_of b) (mac_of c);
      equal_left = λ a b c. o.equal_left (mac_of a) (mac_of b) (mac_of c);
    }
