-- ===== src/Ringbuffer/Window.antt =====
-- The bytes that a ring holds from a position on, going round at its size.
use Prim.Native.Nat.{min}
use u.Common.{
  ℕ, zero, suc, ◌+◌, ◌-◌, ◌%◌, ◌≤◌, ◌<◌, ◌≡◌, ◌≢◌, refl, sym, ap, ap₂, ◌∙◌, List, [], ◌∷◌, ◌++◌,
  length, length-set, get_or, set, take, drop, memcpy, memcpy-nil, arith,
}
use mathlib.Core.List.{append-nil, append_assoc}
use native.Mathlib.Nat.{mod-add-mod, mod-eq_of_lt, mod-eq-sub-mod, mod-lt}
use native.Mathlib.Numerals.{add-one}
use native.Mathlib.Decide.{dec_lt}

module _ (bytes : List ℕ) (size : ℕ) where
  -- `n` bytes from the position `p`, which is not reduced.
  unfoldable pub window : ℕ → ℕ → List ℕ
  window p zero = []
  window p (suc n) = get_or bytes (p % size) 0 ∷ window (suc p) n

  pub length-window : (p n : ℕ) → length (window p n) ≡ n
  unfolding window
  length-window p zero = refl
  length-window p (suc n) = ap suc (length-window (suc p) n)

  pub window-append : (p n k : ℕ) → window p (n + k) ≡ window p n ++ window (p + n) k
  unfolding window
  window-append p zero k = ap₂ (λ q m. window q m) (omega arith) (omega arith)
  window-append p (suc n) k =
      ap (λ m. window p m) {y = suc (n + k)} (omega arith)
      ∙ ap (λ r. get_or bytes (p % size) 0 ∷ r)
          (window-append (suc p) n k ∙ ap (λ q. window (suc p) n ++ window q k) (omega arith))

  pub window-one : (p : ℕ) → window p 1 ≡ get_or bytes (p % size) 0 ∷ []
  unfolding window
  window-one p = refl

  pub take-window : (p n k : ℕ) → take k (window p n) ≡ window p (min k n)
  unfolding window
  take-window p n zero = ap {B = List ℕ} (window p) {x = 0} (omega arith)
  take-window p zero (suc k) = ap {B = List ℕ} (window p) {x = 0} (omega arith)
  take-window p (suc n) (suc k) =
      ap (λ r. get_or bytes (p % size) 0 ∷ r) (take-window (suc p) n k)
      ∙ ap (window p) {x = suc (min k n)} (omega arith)

  pub drop-window : (p n k : ℕ) → drop k (window p n) ≡ window (p + min k n) (n - min k n)
  unfolding window
  drop-window p n zero = ap₂ (λ q m. window q m) (omega arith) (omega arith)
  drop-window p zero (suc k) = ap {B = List ℕ} (window (p + min (suc k) 0)) {x = 0} (omega arith)
  drop-window p (suc n) (suc k) =
      drop-window (suc p) n k ∙ ap₂ (λ q m. window q m) (omega arith) (omega arith)

-- The next position is the next index, unless it goes round.
suc-mod : (p size : ℕ) → p % size + 1 < size → suc p % size ≡ p % size + 1
suc-mod p size h = ap (λ k. k % size) (omega arith) ∙ sym (mod-add-mod p size 1) ∙ mod-eq_of_lt h

drop-get_or :
    (bytes : List ℕ) (o : ℕ)
    → o < length bytes
    → drop o bytes ≡ get_or bytes o 0 ∷ drop (suc o) bytes
drop-get_or [] o h = absurd (omega arith)
drop-get_or (b ∷ bytes) zero h = refl
drop-get_or (b ∷ bytes) (suc o) h = drop-get_or bytes o (omega arith)

-- A window that does not go round is a piece of the memory.
pub window_straight :
    (bytes : List ℕ) (size p k : ℕ)
    → 0 < size
    → length bytes ≡ size
    → p % size + k ≤ size
    → window bytes size p k ≡ take k (drop (p % size) bytes)
unfolding window
window_straight bytes size p zero pos e h = refl
window_straight bytes size p (suc zero) pos e h =
    rw (drop-get_or bytes (p % size) (omega (arith, mod-lt p pos)))
window_straight bytes size p (suc (suc k)) pos e h =
    let next : suc p % size ≡ p % size + 1 = suc-mod p size (omega arith) in
    rw (drop-get_or bytes (p % size) (omega (arith, mod-lt p pos))) (
      ap (λ r. get_or bytes (p % size) 0 ∷ r)
        (window_straight bytes size (suc p) (suc k) pos e (omega arith)
          ∙ ap (λ o. take (suc k) (drop o bytes)) (next ∙ add-one (p % size))))

-- After the rest of the memory a position stands at its start.
pub wrapped : (p size : ℕ) → 0 < size → (p + (size - p % size)) % size ≡ 0
wrapped p size pos =
    sym (mod-add-mod p size (size - p % size))
    ∙ ap (λ k. k % size) {y = size} (omega (arith, mod-lt p pos))
    ∙ mod-eq-sub-mod {n = size} {m = size} (omega arith)
    ∙ ap (λ k. k % size) {y = 0} (omega arith)
    ∙ mod-eq_of_lt pos

-- Fewer than `size` steps round the ring do not come back.
pub mod_ne : (p size d : ℕ) → 0 < d → d < size → (p + d) % size ≢ p % size
mod_ne p size d h k = elim (dec_lt (p % size + d) size) [
  | yes l ↦ omega (arith, mod-add-mod p size d, mod-eq_of_lt l)
  | no l ↦ omega (
    arith,
    mod-add-mod p size d,
    mod-eq-sub-mod {n = p % size + d} {m = size} (omega arith),
    mod-eq_of_lt {n = p % size + d - size} {m = size}
        (omega (arith, mod-lt p {m = size} (omega arith))),
  )
]

get_or-set_self : (xs : List ℕ) (i v : ℕ) → i < length xs → get_or (set xs i v) i 0 ≡ v
get_or-set_self [] i v h = absurd (omega arith)
get_or-set_self (x ∷ xs) zero v h = refl
get_or-set_self (x ∷ xs) (suc i) v h = get_or-set_self xs i v (omega arith)

get_or-set_ne : (xs : List ℕ) (i j v : ℕ) → i ≢ j → get_or (set xs i v) j 0 ≡ get_or xs j 0
get_or-set_ne [] i j v h = refl
get_or-set_ne (x ∷ xs) zero zero v h = absurd (h refl)
get_or-set_ne (x ∷ xs) zero (suc j) v h = refl
get_or-set_ne (x ∷ xs) (suc i) zero v h = refl
get_or-set_ne (x ∷ xs) (suc i) (suc j) v h = get_or-set_ne xs i j v (λ e. h (ap suc e))

-- A write to a position past a window, but less than the size past its start, leaves it alone.
pub window-set_ne :
    (bytes : List ℕ) (size p n q v : ℕ)
    → p + n ≤ q
    → q < p + size
    → window (set bytes (q % size) v) size p n ≡ window bytes size p n
unfolding window
window-set_ne bytes size p zero q v h k = refl
window-set_ne bytes size p (suc n) q v h k =
    let apart : (p + (q - p)) % size ≢ p % size =
      mod_ne p size (q - p) (omega arith) (omega arith) in
    let same : (p + (q - p)) % size ≡ q % size = ap (λ j. j % size) (omega arith) in
    ap₂ ◌∷◌ (get_or-set_ne bytes (q % size) (p % size) v (λ e. apart (same ∙ e)))
      (window-set_ne bytes size (suc p) n q v (omega arith) (omega arith))

-- Bytes written one by one, each at the next position.
pub write_each : List ℕ → ℕ → ℕ → List ℕ → List ℕ
write_each bytes size p [] = bytes
write_each bytes size p (b ∷ bs) = write_each (set bytes (p % size) b) size (suc p) bs

pub length-write_each :
    (bytes : List ℕ) (size p : ℕ) (bs : List ℕ) → length (write_each bytes size p bs) ≡ length bytes
unfolding write_each
length-write_each bytes size p [] = refl
length-write_each bytes size p (b ∷ bs) =
    length-write_each (set bytes (p % size) b) size (suc p) bs ∙ length-set bytes (p % size) b

pub write_each-append :
    (bytes : List ℕ) (size p : ℕ) (xs ys : List ℕ)
    → write_each bytes size p (xs ++ ys)
      ≡ write_each (write_each bytes size p xs) size (p + length xs) ys
unfolding write_each
write_each-append bytes size p [] ys = ap (λ q. write_each bytes size q ys) (omega arith)
write_each-append bytes size p (x ∷ xs) ys =
    write_each-append (set bytes (p % size) x) size (suc p) xs ys
    ∙ ap (λ q. write_each (write_each (set bytes (p % size) x) size (suc p) xs) size q ys)
        (omega arith)

window-set_self :
    (bytes : List ℕ) (size p n v : ℕ)
    → 0 < size
    → length bytes ≡ size
    → n < size
    → window (set bytes ((p + n) % size) v) size p (suc n) ≡ window bytes size p n ++ (v ∷ [])
window-set_self bytes size p n v pos e h =
    let bytes' = set bytes ((p + n) % size) v in
    ap (window bytes' size p) {y = n + 1} (omega arith)
    ∙ window-append bytes' size p n 1
    ∙ ap₂ ◌++◌ (window-set_ne bytes size p n (p + n) v (omega arith) (omega arith)) (
        window-one bytes' size (p + n)
        ∙ ap (λ r. r ∷ [])
            (get_or-set_self bytes ((p + n) % size) v (omega (arith, mod-lt (p + n) pos))))

-- Writing past a window extends it by what is written.
pub window-write_each :
    (bytes : List ℕ) (size p n : ℕ) (bs : List ℕ)
    → 0 < size
    → length bytes ≡ size
    → n + length bs ≤ size
    → window (write_each bytes size (p + n) bs) size p (n + length bs) ≡ window bytes size p n ++ bs
unfolding write_each
window-write_each bytes size p n [] pos e h =
    rw (append-nil (window bytes size p n)) (ap (window bytes size p) (omega arith))
window-write_each bytes size p n (b ∷ bs) pos e h =
    let bytes' = set bytes ((p + n) % size) b in
    ap₂ (λ q m. window (write_each bytes' size q bs) size p m) {y = p + suc n} (omega arith)
      (omega arith)
    ∙ window-write_each bytes' size p (suc n) bs pos (length-set bytes ((p + n) % size) b ∙ e)
        (omega arith)
    ∙ ap (λ r. r ++ bs) (window-set_self bytes size p n b pos e (omega arith))
    ∙ append_assoc (window bytes size p n) (b ∷ []) bs

memcpy-cons :
    (bytes : List ℕ) (o b : ℕ) (bs : List ℕ)
    → memcpy bytes o (b ∷ bs) ≡ memcpy (set bytes o b) (suc o) bs
memcpy-cons [] o b bs = refl
memcpy-cons (x ∷ bytes) zero b bs = refl
memcpy-cons (x ∷ bytes) (suc o) b bs = ap (λ r. x ∷ r) (memcpy-cons bytes o b bs)

-- A copy that does not go round writes byte by byte.
pub memcpy-write_each :
    (bytes : List ℕ) (size p : ℕ) (bs : List ℕ)
    → 0 < size
    → length bytes ≡ size
    → p % size + length bs ≤ size
    → memcpy bytes (p % size) bs ≡ write_each bytes size p bs
unfolding write_each
memcpy-write_each bytes size p [] pos e h = memcpy-nil bytes (p % size)
memcpy-write_each bytes size p (b ∷ []) pos e h =
    memcpy-cons bytes (p % size) b [] ∙ memcpy-nil (set bytes (p % size) b) (suc (p % size))
memcpy-write_each bytes size p (b ∷ c ∷ bs) pos e h =
    let next : suc (p % size) ≡ suc p % size = omega (arith, suc-mod p size (omega arith)) in
    memcpy-cons bytes (p % size) b (c ∷ bs)
    ∙ ap (λ o. memcpy (set bytes (p % size) b) o (c ∷ bs)) next
    ∙ memcpy-write_each (set bytes (p % size) b) size (suc p) (c ∷ bs) pos
        (length-set bytes (p % size) b ∙ e) (omega (arith, suc-mod p size (omega arith)))

-- Two passes of the memory read a window of any length up to the size.
pub window_passes :
    (bytes : List ℕ) (size p n : ℕ)
    → 0 < size
    → length bytes ≡ size
    → n ≤ size
    → size < p % size + n
    → window bytes size p n
      ≡ take (size - p % size) (drop (p % size) bytes) ++ take (n - (size - p % size)) bytes
window_passes bytes size p n pos e h over =
    let k = size - p % size in
    let m = n - k in
    let back : (p + k) % size ≡ 0 = wrapped p size pos in
    ap (λ j. window bytes size p j) {y = k + m} (omega (arith, mod-lt p pos))
    ∙ window-append bytes size p k m
    ∙ ap₂ ◌++◌ (window_straight bytes size p k pos e (omega (arith, mod-lt p pos))) (
        window_straight bytes size (p + k) m pos e (omega (arith, mod-lt p pos))
        ∙ ap (λ o. take m (drop o bytes)) back)
