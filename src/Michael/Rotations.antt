-- ===== src/Michael/Rotations.antt =====
-- The rotations and the exchange of bytes of src/michael.c against their description in arithmetic.
use Prim.Native.Nat.{
  min, max, digits, bit_and, bit_or, bit_and-bitwise, bit_or-bitwise, bit_xor, bit_xor-bitwise,
  differ,
}
use u.Common.{
  ℕ, zero, suc, ◌+◌, ◌*◌, ◌/◌, ◌%◌, ◌^◌, ◌≤◌, ◌<◌, ◌≡◌, refl, sym, ap, ap₂, ◌∙◌, u32, arith, subst,
}
use u.Michael.{rotate_left, rotate_right, exchange_bytes, mix}

-- `m` doubled `k` times, and with a one behind it each time.
abbrev doubled : ℕ → ℕ → ℕ
doubled zero m = m
doubled (suc k) m = 2 * doubled k m

abbrev with_ones : ℕ → ℕ → ℕ
with_ones zero m = m
with_ones (suc k) m = 2 * with_ones k m + 1

-- `|` of two numbers, whatever the count of digits.
abbrev Or : ℕ → ℕ → ℕ → Type 0
Or a b r = (n : ℕ) → a ≤ n → digits (λ y. y) max n a b ≡ r

abbrev And : ℕ → ℕ → ℕ → Type 0
And a b r = (n : ℕ) → a ≤ n → digits (λ y. zero) min n a b ≡ r

digits_zero : (n b : ℕ) → digits (λ y. y) max n 0 b ≡ b
digits_zero zero b = refl
digits_zero (suc n) b = refl

and_zero : (n b : ℕ) → digits (λ y. zero) min n 0 b ≡ 0
and_zero zero b = refl
and_zero (suc n) b = refl

Or-right : (b : ℕ) → Or 0 b b
Or-right b n h = digits_zero n b

or_left_from : (n a : ℕ) → a ≤ n → digits (λ y. y) max n a 0 ≡ a
or_left_from zero a h = omega arith
or_left_from (suc n) zero h = refl
or_left_from (suc n) (suc a) h = let ih = or_left_from n (suc a / 2) (omega arith) in omega arith

Or-left : (a : ℕ) → Or a 0 a
Or-left a n h = or_left_from n a h

half : (a x : ℕ) → x ≤ 1 → (2 * a + x) / 2 ≡ a
half a x h = omega arith

rest : (a x : ℕ) → x ≤ 1 → (2 * a + x) % 2 ≡ x
rest a x h = omega arith

Or-digit : (a b r x y : ℕ) → x ≤ 1 → y ≤ 1 → Or a b r → Or (2 * a + x) (2 * b + y) (2 * r + max x y)
Or-digit a b r x y hx hy o n h = from (2 * a + x) n refl h
  where
    from : (c n : ℕ) → c ≡ 2 * a + x → c ≤ n → digits (λ y. y) max n c (2 * b + y) ≡ 2 * r + max x y
    from zero n ec h =
        let none : x ≡ 0 = omega arith in
        let low : b ≡ r =
          sym (digits_zero n b)
          ∙ ap (λ a. digits (λ y. y) max n a b) (omega arith)
          ∙ o n (omega arith) in
        digits_zero n (2 * b + y) ∙ omega arith
    from (suc c) zero ec h = absurd (omega arith)
    from (suc c) (suc n) ec h =
        ap₂ (λ p q. p * 2 + q)
          (ap₂ (digits (λ y. y) max n) (ap (λ q. q / 2) ec ∙ half a x hx) (half b y hy)
            ∙ o n (omega arith))
          (ap₂ max (ap (λ q. q % 2) ec ∙ rest a x hx) (rest b y hy))
        ∙ omega arith

And-digit :
    (a b r x y : ℕ) → x ≤ 1 → y ≤ 1 → And a b r → And (2 * a + x) (2 * b + y) (2 * r + min x y)
And-digit a b r x y hx hy o n h = from (2 * a + x) n refl h
  where
    from :
        (c n : ℕ) → c ≡ 2 * a + x → c ≤ n → digits (λ y. zero) min n c (2 * b + y) ≡ 2 * r + min x y
    from zero n ec h =
        let none : x ≡ 0 = omega arith in
        let low : 0 ≡ r =
          sym (and_zero n b)
          ∙ ap (λ a. digits (λ y. zero) min n a b) (omega arith)
          ∙ o n (omega arith) in
        and_zero n (2 * b + y) ∙ omega arith
    from (suc c) zero ec h = absurd (omega arith)
    from (suc c) (suc n) ec h =
        ap₂ (λ p q. p * 2 + q)
          (ap₂ (digits (λ y. zero) min n) (ap (λ q. q / 2) ec ∙ half a x hx) (half b y hy)
            ∙ o n (omega arith))
          (ap₂ min (ap (λ q. q % 2) ec ∙ rest a x hx) (rest b y hy))
        ∙ omega arith

recast-Or : {a b r a' b' r' : ℕ} → a ≡ a' → b ≡ b' → r ≡ r' → Or a b r → Or a' b' r'
recast-Or ea eb er o n h =
    ap₂ (digits (λ y. y) max n) (sym ea) (sym eb) ∙ o n (subst (λ a. a ≤ n) (sym ea) h) ∙ er

recast-And : {a b r a' b' r' : ℕ} → a ≡ a' → b ≡ b' → r ≡ r' → And a b r → And a' b' r'
recast-And ea eb er o n h =
    ap₂ (digits (λ y. zero) min n) (sym ea) (sym eb) ∙ o n (subst (λ a. a ≤ n) (sym ea) h) ∙ er

-- `k` digits that only the first number has.
Or-first :
    (k a b r low : ℕ)
    → low < doubled k 1
    → Or a b r
    → Or (low + doubled k a) (doubled k b) (low + doubled k r)
Or-first zero a b r low h o = recast-Or (omega arith) refl (omega arith) o
Or-first (suc k) a b r low h o = recast-Or (omega arith) (omega arith) (omega arith) (
    Or-digit (low / 2 + doubled k a) (doubled k b) (low / 2 + doubled k r) (low % 2) 0 (omega arith)
      (omega arith) (Or-first k a b r (low / 2) (omega arith) o))

Or-second :
    (k a b r low : ℕ)
    → low < doubled k 1
    → Or a b r
    → Or (doubled k a) (low + doubled k b) (low + doubled k r)
Or-second zero a b r low h o = recast-Or refl (omega arith) (omega arith) o
Or-second (suc k) a b r low h o = recast-Or (omega arith) (omega arith) (omega arith) (
    Or-digit (doubled k a) (low / 2 + doubled k b) (low / 2 + doubled k r) 0 (low % 2) (omega arith)
      (omega arith) (Or-second k a b r (low / 2) (omega arith) o))

-- `k` digits that `&` keeps, and `k` that it drops.
And-kept :
    (k a b r low : ℕ)
    → low < doubled k 1
    → And a b r
    → And (low + doubled k a) (with_ones k b) (low + doubled k r)
And-kept zero a b r low h o = recast-And (omega arith) refl (omega arith) o
And-kept (suc k) a b r low h o = recast-And (omega arith) (omega arith) (omega arith) (
    And-digit (low / 2 + doubled k a) (with_ones k b) (low / 2 + doubled k r) (low % 2) 1
      (omega arith) (omega arith) (And-kept k a b r (low / 2) (omega arith) o))

And-dropped :
    (k a b r low : ℕ)
    → low < doubled k 1
    → And a b r
    → And (low + doubled k a) (doubled k b) (doubled k r)
And-dropped zero a b r low h o = recast-And (omega arith) refl refl o
And-dropped (suc k) a b r low h o = recast-And (omega arith) (omega arith) (omega arith) (
    And-digit (low / 2 + doubled k a) (doubled k b) (doubled k r) (low % 2) 0 (omega arith)
      (omega arith) (And-dropped k a b r (low / 2) (omega arith) o))

-- Nothing is left of the last digits where the mask has none.
And-right : (a : ℕ) → And a 0 0
And-right a zero h = refl
And-right zero (suc n) h = refl
And-right (suc a) (suc n) h = let ih = And-right (suc a / 2) n (omega arith) in omega arith

bit_or_of : {a b r : ℕ} (a' b' : ℕ) → a ≡ a' → b ≡ b' → Or a b r → bit_or a' b' ≡ r
bit_or_of a' b' ea eb o = bit_or-bitwise a' b' ∙ recast-Or ea eb refl o a' (omega arith)

bit_and_of : {a b r : ℕ} (a' b' : ℕ) → a ≡ a' → b ≡ b' → And a b r → bit_and a' b' ≡ r
bit_and_of a' b' ea eb o = bit_and-bitwise a' b' ∙ recast-And ea eb refl o a' (omega arith)

-- A rotation of a word to the left by `n` bits: what passes bit 31 comes in at the low end.
abbrev pub rotated : ℕ → ℕ → ℕ
rotated n w = (w * 2 ^ n) % 2 ^ 32 + (w * 2 ^ n) / 2 ^ 32

-- The two bytes of each half of a word change their places.
abbrev pub swapped : ℕ → ℕ
swapped w =
    (w / 2 ^ 8) % 2 ^ 8 + w % 2 ^ 8 * 2 ^ 8 + w / 2 ^ 24 * 2 ^ 16 + (w / 2 ^ 16) % 2 ^ 8 * 2 ^ 24

rotate_left_17 : (w : ℕ) → w < 2 ^ 32 → rotate_left w 17 ≡ rotated 17 w
unfolding rotate_left
rotate_left_17 w h =
    bit_or_of (u32 (w * 2 ^ 17)) (w / 2 ^ 15) (omega arith) (omega arith)
      (Or-second 17 (w % 2 ^ 15) 0 (w % 2 ^ 15) (w / 2 ^ 15) (omega arith) (Or-left (w % 2 ^ 15)))
    ∙ omega arith

rotate_left_3 : (w : ℕ) → w < 2 ^ 32 → rotate_left w 3 ≡ rotated 3 w
unfolding rotate_left
rotate_left_3 w h =
    bit_or_of (u32 (w * 2 ^ 3)) (w / 2 ^ 29) (omega arith) (omega arith)
      (Or-second 3 (w % 2 ^ 29) 0 (w % 2 ^ 29) (w / 2 ^ 29) (omega arith) (Or-left (w % 2 ^ 29)))
    ∙ omega arith

-- To the right by two is to the left by thirty.
rotate_right_2 : (w : ℕ) → w < 2 ^ 32 → rotate_right w 2 ≡ rotated 30 w
unfolding rotate_right
rotate_right_2 w h =
    bit_or_of (w / 2 ^ 2) (u32 (w * 2 ^ 30)) (omega arith) (omega arith)
      (Or-first 30 0 (w % 2 ^ 2) (w % 2 ^ 2) (w / 2 ^ 2) (omega arith) (Or-right (w % 2 ^ 2)))
    ∙ omega arith

-- The bytes that each mask keeps.
even_bytes :
    (w : ℕ) → w < 2 ^ 32 → bit_and w 0x00ff_00ff ≡ w % 2 ^ 8 + (w / 2 ^ 16) % 2 ^ 8 * 2 ^ 16
even_bytes w h =
    let b0 = w % 2 ^ 8 in
    let b1 = (w / 2 ^ 8) % 2 ^ 8 in
    let b2 = (w / 2 ^ 16) % 2 ^ 8 in
    let b3 = w / 2 ^ 24 in
    bit_and_of w 0x00ff_00ff (omega arith) refl (
      And-kept 8 _ _ _ b0 (omega arith)
        (And-dropped 8 _ _ _ b1 (omega arith) (And-kept 8 _ _ _ b2 (omega arith) (And-right b3))))
    ∙ omega arith

odd_bytes :
    (w : ℕ) → w < 2 ^ 32 → bit_and w 0xff00_ff00 ≡ (w / 2 ^ 8) % 2 ^ 8 * 2 ^ 8 + w / 2 ^ 24 * 2 ^ 24
odd_bytes w h =
    let b0 = w % 2 ^ 8 in
    let b1 = (w / 2 ^ 8) % 2 ^ 8 in
    let b2 = (w / 2 ^ 16) % 2 ^ 8 in
    let b3 = w / 2 ^ 24 in
    bit_and_of w 0xff00_ff00 (omega arith) refl (
      And-dropped 8 _ _ _ b0 (omega arith) (
        And-kept 8 _ _ _ b1 (omega arith)
          (And-dropped 8 _ _ _ b2 (omega arith) (And-kept 8 0 0 0 b3 (omega arith) (And-right 0)))))
    ∙ omega arith

exchange_bytes-swapped : (w : ℕ) → w < 2 ^ 32 → exchange_bytes w ≡ swapped w
unfolding exchange_bytes
exchange_bytes-swapped w h =
    let b0 = w % 2 ^ 8 in
    let b1 = (w / 2 ^ 8) % 2 ^ 8 in
    let b2 = (w / 2 ^ 16) % 2 ^ 8 in
    let b3 = w / 2 ^ 24 in
    let even = even_bytes w h in
    let odd = odd_bytes w h in
    bit_or_of (u32 (bit_and w 0x00ff_00ff * 2 ^ 8)) (bit_and w 0xff00_ff00 / 2 ^ 8) (omega arith)
      (omega arith)
      (Or-second 8 _ _ _ b1 (omega arith)
        (Or-first 8 _ _ _ b0 (omega arith) (Or-second 8 _ _ _ b3 (omega arith) (Or-left b2))))
    ∙ omega arith

-- The words of two numbers below 2 ^ 32 stay there.
differ_bound : (x y : ℕ) → x ≤ 1 → y ≤ 1 → differ x y ≤ 1
differ_bound zero y hx hy = hy
differ_bound (suc x) zero hx hy = hx
differ_bound (suc x) (suc y) hx hy = differ_bound x y (omega arith) (omega arith)

xor_bound :
    (k n a b : ℕ)
    → a ≤ n
    → a < doubled k 1
    → b < doubled k 1
    → digits (λ y. y) differ n a b < doubled k 1
xor_bound zero zero a b h ha hb = hb
xor_bound (suc k) zero a b h ha hb = hb
xor_bound k (suc n) zero b h ha hb = hb
xor_bound zero (suc n) (suc a) b h ha hb = absurd (omega arith)
xor_bound (suc k) (suc n) (suc a) b h ha hb =
    let ih = xor_bound k n (suc a / 2) (b / 2) (omega arith) (omega arith) (omega arith) in
    let one = differ_bound (suc a % 2) (b % 2) (omega arith) (omega arith) in omega (arith, ih, one)

bit_xor_bound : (a b : ℕ) → a < 2 ^ 32 → b < 2 ^ 32 → bit_xor a b < 2 ^ 32
bit_xor_bound a b ha hb =
    subst (λ q. q < 2 ^ 32) (sym (bit_xor-bitwise a b)) (xor_bound 32 a a b (omega arith) ha hb)

-- One step of the block function of the standard: the right half takes a function of the left one,
-- and is added to it.
abbrev pub half_step : (ℕ → ℕ) → ℕ × ℕ → ℕ × ℕ
half_step f (l, r) = ((l + bit_xor r (f l)) % 2 ^ 32, bit_xor r (f l))

-- The block function of Michael: a rotation by 17, an exchange of bytes, a rotation by 3, and one to
-- the right by 2, which is one to the left by 30.
abbrev pub standard_block : ℕ → ℕ → ℕ → ℕ × ℕ
standard_block left right word =
    half_step (rotated 30) (
      half_step (rotated 3) (half_step swapped (half_step (rotated 17) (bit_xor left word, right))))

pub mix-standard_block : (l r w : ℕ) → l < 2 ^ 32 → w < 2 ^ 32 → mix l r w ≡ standard_block l r w
unfolding mix
mix-standard_block l r w hl hw =
    let e1 = rotate_left_17 (bit_xor l w) (bit_xor_bound l w hl hw) in
    let (l2, r2) = half_step (rotated 17) (bit_xor l w, r) in
    let e2 = exchange_bytes-swapped l2 (omega arith) in
    let (l3, r3) = half_step swapped (l2, r2) in
    let e3 = rotate_left_3 l3 (omega arith) in
    let (l4, r4) = half_step (rotated 3) (l3, r3) in
    let e4 = rotate_right_2 l4 (omega arith) in rw (e1, e2, e3, e4) refl

pub standard_block_bound : (l r w : ℕ) → (standard_block l r w).0 < 2 ^ 32
standard_block_bound l r w = omega arith
