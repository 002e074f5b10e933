-- ===== src/Key/Sequence.antt =====
-- Packet numbers as numbers: comparison and increment.
use u.Common.{
  ℕ, zero, suc, ◌+◌, ◌*◌, ◌≤◌, ◌<◌, ◌≡◌, refl, ap, ◌↔◌, inl, inr, true, false, Option, none, some,
  List, [], ◌∷◌, ◌==◌, ==_iff, if◌then◌else◌, Bool-cases, length, byte_at, u8, AllBytes, arith,
}
use mathlib.Core.Option
use u.Key.{sequence_is_newer, carry_end_from, increment_sequence}

-- The number that a sequence stands for: its first byte is the lowest.
abbrev pub value : List ℕ → ℕ
value [] = 0
value (b ∷ bs) = b + 256 * value bs

-- One past the greatest number of `n` bytes.
abbrev pub limit : ℕ → ℕ
limit zero = 1
limit (suc n) = 256 * limit n

pub value-lt-limit : (bs : List ℕ) → AllBytes bs → value bs < limit (length bs)
value-lt-limit [] h = omega arith
value-lt-limit (b ∷ bs) h = omega (arith, value-lt-limit bs h.1)

-- the number that the first `i` bytes stand for
low : List ℕ → ℕ → ℕ
low bs zero = 0
low [] (suc i) = 0
low (b ∷ bs) (suc i) = b + 256 * low bs i

low-full : (bs : List ℕ) → low bs (length bs) ≡ value bs
unfolding low
low-full [] = refl
low-full (b ∷ bs) = ap (λ n. b + 256 * n) (low-full bs)

low-lt : (bs : List ℕ) (i : ℕ) → AllBytes bs → low bs i < limit i
unfolding low
low-lt bs zero h = omega arith
low-lt [] (suc i) h = omega (arith, low-lt [] i h)
low-lt (b ∷ bs) (suc i) h = omega (arith, low-lt bs i h.1)

low-suc : (bs : List ℕ) (i : ℕ) → low bs (suc i) ≡ low bs i + limit i * byte_at bs i
unfolding low
low-suc [] zero = omega arith
low-suc [] (suc i) = omega arith
low-suc (b ∷ bs) zero = omega arith
low-suc (b ∷ bs) (suc i) = omega (arith, low-suc bs i)

mul_mono : (k a b : ℕ) → a < b → k * a + k ≤ k * b
mul_mono k a b h = grind arith

-- The loop of the comparison compares what the first `i` bytes stand for.
newer_low :
    (s p : List ℕ) (i : ℕ)
    → AllBytes s
    → AllBytes p
    → (sequence_is_newer s p i ≡ true → low p i < low s i)
      × (sequence_is_newer s p i ≡ false → low s i ≤ low p i)
unfolding sequence_is_newer low
newer_low s p zero hs hp = ((λ e. cc), λ e. omega arith)
newer_low s p (suc i) hs hp = ground (
  arith,
  low-suc s i,
  low-suc p i,
  low-lt s i hs,
  low-lt p i hp,
  mul_mono (limit i) (byte_at s i) (byte_at p i),
  mul_mono (limit i) (byte_at p i) (byte_at s i),
  newer_low s p i hs hp,
)

-- `sequence_is_newer` says true exactly when the first packet number is greater as a number, on
-- any two byte strings of one length.
pub sequence_is_newer_iff :
    (s p : List ℕ)
    → AllBytes s
    → AllBytes p
    → length p ≡ length s
    → (sequence_is_newer s p (length s) ≡ true) ↔ (value p < value s)
sequence_is_newer_iff s p hs hp e =
    let full : low p (length s) ≡ value p = rw (← e) (low-full p) in
    ground (arith, newer_low s p (length s) hs hp, full, low-full s)

carry_end_from-cons :
    (b : ℕ) (bs : List ℕ) (left i : ℕ)
    → carry_end_from (b ∷ bs) left (suc i) ≡ suc (carry_end_from bs left i)
unfolding carry_end_from
carry_end_from-cons b bs zero i = refl
carry_end_from-cons b bs (suc left) i = ground (arith, carry_end_from-cons b bs left (suc i))

-- The increment, byte by byte: a byte 0xff is cleared and carries.
increment_sequence-cons :
    (b : ℕ) (bs : List ℕ) (n : ℕ)
    → increment_sequence (b ∷ bs) (suc n) ≡ (
        if b == 0xff
        then Option.map (λ r. 0 ∷ r) (increment_sequence bs n)
        else some (u8 (suc b) ∷ bs))
unfolding increment_sequence
increment_sequence-cons b bs n = ground (arith, carry_end_from-cons b bs n 0)

-- What an increment does to a number of as many bytes as `bs`: it fails only at the greatest one,
-- and adds one otherwise.
abbrev pub Incremented : List ℕ → Option (List ℕ) → Type 0
Incremented bs none = suc (value bs) ≡ limit (length bs)
Incremented bs (some bs') = (value bs' ≡ suc (value bs)) × (length bs' ≡ length bs) × AllBytes bs'

Incremented-carry :
    (b : ℕ) (bs : List ℕ) (o : Option (List ℕ))
    → b ≡ 0xff
    → Incremented bs o
    → Incremented (b ∷ bs) (Option.map (λ r. 0 ∷ r) o)
Incremented-carry b bs none e h = omega arith
Incremented-carry b bs (some bs') e h = ground arith

-- The packet number of a key is incremented as a number: the result is false exactly at the
-- greatest number of its length, where the bytes are left alone, and the number grows by one
-- otherwise, so it never wraps to one that was used.
pub increment_sequence-Incremented :
    (bs : List ℕ) → AllBytes bs → Incremented bs (increment_sequence bs (length bs))
unfolding increment_sequence
increment_sequence-Incremented [] h = refl
increment_sequence-Incremented (b ∷ bs) h =
    let ih = increment_sequence-Incremented bs h.1 in
    elim (Bool-cases (b == 0xff)) [
      | inl e ↦
          rw (increment_sequence-cons b bs (length bs), e)
            (Incremented-carry b bs (increment_sequence bs (length bs)) ((==_iff b 0xff).0 e) ih)
      | inr e ↦ rw (increment_sequence-cons b bs (length bs), e) (ground arith)
    ]
