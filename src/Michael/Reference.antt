-- ===== src/Michael/Reference.antt =====
-- The message integrity code of src/michael.c against Michael as the standard defines it.
use u.Common.{
  ℕ, zero, suc, ap, ◌^◌, AllBytes, byte_at, ◌-◌, ◌%◌, ◌<◌, ◌≡◌, refl, ◌∙◌, List, [], ◌∷◌, ◌++◌,
  length, length-append, length-replicate, replicate, drop, deserialize_le32, serialize_le32, arith,
}
use u.Michael.{michael_finish, MichaelContext, michael_block, michael_update, michael_mic}
use u.Michael.Rotations.{standard_block, standard_block_bound, mix-standard_block}
use u.Michael.Stream.{
  michael_update-append, feed_all, feed_all-append, feed_all-pending, michael_update-feed_all,
}

-- The message as little-endian words of four bytes. The padding makes its length a multiple of
-- four, so no byte is left over.
words : List ℕ → List ℕ
words (a ∷ b ∷ c ∷ d ∷ bytes) = deserialize_le32 (a ∷ b ∷ c ∷ d ∷ []) ∷ words bytes
words bytes = []

blocks : ℕ × ℕ → List ℕ → ℕ × ℕ
blocks (l, r) [] = (l, r)
blocks (l, r) (w ∷ ws) = blocks (standard_block l r w) ws

-- The byte 0x5a and then four to seven zeroes, up to a whole word.
padding : ℕ → List ℕ
padding n = 0x5a ∷ replicate (7 - n % 4) 0

-- Michael: the block function over the words of the padded message, from the two words of the key.
unfoldable pub michael : List ℕ → List ℕ → List ℕ
unfolding words blocks padding
michael key message =
    let (left, right) =
      blocks (deserialize_le32 key, deserialize_le32 (drop 4 key))
        (words (message ++ padding (length message))) in
    serialize_le32 left ++ serialize_le32 right

AllBytes-append : (xs ys : List ℕ) → AllBytes xs → AllBytes ys → AllBytes (xs ++ ys)
AllBytes-append [] ys v w = w
AllBytes-append (x ∷ xs) ys v w = (v.0, AllBytes-append xs ys v.1 w)

AllBytes-zeroes : (n : ℕ) → AllBytes (replicate n 0)
AllBytes-zeroes zero = tt
AllBytes-zeroes (suc n) = (omega arith, AllBytes-zeroes n)

byte_at_bound : (bytes : List ℕ) (i : ℕ) → AllBytes bytes → byte_at bytes i < 256
byte_at_bound [] i v = omega arith
byte_at_bound (b ∷ bytes) zero v = v.0
byte_at_bound (b ∷ bytes) (suc i) v = byte_at_bound bytes i v.1

deserialize_le32_bound : (bytes : List ℕ) → AllBytes bytes → deserialize_le32 bytes < 2 ^ 32
unfolding deserialize_le32
deserialize_le32_bound bytes v = omega (
  arith,
  byte_at_bound bytes 0 v,
  byte_at_bound bytes 1 v,
  byte_at_bound bytes 2 v,
  byte_at_bound bytes 3 v,
)

feed_all-blocks :
    (bytes : List ℕ) (l r : ℕ)
    → length bytes % 4 ≡ 0
    → AllBytes bytes
    → l < 2 ^ 32
    → feed_all (record { left = l; right = r; pending = [] }) bytes ≡ record {
      left = (blocks (l, r) (words bytes)).0;
      right = (blocks (l, r) (words bytes)).1;
      pending = [];
    }
unfolding feed_all blocks words michael_block
feed_all-blocks [] l r h v low = refl
feed_all-blocks (a ∷ []) l r h v low = absurd (omega arith)
feed_all-blocks (a ∷ b ∷ []) l r h v low = absurd (omega arith)
feed_all-blocks (a ∷ b ∷ c ∷ []) l r h v low = absurd (omega arith)
feed_all-blocks (a ∷ b ∷ c ∷ d ∷ bytes) l r h v low =
    let first = a ∷ b ∷ c ∷ d ∷ [] in
    let word = deserialize_le32 first in
    let fits = deserialize_le32_bound first (v.0, (v.1.0, (v.1.1.0, (v.1.1.1.0, tt)))) in
    let halves = standard_block l r word in
    ap (λ q. feed_all (record { left = q.0; right = q.1; pending = [] }) bytes)
      (mix-standard_block l r word low fits)
    ∙ feed_all-blocks bytes halves.0 halves.1 (omega arith) v.1.1.1.1
        (standard_block_bound l r word)

michael_finish-parts :
    (l r : ℕ) (p : List ℕ)
    → length p < 4
    → let c : MichaelContext = record { left = l; right = r; pending = p } in
      michael_finish c ≡ feed_all c (0x5a ∷ replicate (7 - length p) 0)
unfolding michael_finish michael_update michael_block feed_all
michael_finish-parts l r [] h = refl
michael_finish-parts l r (a ∷ []) h = refl
michael_finish-parts l r (a ∷ b ∷ []) h = refl
michael_finish-parts l r (a ∷ b ∷ c ∷ []) h = refl
michael_finish-parts l r (a ∷ b ∷ c ∷ d ∷ p) h = absurd (omega arith)

michael_finish-feed_all :
    (l r : ℕ) (message : List ℕ)
    → let c : MichaelContext = record { left = l; right = r; pending = [] } in
      michael_finish (feed_all c message) ≡ feed_all c (message ++ padding (length message))
unfolding padding
michael_finish-feed_all l r message =
    let c : MichaelContext = record { left = l; right = r; pending = [] } in
    let e : length (feed_all c message).pending ≡ length message % 4 =
      omega (arith, feed_all-pending c message (omega arith)) in
    michael_finish-parts (feed_all c message).left (feed_all c message).right
      (feed_all c message).pending (omega arith)
    ∙ rw (e, feed_all-append c message (padding (length message)))

padded-length : (message : List ℕ) → length (message ++ padding (length message)) % 4 ≡ 0
unfolding padding
padded-length message = omega (
  arith,
  length-append message (padding (length message)),
  length-replicate {A = ℕ} (7 - length message % 4) 0,
)

padding-AllBytes : (n : ℕ) → AllBytes (padding n)
unfolding padding
padding-AllBytes n = (omega arith, AllBytes-zeroes (7 - n % 4))

-- The function of the source computes Michael of the addresses, the priority with three zeroes and
-- the data, for data of every length, where the key and all of these are bytes: its buffering loses
-- no byte, its padding is the one of the standard, and its block function is the one of the
-- standard, with the rotations described by arithmetic.
pub michael_mic-michael :
    (key da sa : List ℕ) (priority : ℕ) (bytes : List ℕ)
    → AllBytes key
    → AllBytes ((da ++ sa ++ (priority ∷ 0 ∷ 0 ∷ 0 ∷ [])) ++ bytes)
    → michael_mic key da sa priority bytes
      ≡ michael key ((da ++ sa ++ (priority ∷ 0 ∷ 0 ∷ 0 ∷ [])) ++ bytes)
unfolding michael_mic michael
michael_mic-michael key da sa priority bytes kv mv =
    let header = da ++ sa ++ (priority ∷ 0 ∷ 0 ∷ 0 ∷ []) in
    let message = header ++ bytes in
    let l = deserialize_le32 key in
    let r = deserialize_le32 (drop 4 key) in
    let start : MichaelContext = record { left = l; right = r; pending = [] } in
    rw (
      michael_update-append start header bytes (omega arith),
      michael_update-feed_all start message (omega arith),
      michael_finish-feed_all l r message,
      feed_all-blocks _ l r (padded-length message)
          (AllBytes-append message (padding (length message)) mv
            (padding-AllBytes (length message)))
          (deserialize_le32_bound key kv),
    )
