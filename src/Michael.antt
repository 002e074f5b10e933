-- ===== src/Michael.antt =====
-- The Michael message integrity code of TKIP, src/michael.c.
pub mod Stream
pub mod Half
pub mod Rotations
pub mod Reference
use Prim.Native.Nat.{bit_and, bit_or, bit_xor}
use u.Common.{
  ℕ, ◌+◌, ◌-◌, ◌*◌, ◌/◌, ◌^◌, List, [], ◌∷◌, ◌++◌, u32, length, replicate, ltb, ◌==◌, if◌then◌else◌,
  drop, deserialize_le32, serialize_le32,
}

-- `pending` holds the first `pending_size` of the four bytes of the field.
pub record MichaelContext : Type 0 where
  pub left : ℕ
  pub right : ℕ
  pub pending : List ℕ

-- On `uint32_t`, `value << amount` drops what passes bit 31.
unfoldable pub rotate_left : ℕ → ℕ → ℕ
rotate_left value amount = bit_or (u32 (value * 2 ^ amount)) (value / 2 ^ (32 - amount))

unfoldable pub rotate_right : ℕ → ℕ → ℕ
rotate_right value amount = bit_or (value / 2 ^ amount) (u32 (value * 2 ^ (32 - amount)))

unfoldable pub exchange_bytes : ℕ → ℕ
exchange_bytes value =
    bit_or (u32 (bit_and value 0x00ff_00ff * 2 ^ 8)) (bit_and value 0xff00_ff00 / 2 ^ 8)

-- The body of the block function on the two halves: `left` and `right` after all nine statements.
unfoldable pub mix : ℕ → ℕ → ℕ → ℕ × ℕ
unfolding rotate_left rotate_right exchange_bytes
mix left right word =
    let left1 = bit_xor left word in
    let right1 = bit_xor right (rotate_left left1 17) in
    let left2 = u32 (left1 + right1) in
    let right2 = bit_xor right1 (exchange_bytes left2) in
    let left3 = u32 (left2 + right2) in
    let right3 = bit_xor right2 (rotate_left left3 3) in
    let left4 = u32 (left3 + right3) in
    let right4 = bit_xor right3 (rotate_right left4 2) in
    let left5 = u32 (left4 + right4) in (left5, right4)

unfoldable pub michael_block : MichaelContext → ℕ → MichaelContext
michael_block context word =
    let (left, right) = mix context.left context.right word in
    record context { left = left; right = right }

-- The loop that tops up the pending bytes: what is pending then, and the bytes that are left.
unfoldable pub fill_pending : List ℕ → List ℕ → List ℕ × List ℕ
fill_pending pending [] = (pending, [])
fill_pending pending (b ∷ bytes) =
    let rest = fill_pending (pending ++ (b ∷ [])) bytes in
    if ltb (length pending) 4 then rest else (pending, b ∷ bytes)

-- The loop over whole words and the final copy of the remaining bytes, at most three.
unfoldable pub update_words : MichaelContext → List ℕ → MichaelContext
update_words context (a ∷ b ∷ c ∷ d ∷ bytes) =
    update_words (michael_block context (deserialize_le32 (a ∷ b ∷ c ∷ d ∷ []))) bytes
update_words context [] = context
update_words context bytes = record context { pending = bytes }

-- The first part of the function: top up, and process the pending word once it is full.
unfoldable pub update_pending : MichaelContext → List ℕ → MichaelContext × List ℕ
unfolding fill_pending
update_pending context bytes =
    if length context.pending == 0
    then (context, bytes)
    else (let (pending, rest) = fill_pending context.pending bytes in
        if length pending == 4
        then (record (michael_block context (deserialize_le32 pending)) { pending = [] }, rest)
        else (record context { pending = pending }, rest))

unfoldable pub michael_update : MichaelContext → List ℕ → MichaelContext
unfolding update_words update_pending
michael_update context bytes =
    let (topped, rest) = update_pending context bytes in update_words topped rest

-- The end of the message: the marker, the zeroes that complete its word, and a word of zeroes.
unfoldable pub michael_finish : MichaelContext → MichaelContext
michael_finish context =
    let context2 = michael_update context (0x5a ∷ []) in
    let context3 =
      if length context2.pending == 0
      then context2
      else michael_update context2 (replicate (4 - length context2.pending) 0) in
    michael_update context3 (replicate 4 0)

-- `key` is the eight bytes of the half of the TKIP key in use, `da` and `sa` six bytes each.
unfoldable pub michael_mic : List ℕ → List ℕ → List ℕ → ℕ → List ℕ → List ℕ
michael_mic key da sa priority bytes =
    let pseudo_header = da ++ sa ++ (priority ∷ 0 ∷ 0 ∷ 0 ∷ []) in
    let start : MichaelContext = record {
      left = deserialize_le32 key;
      right = deserialize_le32 (drop 4 key);
      pending = [];
    } in
    let context = michael_finish (michael_update (michael_update start pseudo_header) bytes) in
    serialize_le32 context.left ++ serialize_le32 context.right
