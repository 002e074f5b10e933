-- ===== src/Tests/Bytes.antt =====
-- The byte ring and Michael at concrete values.
use Prim.Native.Nat.{min}
use u.Common.{
  serialize_le32, deserialize_le32, refl, ◌-◌, ◌≡◌, some, [], ◌∷◌, ◌++◌, length, take, drop,
  replicate, arith,
}
use u.Michael.{michael_mic}
use u.Michael.Reference.{michael, michael_mic-michael}
use u.Ringbuffer.{Ringbuffer, write, read}
use u.Ringbuffer.Refine.{IsValid, queue, write_refines, read_refines}

-- 8 and 9 wait, round the end of the memory.
abbrev wrapped : Ringbuffer
wrapped = record { size = 3; write = 4; read = 2; contents = some (9 ∷ 7 ∷ 8 ∷ []) }

wrapped-IsValid : IsValid wrapped
wrapped-IsValid = omega arith

write_refines_example :
    let (n, r') = write wrapped (5 ∷ 6 ∷ []) 2 in
    (n ≡ min 2 (3 - length (queue wrapped)))
    × (queue r' ≡ queue wrapped ++ take n (5 ∷ 6 ∷ []))
    × IsValid r'
write_refines_example = write_refines (5 ∷ 6 ∷ []) 2 wrapped-IsValid (omega arith) (omega arith)

read_refines_example :
    let (bytes, n, r') = read wrapped 5 in
    (bytes ≡ take 5 (queue wrapped))
    × (n ≡ min 5 (length (queue wrapped)))
    × (queue r' ≡ drop 5 (queue wrapped))
    × IsValid r'
read_refines_example = read_refines 5 wrapped-IsValid

michael_mic-michael_example :
    michael_mic (1 ∷ 2 ∷ 3 ∷ []) (4 ∷ []) (5 ∷ []) 6 (7 ∷ [])
    ≡ michael (1 ∷ 2 ∷ 3 ∷ []) (4 ∷ 5 ∷ 6 ∷ 0 ∷ 0 ∷ 0 ∷ 7 ∷ [])
michael_mic-michael_example =
    michael_mic-michael (1 ∷ 2 ∷ 3 ∷ []) (4 ∷ []) (5 ∷ []) 6 (7 ∷ []) (omega arith) (omega arith)

-- The first two test vectors that the standard gives for Michael.
michael_nothing :
    michael (replicate 8 0) [] ≡ (0x82 ∷ 0x92 ∷ 0x5c ∷ 0x1c ∷ 0xa1 ∷ 0xd1 ∷ 0x30 ∷ 0xb8 ∷ [])
unfolding michael serialize_le32 deserialize_le32
michael_nothing = refl

michael_one_letter :
    michael (0x82 ∷ 0x92 ∷ 0x5c ∷ 0x1c ∷ 0xa1 ∷ 0xd1 ∷ 0x30 ∷ 0xb8 ∷ []) (0x4d ∷ [])
    ≡ (0x43 ∷ 0x47 ∷ 0x21 ∷ 0xca ∷ 0x40 ∷ 0x63 ∷ 0x9b ∷ 0x3f ∷ [])
unfolding michael serialize_le32 deserialize_le32
michael_one_letter = refl
