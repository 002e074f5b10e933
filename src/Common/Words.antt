-- ===== src/Common/Words.antt =====
-- Machine words: flags of a bit field, and the little-endian words of include/u80211/util.h. A
-- value of `w` bits is a number below `2 ^ w`.
use Prim.Native.Nat.{ℕ, ◌+◌, ◌-◌, ◌*◌, ◌/◌, ◌%◌, ◌^◌}
use mathlib.Core.Bool.{Bool}
use mathlib.Core.List.{List, [], ◌∷◌}
use u.Common.Tests.{◌==◌, if◌then◌else◌}
use u.Common.Lists.{get_or}

-- `x & (1 << bit)`, as a condition.
abbrev pub has_flag : ℕ → ℕ → Bool
has_flag x bit = x / 2 ^ bit % 2 == 1

-- `x | (1 << bit)`.
abbrev pub set_flag : ℕ → ℕ → ℕ
set_flag x bit = if has_flag x bit then x else x + 2 ^ bit

-- `x++` on a byte, on the 16-bit sequence control and on an `unsigned int`.
abbrev pub u8 : ℕ → ℕ
u8 x = x % 2 ^ 8

abbrev pub u16 : ℕ → ℕ
u16 x = x % 2 ^ 16

abbrev pub u32 : ℕ → ℕ
u32 x = x % 2 ^ 32

abbrev pub u64 : ℕ → ℕ
u64 x = x % 2 ^ 64

-- The library reads past a buffer's end nowhere; here such a byte reads as 0.
abbrev pub byte_at : List ℕ → ℕ → ℕ
byte_at bytes i = get_or bytes i 0

unfoldable pub deserialize_le16 : List ℕ → ℕ
deserialize_le16 source = byte_at source 0 + byte_at source 1 * 256

unfoldable pub deserialize_le32 : List ℕ → ℕ
deserialize_le32 source =
    byte_at source 0
    + byte_at source 1 * 0x100
    + byte_at source 2 * 0x1_0000
    + byte_at source 3 * 0x100_0000

-- The bytes that the function stores at its destination.
unfoldable pub serialize_le16 : ℕ → List ℕ
serialize_le16 value = value % 256 ∷ value / 256 % 256 ∷ []

unfoldable pub serialize_le32 : ℕ → List ℕ
serialize_le32 value =
    value % 256 ∷ value / 0x100 % 256 ∷ value / 0x1_0000 % 256 ∷ value / 0x100_0000 % 256 ∷ []

-- Subtraction on 64 bits.
abbrev pub sub64 : ℕ → ℕ → ℕ
sub64 a b = (a + 2 ^ 64 - b) % 2 ^ 64
