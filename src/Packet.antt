-- ===== src/Packet.antt =====
-- The frames of include/u80211/packet.h: addresses, header descriptions, the frame control field,
-- and the transmit buffer descriptor of include/u80211/u80211.h.
pub mod Header
pub mod Serialize
pub mod RoundTrip
use u.Common.{
  ℕ, ◌+◌, ◌-◌, ◌/◌, ◌%◌, ◌^◌, ◌≤◌, ◌<◌, ◌≡◌, ◌↔◌, Bool, true, false, ◌&&◌, Option, none, some, List,
  [], ◌∷◌, ltb, ◌==◌, if◌then◌else◌, has_flag, byte_at, length, take, drop, AllBytes, arith,
}

-- `uint8_t bytes[6]`.
pub record MacAddress : Type 0 where
  pub byte0 : ℕ
  pub byte1 : ℕ
  pub byte2 : ℕ
  pub byte3 : ℕ
  pub byte4 : ℕ
  pub byte5 : ℕ

-- The loop over the six bytes, which returns at the first difference.
unfoldable pub mac_address_equal : MacAddress → MacAddress → Bool
mac_address_equal a b =
    if not_equal a.byte0 b.byte0
    then false
    else (if not_equal a.byte1 b.byte1
        then false
        else (if not_equal a.byte2 b.byte2
            then false
            else (if not_equal a.byte3 b.byte3
                then false
                else (if not_equal a.byte4 b.byte4
                    then false
                    else (if not_equal a.byte5 b.byte5 then false else true)))))
  where
    not_equal : ℕ → ℕ → Bool
    not_equal x y = if x == y then false else true

pub mac_address_equal_iff : (a b : MacAddress) → (mac_address_equal a b ≡ true) ↔ (a ≡ b)
unfolding mac_address_equal
mac_address_equal_iff a b = ground arith

-- `memcpy(address, source, 6)` and the bytes that `memcpy(destination, address, 6)` stores.
abbrev pub mac_at : List ℕ → MacAddress
mac_at source = record {
  byte0 = byte_at source 0;
  byte1 = byte_at source 1;
  byte2 = byte_at source 2;
  byte3 = byte_at source 3;
  byte4 = byte_at source 4;
  byte5 = byte_at source 5;
}

abbrev pub mac_bytes : MacAddress → List ℕ
mac_bytes m = m.byte0 ∷ m.byte1 ∷ m.byte2 ∷ m.byte3 ∷ m.byte4 ∷ m.byte5 ∷ []

-- `addresses[4]` as four fields.
pub record HeaderDescription : Type 0 where
  pub frame_control : ℕ
  pub duration_id : ℕ
  pub addresses_0 : MacAddress
  pub addresses_1 : MacAddress
  pub addresses_2 : MacAddress
  pub addresses_3 : MacAddress
  pub sequence_control : ℕ

-- `(x & 0xc) >> 2` and `(x & 0xf0) >> 4`.
abbrev pub get_type : ℕ → ℕ
get_type x = x / 4 % 4

abbrev pub get_subtype : ℕ → ℕ
get_subtype x = x / 16 % 16

abbrev pub type_management : ℕ
type_management = 0

abbrev pub type_control : ℕ
type_control = 1

abbrev pub type_data : ℕ
type_data = 2

abbrev pub subtype_association_request : ℕ
subtype_association_request = 0

abbrev pub subtype_association_response : ℕ
subtype_association_response = 1

abbrev pub subtype_probe_request : ℕ
subtype_probe_request = 4

abbrev pub subtype_probe_response : ℕ
subtype_probe_response = 5

abbrev pub subtype_disassociation : ℕ
subtype_disassociation = 10

abbrev pub subtype_authentication : ℕ
subtype_authentication = 11

abbrev pub subtype_deauthentication : ℕ
subtype_deauthentication = 12

abbrev pub subtype_data : ℕ
subtype_data = 0

abbrev pub subtype_null_data : ℕ
subtype_null_data = 4

-- The flags 0x100, 0x200, 0x800 and 0x4000 of the frame control field.
abbrev pub to_ds : ℕ → Bool
to_ds x = has_flag x 8

abbrev pub from_ds : ℕ → Bool
from_ds x = has_flag x 9

abbrev pub is_retry : ℕ → Bool
is_retry x = has_flag x 11

abbrev pub is_protected : ℕ → Bool
is_protected x = has_flag x 14

-- `buffer` is the memory that the field `data` points to.
pub record TxBufferDescriptor : Type 0 where
  pub buffer : List ℕ
  pub size : ℕ
  pub current_offset : ℕ

-- The pointer that the function returns is the new `current_offset`.
unfoldable pub allocate_space : TxBufferDescriptor → ℕ → Option TxBufferDescriptor
allocate_space d size =
    if ltb d.current_offset size
    then none
    else some (record d { current_offset = d.current_offset - size })

-- The bytes that are sent: those from the current offset up to the logical size.
abbrev pub frame : TxBufferDescriptor → List ℕ
frame d = take (d.size - d.current_offset) (drop d.current_offset d.buffer)

-- The offset lies in the logical buffer, and that in the memory behind it.
pub record DescriptorIsValid (d : TxBufferDescriptor) : Type 0 where
  pub offset_in : d.current_offset ≤ d.size
  pub size_in : d.size ≤ length d.buffer

-- The fields of a header that fit their C types, as every header that the code builds or reads.
pub record HeaderIsValid (h : HeaderDescription) : Type 0 where
  pub frame_control_fits : h.frame_control < 2 ^ 16
  pub duration_id_fits : h.duration_id < 2 ^ 16
  pub sequence_control_fits : h.sequence_control < 2 ^ 16
