-- ===== src/Packet/RoundTrip.antt =====
-- Parsing what was serialised.
use u.Common.{
  ℕ, ◌+◌, ◌-◌, ◌≤◌, ◌<◌, ◌*◌, ◌/◌, ◌%◌, ◌≡◌, refl, ◌∙◌, ◌⊎◌, List, ◌++◌, if◌then◌else◌, ltb, ◌==◌,
  length, drop, memcpy, memcpy-append, drop-memcpy, drop-drop, take-append, serialize_le16,
  deserialize_le16, ok, err, arith, Bool, true, false, ◌&&◌, ◌||◌, inl, inr, Bool-cases,
  status_unsupported, status_not_enough_space,
}
use u.Packet.{
  HeaderDescription, TxBufferDescriptor, HeaderIsValid, DescriptorIsValid, mac_bytes, get_type,
  get_subtype, type_management, type_data, frame, allocate_space,
}
use u.Packet.Header.{is_wds, supported_data_subtype, deserialize_header}
use u.Packet.Serialize.{serialize_header, serialize_three_addresses, serialize_four_addresses}

-- The bytes of a header in the order of the standard.
three_addresses : HeaderDescription → List ℕ
three_addresses h =
    serialize_le16 h.frame_control
    ++ serialize_le16 h.duration_id
    ++ mac_bytes h.addresses_0
    ++ mac_bytes h.addresses_1
    ++ mac_bytes h.addresses_2
    ++ serialize_le16 h.sequence_control

serialize_three_addresses_lem :
    (h : HeaderDescription) (b : List ℕ) (o : ℕ)
    → serialize_three_addresses h b o ≡ memcpy b o (three_addresses h)
unfolding serialize_three_addresses three_addresses serialize_le16
serialize_three_addresses_lem h b o = rw (
  memcpy-append b o (o + 2) _ _ refl,
  memcpy-append b o (o + 4) _ _ refl,
  memcpy-append b o (o + 10) _ _ refl,
  memcpy-append b o (o + 16) _ _ refl,
  memcpy-append b o (o + 22) _ _ refl,
)

four_addresses : HeaderDescription → List ℕ
unfolding three_addresses
four_addresses h = three_addresses h ++ mac_bytes h.addresses_3

serialize_four_addresses_lem :
    (h : HeaderDescription) (b : List ℕ) (o : ℕ)
    → serialize_four_addresses h b o ≡ memcpy b o (four_addresses h)
unfolding serialize_four_addresses four_addresses serialize_le16
serialize_four_addresses_lem h b o =
    rw (serialize_three_addresses_lem h b o, memcpy-append b o (o + 24) _ _ refl)

-- Copying a header in front of the current offset puts it in front of the frame.
module _ (d : TxBufferDescriptor) (v : DescriptorIsValid d) (bytes : List ℕ) where
  pub frame-memcpy :
      length bytes ≤ d.current_offset
      → let o = d.current_offset - length bytes in
        frame (record d { buffer = memcpy d.buffer o bytes; current_offset = o }) ≡ bytes ++ frame d
  frame-memcpy h = rw (
    drop-memcpy d.buffer (d.current_offset - length bytes) bytes (omega arith),
    drop-drop (length bytes) (d.current_offset - length bytes) d.buffer,
    same_offset,
    longer,
    take-append bytes (drop d.current_offset d.buffer) (d.size - d.current_offset),
  )
    where
      same_offset : d.current_offset - length bytes + length bytes ≡ d.current_offset
      same_offset = omega arith

      longer :
          d.size - (d.current_offset - length bytes) ≡ length bytes + (d.size - d.current_offset)
      longer = omega arith

-- The fields that a word's two bytes carry.
le16_roundtrip : (x : ℕ) → x < 65536 → (x % 256) + (x / 256 % 256) * 256 ≡ x
le16_roundtrip x h = omega arith

module _ (h u : HeaderDescription) (v : HeaderIsValid h) (rest : List ℕ) where
  deserialize_management :
      get_type h.frame_control ≡ type_management
      → deserialize_header (three_addresses h ++ rest) u
        ≡ ok (record h { addresses_3 = u.addresses_3 }, rest)
  unfolding deserialize_header three_addresses serialize_le16 deserialize_le16
  deserialize_management t = ground (
    arith,
    le16_roundtrip h.frame_control,
    le16_roundtrip h.duration_id,
    le16_roundtrip h.sequence_control,
  )

  deserialize_data_three :
      get_type h.frame_control ≡ type_data
      → supported_data_subtype (get_subtype h.frame_control) ≡ true
      → is_wds h.frame_control ≡ false
      → deserialize_header (three_addresses h ++ rest) u
        ≡ ok (record h { addresses_3 = u.addresses_3 }, rest)
  unfolding deserialize_header three_addresses serialize_le16 deserialize_le16
  deserialize_data_three t s w = ground (
    arith,
    le16_roundtrip h.frame_control,
    le16_roundtrip h.duration_id,
    le16_roundtrip h.sequence_control,
  )

  deserialize_data_four :
      get_type h.frame_control ≡ type_data
      → supported_data_subtype (get_subtype h.frame_control) ≡ true
      → is_wds h.frame_control ≡ true
      → deserialize_header (four_addresses h ++ rest) u ≡ ok (h, rest)
  unfolding deserialize_header four_addresses serialize_le16 deserialize_le16
  deserialize_data_four t s w = ground (
    arith,
    le16_roundtrip h.frame_control,
    le16_roundtrip h.duration_id,
    le16_roundtrip h.sequence_control,
  )

-- The header has a fourth address.
abbrev pub has_four_addresses : HeaderDescription → Bool
has_four_addresses h = get_type h.frame_control == type_data && is_wds h.frame_control

-- The bytes that `serialize_header` puts in front of the frame.
pub header_bytes : HeaderDescription → List ℕ
unfolding three_addresses four_addresses
header_bytes h = if has_four_addresses h then four_addresses h else three_addresses h

-- The headers that are supported: management frames, and data frames of subtype 0 or 4.
abbrev pub IsSupported : HeaderDescription → Type 0
IsSupported h =
    (get_type h.frame_control ≡ type_management)
    ⊎ ((get_type h.frame_control ≡ type_data)
        × (supported_data_subtype (get_subtype h.frame_control) ≡ true))

pub serialize_header_ok :
    (h : HeaderDescription) (d : TxBufferDescriptor) {d' : TxBufferDescriptor}
    → serialize_header h d ≡ ok d'
    → IsSupported h
      × (length (header_bytes h) ≤ d.current_offset)
      × (d' ≡ record d {
        buffer = memcpy d.buffer (d.current_offset - length (header_bytes h)) (header_bytes h);
        current_offset = d.current_offset - length (header_bytes h);
      })
unfolding serialize_header allocate_space header_bytes serialize_le16
serialize_header_ok h d e = ground (
  arith,
  serialize_three_addresses_lem h d.buffer (d.current_offset - 24),
  serialize_four_addresses_lem h d.buffer (d.current_offset - 30),
)

pub deserialize-header_bytes :
    (h u : HeaderDescription) (rest : List ℕ)
    → HeaderIsValid h
    → IsSupported h
    → deserialize_header (header_bytes h ++ rest) u
      ≡ ok ((if has_four_addresses h then h else record h { addresses_3 = u.addresses_3 }), rest)
unfolding header_bytes
deserialize-header_bytes h u rest v (inl t) = rw t (deserialize_management h u v rest t)
deserialize-header_bytes h u rest v (inr (t, s)) = elim (Bool-cases (is_wds h.frame_control)) [
  | inl w ↦ rw (t, w) (deserialize_data_four h u v rest t s w)
  | inr w ↦ rw (t, w) (deserialize_data_three h u v rest t s w)
]

-- Parsing the frame that u80211_serialize_header built gives back the header, with a fourth address
-- only if the header has one, and exactly the bytes that were in the buffer before; for headers
-- whose words fit 16 bits and descriptors whose offset lies in their buffer.
pub deserialize_header-serialize_header :
    (h u : HeaderDescription) (d : TxBufferDescriptor) {d' : TxBufferDescriptor}
    → HeaderIsValid h
    → DescriptorIsValid d
    → serialize_header h d ≡ ok d'
    → deserialize_header (frame d') u
      ≡ ok ((if has_four_addresses h then h else record h { addresses_3 = u.addresses_3 }), frame d)
deserialize_header-serialize_header h u d {d'} v w e =
    let (supported, fits, built) = serialize_header_ok h d e in
    rw (built, frame-memcpy d w (header_bytes h) fits)
      (deserialize-header_bytes h u (frame d) v supported)

-- `IsSupported` as a test.
abbrev pub is_supported : HeaderDescription → Bool
is_supported h =
    get_type h.frame_control == type_management
    || (get_type h.frame_control == type_data
        && supported_data_subtype (get_subtype h.frame_control))

-- `u80211_serialize_header` does one of three things on every header and descriptor: it refuses
-- the unsupported header, it refuses the header that does not fit in front of the current offset,
-- or it lowers the offset by the header's size and copies the header's bytes there, all at once.
pub serialize_header_lem :
    (h : HeaderDescription) (d : TxBufferDescriptor)
    → serialize_header h d ≡ (
        if is_supported h
        then (if ltb d.current_offset (length (header_bytes h))
            then err status_not_enough_space
            else ok (record d {
              buffer =
                  memcpy d.buffer (d.current_offset - length (header_bytes h)) (header_bytes h);
              current_offset = d.current_offset - length (header_bytes h);
            }))
        else err status_unsupported)
unfolding serialize_header allocate_space header_bytes serialize_le16
serialize_header_lem h d = ground (
  arith,
  serialize_three_addresses_lem h d.buffer (d.current_offset - 24),
  serialize_four_addresses_lem h d.buffer (d.current_offset - 30),
)

pub length-header_bytes :
    (h : HeaderDescription) → has_four_addresses h ≡ false → length (header_bytes h) ≡ 24
unfolding header_bytes three_addresses serialize_le16
length-header_bytes h e = rw e refl

-- A supported header with three addresses is always built where there are 24 bytes in front of the
-- current offset.
pub serialize_header-some :
    (h u : HeaderDescription) (d : TxBufferDescriptor)
    → HeaderIsValid h
    → DescriptorIsValid d
    → is_supported h ≡ true
    → has_four_addresses h ≡ false
    → 24 ≤ d.current_offset
    → (d' : TxBufferDescriptor) × (serialize_header h d ≡ ok d')
      × (deserialize_header (frame d') u ≡ ok (record h { addresses_3 = u.addresses_3 }, frame d))
serialize_header-some h u d v w supported three room =
    let o = d.current_offset - length (header_bytes h) in
    let d' = record d { buffer = memcpy d.buffer o (header_bytes h); current_offset = o } in
    let built : serialize_header h d ≡ ok d' =
      ground (arith, serialize_header_lem h d, length-header_bytes h three) in
    (d', built, deserialize_header-serialize_header h u d v w built ∙ rw three refl)
