-- ===== src/Packet/Serialize.antt =====
-- The serialisers of 802.11 headers in src/packet.c, which write in front of the payload.
use u.Common.{
  ℕ, ◌+◌, none, some, List, if◌then◌else◌, ◌==◌, memcpy, serialize_le16, Result, ok, err,
  status_not_enough_space, status_unsupported,
}
use u.Packet.{
  HeaderDescription, TxBufferDescriptor, mac_bytes, get_type, get_subtype, type_management,
  type_control, type_data, allocate_space,
}
use u.Packet.Header.{is_wds, supported_data_subtype}

-- `destination` is an offset into the buffer.
unfoldable pub serialize_common_header : HeaderDescription → List ℕ → ℕ → List ℕ
serialize_common_header header buffer destination =
    let buffer1 = memcpy buffer destination (serialize_le16 header.frame_control) in
    let buffer2 = memcpy buffer1 (destination + 2) (serialize_le16 header.duration_id) in
    memcpy buffer2 (destination + 4) (mac_bytes header.addresses_0)

-- The statements that the management and the data header have in common.
unfoldable pub serialize_three_addresses : HeaderDescription → List ℕ → ℕ → List ℕ
unfolding serialize_common_header
serialize_three_addresses header buffer destination =
    let buffer1 = serialize_common_header header buffer destination in
    let buffer2 = memcpy buffer1 (destination + 10) (mac_bytes header.addresses_1) in
    let buffer3 = memcpy buffer2 (destination + 16) (mac_bytes header.addresses_2) in
    memcpy buffer3 (destination + 22) (serialize_le16 header.sequence_control)

unfoldable pub serialize_four_addresses : HeaderDescription → List ℕ → ℕ → List ℕ
serialize_four_addresses header buffer destination =
    memcpy (serialize_three_addresses header buffer destination) (destination + 24)
      (mac_bytes header.addresses_3)

unfoldable pub serialize_management_header :
    HeaderDescription → TxBufferDescriptor → Result TxBufferDescriptor
serialize_management_header header descriptor = elim (allocate_space descriptor 24) [
  | none ↦ err status_not_enough_space
  | some d ↦ ok (record d { buffer = serialize_three_addresses header d.buffer d.current_offset })
]

unfoldable pub serialize_control_header :
    HeaderDescription → TxBufferDescriptor → Result TxBufferDescriptor
serialize_control_header header descriptor = err status_unsupported

unfoldable pub serialize_data_header :
    HeaderDescription → TxBufferDescriptor → Result TxBufferDescriptor
serialize_data_header header descriptor =
    if supported_data_subtype (get_subtype header.frame_control)
    then elim (allocate_space descriptor header_size) [
      | none ↦ err status_not_enough_space
      | some d ↦ ok (record d {
        buffer =
            if header_size == 30
            then serialize_four_addresses header d.buffer d.current_offset
            else serialize_three_addresses header d.buffer d.current_offset;
      })
    ]
    else err status_unsupported
  where
    header_size : ℕ
    header_size = if is_wds header.frame_control then 30 else 24

unfoldable pub serialize_header : HeaderDescription → TxBufferDescriptor → Result TxBufferDescriptor
unfolding serialize_management_header serialize_control_header serialize_data_header
serialize_header header descriptor =
    if get_type header.frame_control == type_management
    then serialize_management_header header descriptor
    else (if get_type header.frame_control == type_control
        then serialize_control_header header descriptor
        else (if get_type header.frame_control == type_data
            then serialize_data_header header descriptor
            else err status_unsupported))
