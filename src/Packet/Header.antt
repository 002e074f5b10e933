-- ===== src/Packet/Header.antt =====
-- The parsers of 802.11 headers in src/packet.c.
use u.Common.{
  ℕ, Bool, ◌&&◌, ◌||◌, List, if◌then◌else◌, ltb, ◌==◌, length, drop, deserialize_le16, Result, ok,
  err, status_not_enough_space, status_unsupported,
}
use u.Packet.{
  HeaderDescription, mac_at, get_type, get_subtype, type_management, type_control, type_data,
  subtype_data, subtype_null_data, to_ds, from_ds,
}

-- A parser gets the bytes from `source` on, `source_size` in number, and the caller's structure,
-- whose fields that it does not fill stay as they are. It yields the filled structure and the
-- bytes from `data_start` on, `data_size` in number.
abbrev pub Parsed : Type 0
Parsed = Result (HeaderDescription × List ℕ)

deserialize_management_header : List ℕ → HeaderDescription → Parsed
deserialize_management_header source header =
    if ltb (length source) 14
    then err status_not_enough_space
    else ok (
      record header {
        addresses_1 = mac_at source;
        addresses_2 = mac_at (drop 6 source);
        sequence_control = deserialize_le16 (drop 12 source);
      },
      drop 14 source,
    )

deserialize_control_header : List ℕ → HeaderDescription → Parsed
deserialize_control_header source header = err status_unsupported

-- Both DS flags: the header has four addresses.
abbrev pub is_wds : ℕ → Bool
is_wds frame_control = to_ds frame_control && from_ds frame_control

abbrev pub supported_data_subtype : ℕ → Bool
supported_data_subtype subtype = subtype == subtype_data || subtype == subtype_null_data

deserialize_data_header : List ℕ → HeaderDescription → Parsed
deserialize_data_header source header =
    if supported_data_subtype (get_subtype header.frame_control)
    then (if ltb (length source) header_size
        then err status_not_enough_space
        else ok (
          if header_size == 20
              then record header {
                addresses_1 = mac_at source;
                addresses_2 = mac_at (drop 6 source);
                sequence_control = deserialize_le16 (drop 12 source);
                addresses_3 = mac_at (drop 14 source);
              }
              else record header {
                addresses_1 = mac_at source;
                addresses_2 = mac_at (drop 6 source);
                sequence_control = deserialize_le16 (drop 12 source);
              },
          drop header_size source,
        ))
    else err status_unsupported
  where
    header_size : ℕ
    header_size = if is_wds header.frame_control then 20 else 14

unfoldable pub deserialize_header : List ℕ → HeaderDescription → Parsed
unfolding deserialize_management_header deserialize_control_header deserialize_data_header
deserialize_header source header =
    if ltb (length source) 10
    then err status_not_enough_space
    else (let common : HeaderDescription = record header {
      frame_control = deserialize_le16 source;
      duration_id = deserialize_le16 (drop 2 source);
      addresses_0 = mac_at (drop 4 source);
    } in
        let next_part = drop 10 source in
        if get_type common.frame_control == type_management
        then deserialize_management_header next_part common
        else (if get_type common.frame_control == type_control
            then deserialize_control_header next_part common
            else (if get_type common.frame_control == type_data
                then deserialize_data_header next_part common
                else err status_unsupported)))
