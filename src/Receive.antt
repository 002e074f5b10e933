-- ===== src/Receive.antt =====
-- The path of a received frame through src/packet.c and `u80211_process_data_packet` of
-- src/packet_data.c.
pub mod Safe
pub mod Counter
use u.Common.{
  ℕ, suc, ◌+◌, ◌-◌, ◌/◌, ◌%◌, Bool, true, false, not, ◌&&◌, ◌||◌, Option, none, some, List, [], ◌∷◌,
  ◌++◌, ltb, ◌==◌, if◌then◌else◌, byte_at, has_flag, set_flag, take, drop, length, u64, ok, err,
  Result,
}
use u.Packet.{
  MacAddress, HeaderDescription, mac_address_equal, mac_bytes, get_type, get_subtype,
  type_management, type_data, subtype_data, to_ds, from_ds, is_protected,
}
use u.Packet.Header.{deserialize_header}
use u.Key.{Cipher, ccmp, tkip, wep40, wep104, KeyDevice, TkipData, sequence_size}
use u.Key.Table.{select_cipher_by_index}
use u.Key.Rx.{update_rx_sequence, validate_tkip_rx}
use u.Association.{associated, Device, Effect}
use u.Association.Duplicate.{is_duplicate}
use u.Management.Dispatch.{BeaconData, Handled, process_management_packet}

unfoldable pub deserialize_cipher_key_index : List ℕ → Option ℕ
deserialize_cipher_key_index bytes =
    if ltb (length bytes) 4 then none else some (byte_at bytes 3 / 64)

unfoldable pub data_packet_for_device : MacAddress → HeaderDescription → Bool
data_packet_for_device own header =
    mac_address_equal header.addresses_0 own || has_flag header.addresses_0.byte0 0

-- The destination and the source.
unfoldable pub data_packet_addresses : HeaderDescription → MacAddress × MacAddress
data_packet_addresses header =
    if to_ds header.frame_control
    then (
      header.addresses_2,
      if from_ds header.frame_control then header.addresses_3 else header.addresses_1,
    )
    else (
      header.addresses_0,
      if from_ds header.frame_control then header.addresses_2 else header.addresses_1,
    )

-- The payload that is left of a protected frame, `none` where the function says false.
unfoldable pub process_ccmp_rx :
    KeyDevice → HeaderDescription → ℕ → List ℕ → Option (List ℕ) × KeyDevice
process_ccmp_rx keys header key_index bytes =
    if ltb (length bytes) 16
    then (none, keys)
    else (if not (has_flag (byte_at bytes 3) 5)
        then (none, keys)
        else (let sequence =
              byte_at bytes 0
              ∷ byte_at bytes 1
              ∷ byte_at bytes 4
              ∷ byte_at bytes 5
              ∷ byte_at bytes 6
              ∷ byte_at bytes 7
              ∷ [] in
            let (accepted, keys1) =
              update_rx_sequence keys header key_index ccmp sequence sequence_size in
            if accepted
            then (some (take (length bytes - 16) (drop 8 bytes)), keys1)
            else (none, keys1)))

unfoldable pub process_tkip_rx :
    KeyDevice → HeaderDescription → ℕ → List ℕ → Option (List ℕ) × KeyDevice
process_tkip_rx keys header key_index bytes =
    if not (get_type header.frame_control == type_data)
    then (none, keys)
    else (if not (get_subtype header.frame_control == subtype_data)
        then (none, keys)
        else (if ltb (length bytes) 20
            then (none, keys)
            else (if not (has_flag (byte_at bytes 3) 5)
                  || not (byte_at bytes 1 == set_flag (byte_at bytes 0) 5 % 128)
                then (none, keys)
                else (let payload_size = length bytes - 8 - 8 - 4 in
                    let payload = take payload_size (drop 8 bytes) in
                    let (destination, source) = data_packet_addresses header in
                    let (accepted, keys1) = validate_tkip_rx keys (record {
                      header = header;
                      key_index = key_index;
                      destination = destination;
                      source = source;
                      priority = 0;
                      payload = payload;
                      sequence =
                          byte_at bytes 2
                          ∷ byte_at bytes 0
                          ∷ byte_at bytes 4
                          ∷ byte_at bytes 5
                          ∷ byte_at bytes 6
                          ∷ byte_at bytes 7
                          ∷ [];
                      mic = take 8 (drop payload_size (drop 8 bytes));
                    }) in
                    if accepted then (some payload, keys1) else (none, keys1)))))

-- The expected start of the LLC/SNAP header.
abbrev pub byte_header : List ℕ
byte_header = 0xaa ∷ 0xaa ∷ 0x03 ∷ 0 ∷ 0 ∷ 0 ∷ []

abbrev pub bytes_equal : List ℕ → List ℕ → Bool
bytes_equal [] [] = true
bytes_equal (x ∷ xs) (y ∷ ys) = (x == y) && bytes_equal xs ys
bytes_equal _ _ = false

-- The Ethernet frame that the kernel receives, if any. The source builds it in place.
unfoldable pub process_data_packet : HeaderDescription → List ℕ → Option (List ℕ)
process_data_packet header bytes =
    if ltb (length bytes) 8
    then none
    else (if not (bytes_equal (take 6 bytes) byte_header)
        then none
        else (let (destination, source) = data_packet_addresses header in
            some (mac_bytes destination ++ mac_bytes source ++ drop 6 bytes)))

-- The parts of `struct u80211_device` that data frames use. The device's own address is that of
-- `keys`.
pub record Station : Type 0 where
  pub packet_count : ℕ
  pub tx_sequence_control : ℕ
  pub keys : KeyDevice
  pub association : Device

-- What a frame leaves: the station, what the association code asks for, what goes to the scan, and
-- what the kernel receives.
pub record Outcome : Type 0 where
  pub station : Station
  pub effects : List Effect
  pub beacon : Option BeaconData
  pub received : Option (List ℕ)

abbrev pub dropped : Station → Outcome
dropped s = record { station = s; effects = []; beacon = none; received = none }

-- `switch (u80211_select_cipher_by_index(…))`.
unfoldable pub remove_protection :
    KeyDevice → HeaderDescription → List ℕ → Option (List ℕ) × KeyDevice
remove_protection keys header bytes = elim (deserialize_cipher_key_index bytes) [
  | none ↦ (none, keys)
  | some key_index ↦ elim (select_cipher_by_index keys header key_index) [
    | none ↦ (none, keys)
    | some ccmp ↦ process_ccmp_rx keys header key_index bytes
    | some tkip ↦ process_tkip_rx keys header key_index bytes
    | some wep40 ↦ (none, keys)
    | some wep104 ↦ (none, keys)
  ]
]

-- The switch on the type of the frame.
unfoldable pub dispatch : Station → HeaderDescription → List ℕ → Outcome
dispatch s header bytes =
    let type = get_type header.frame_control in
    if type == type_management
    then (let h = process_management_packet s.association s.keys.mac_address header bytes in
        record {
          station = record s { association = h.device };
          effects = h.effects;
          beacon = h.beacon;
          received = none;
        })
    else (if not (type == type_data) || not (data_packet_for_device s.keys.mac_address header)
        then dropped s
        else (let (duplicate, d1) = is_duplicate s.association header associated in
            let s1 = record s { association = d1 } in
            if duplicate then dropped s1 else record {
              station = s1;
              effects = [];
              beacon = none;
              received = process_data_packet header bytes;
            }))

-- `u` is the header structure on the stack before it is filled.
unfoldable pub process_packet : Station → HeaderDescription → List ℕ → Outcome
process_packet s0 u packet =
    let s = record s0 { packet_count = u64 (suc s0.packet_count) } in
    elim (deserialize_header packet u) [
      | err status ↦ dropped s
      | ok (header, bytes) ↦
          if is_protected header.frame_control
          then (let (payload, keys1) = remove_protection s.keys header bytes in
              let s1 = record s { keys = keys1 } in
              elim payload [ none ↦ dropped s1 | some rest ↦ dispatch s1 header rest ])
          else dispatch s header bytes
    ]

unfoldable pub get_packet_count : Station → ℕ
get_packet_count s = s.packet_count

unfoldable pub reset_packet_count : Station → Station
reset_packet_count s = record s { packet_count = 0 }
