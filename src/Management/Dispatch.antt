-- ===== src/Management/Dispatch.antt =====
-- The received management frames of src/packet_management.c and where they go.
use u.Common.{
  ℕ, Bool, true, false, not, ◌&&◌, ◌||◌, Option, none, some, List, [], ltb, ◌==◌, if◌then◌else◌,
  deserialize_le16, drop, length, replicate,
}
use u.Packet.{
  MacAddress, HeaderDescription, mac_address_equal, get_subtype, subtype_association_response,
  subtype_probe_response, subtype_authentication, subtype_deauthentication, subtype_disassociation,
}
use u.Association.{authenticating, associating, Device, Effect}
use u.Association.Handlers.{
  process_authentication, process_response, process_deauthentication, process_disassociation,
}
use u.Association.Duplicate.{is_duplicate}
use u.Management.{ElementData, process_information_elements}

-- `u80211_beacon_data_t` for `u80211_scan_process_response`.
pub record BeaconData : Type 0 where
  pub mac_address : MacAddress
  pub interval : ℕ
  pub capabilities : ℕ
  pub elements : ElementData

-- What a frame leaves: the device, what the association code asks for, and what goes to the scan.
pub record Handled : Type 0 where
  pub device : Device
  pub effects : List Effect
  pub beacon : Option BeaconData

abbrev pub ignored : Device → Handled
ignored d = record { device = d; effects = []; beacon = none }

abbrev pub broadcast_address : MacAddress
broadcast_address = record {
  byte0 = 255;
  byte1 = 255;
  byte2 = 255;
  byte3 = 255;
  byte4 = 255;
  byte5 = 255;
}

-- `own` is the address in the device's metadata.
unfoldable pub management_packet_for_device : MacAddress → HeaderDescription → Bool
management_packet_for_device own header =
    mac_address_equal header.addresses_1 header.addresses_2
    && mac_address_equal header.addresses_0 own

unfoldable pub management_packet_for_device_or_broadcast : MacAddress → HeaderDescription → Bool
management_packet_for_device_or_broadcast own header =
    mac_address_equal header.addresses_1 header.addresses_2
    && (mac_address_equal header.addresses_0 own
        || mac_address_equal header.addresses_0 broadcast_address)

-- The memory that `u80211_memset` clears.
abbrev pub no_elements : ElementData
no_elements = record {
  rate_bitmap = replicate 16 0;
  ssid = replicate 33 0;
  channel = 0;
  rsn = none;
}

unfoldable pub process_probe_response : Device → MacAddress → HeaderDescription → List ℕ → Handled
process_probe_response d own header bytes =
    if ltb (length bytes) 12
    then ignored d
    else (if not (management_packet_for_device own header)
        then ignored d
        else elim (process_information_elements true (drop 12 bytes) no_elements) [
          | none ↦ ignored d
          | some elements ↦ record {
            device = d;
            effects = [];
            beacon = some (record {
              mac_address = header.addresses_2;
              interval = deserialize_le16 (drop 8 bytes);
              capabilities = deserialize_le16 (drop 10 bytes);
              elements = elements;
            });
          }
        ])

unfoldable pub process_auth_packet : Device → MacAddress → HeaderDescription → List ℕ → Handled
process_auth_packet d own header bytes =
    if ltb (length bytes) 6
    then ignored d
    else (if not (management_packet_for_device own header)
        then ignored d
        else (let (duplicate, d1) = is_duplicate d header authenticating in
            if duplicate
            then ignored d1
            else (let (d2, effects) =
                  process_authentication d1 header.addresses_2 (deserialize_le16 bytes)
                    (deserialize_le16 (drop 2 bytes)) (deserialize_le16 (drop 4 bytes)) in
                record { device = d2; effects = effects; beacon = none })))

-- The parsed elements are not used.
unfoldable pub process_association_response :
    Device → MacAddress → HeaderDescription → List ℕ → Handled
process_association_response d own header bytes =
    if ltb (length bytes) 6
    then ignored d
    else (if not (management_packet_for_device own header)
        then ignored d
        else elim (process_information_elements false (drop 6 bytes) no_elements) [
          | none ↦ ignored d
          | some elements ↦
              let (duplicate, d1) = is_duplicate d header associating in
              if duplicate
              then ignored d1
              else ignored
                  (process_response d1 header.addresses_2 (deserialize_le16 (drop 2 bytes)))
        ])

unfoldable pub process_deauthentication_packet :
    Device → MacAddress → HeaderDescription → List ℕ → Handled
process_deauthentication_packet d own header bytes =
    if ltb (length bytes) 2 || not (management_packet_for_device_or_broadcast own header)
    then ignored d
    else ignored (process_deauthentication d header.addresses_2)

unfoldable pub process_disassociation_packet :
    Device → MacAddress → HeaderDescription → List ℕ → Handled
process_disassociation_packet d own header bytes =
    if ltb (length bytes) 2 || not (management_packet_for_device_or_broadcast own header)
    then ignored d
    else ignored (process_disassociation d header.addresses_2)

unfoldable pub process_management_packet :
    Device → MacAddress → HeaderDescription → List ℕ → Handled
process_management_packet d own header bytes =
    let subtype = get_subtype header.frame_control in
    if subtype == subtype_association_response
    then process_association_response d own header bytes
    else (if subtype == subtype_probe_response
        then process_probe_response d own header bytes
        else (if subtype == subtype_authentication
            then process_auth_packet d own header bytes
            else (if subtype == subtype_deauthentication
                then process_deauthentication_packet d own header bytes
                else (if subtype == subtype_disassociation
                    then process_disassociation_packet d own header bytes
                    else ignored d))))
