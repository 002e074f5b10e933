-- ===== src/Scan/Session.antt =====
-- The scan of src/scan.c on one channel: the ring of beacon records between the responses that come in
-- and the work that takes them out.
use u.Common.{
  ℕ, zero, suc, ◌+◌, ◌*◌, ◌/◌, Bool, not, ◌&&◌, ◌||◌, Option, none, some, List, [], ◌∷◌, ◌++◌, ltb,
  ◌==◌, if◌then◌else◌, byte_at, take, drop, length, serialize_le16, deserialize_le16,
  serialize_le32, deserialize_le32,
}
use u.Packet.{mac_at, mac_bytes}
use u.Management.Dispatch.{BeaconData}
use u.Ringbuffer.{Ringbuffer, data_count, free_space, read, write}
use u.Scan.{valid_bssid}

-- `sizeof(u80211_beacon_data_t)`.
abbrev pub beacon_data_size : ℕ
beacon_data_size = 80

abbrev pub max_rsn_size : ℕ
max_rsn_size = 255

abbrev pub rsn_bytes : BeaconData → List ℕ
rsn_bytes b = elim b.elements.rsn [ none ↦ [] | some bytes ↦ bytes ]

-- The bytes of the structure, for an ABI with pointers of eight bytes. `filler` holds the four bytes
-- of padding and the eight of the pointer to the RSN element.
unfoldable pub beacon_bytes : List ℕ → BeaconData → List ℕ
beacon_bytes filler b =
    mac_bytes b.mac_address
    ++ (serialize_le16 b.interval
        ++ (serialize_le16 b.capabilities
            ++ (b.elements.channel ∷ b.elements.rate_bitmap
                ++ (b.elements.ssid
                    ++ (filler
                        ++ (serialize_le32 (length (rsn_bytes b))
                            ++ serialize_le32 (length (rsn_bytes b) / 0x1_0000_0000)))))))

-- The structure that has the bytes, its pointer left out, and `rsn_size`.
unfoldable pub beacon_at : List ℕ → BeaconData × ℕ
beacon_at bytes = (
  record {
    mac_address = mac_at bytes;
    interval = deserialize_le16 (drop 6 bytes);
    capabilities = deserialize_le16 (drop 8 bytes);
    elements = record {
      rate_bitmap = take 16 (drop 11 bytes);
      ssid = take 33 (drop 27 bytes);
      channel = byte_at bytes 10;
      rsn = none;
    };
  },
  deserialize_le32 (drop 72 bytes) + deserialize_le32 (drop 76 bytes) * 0x1_0000_0000,
)

-- The fields of `u80211_scan_state_t` but for its pointers and the scratch space for one RSN element.
pub record ScanState : Type 0 where
  pub buffer : Ringbuffer
  pub receiving : Bool
  pub current_channel : ℕ

abbrev pub on_channel : ℕ → BeaconData → BeaconData
on_channel channel b =
    if b.elements.channel == 0
    then record b { elements = record b.elements { channel = channel } }
    else b

-- The context of the device is `none` for null.
unfoldable pub process_response : Option ScanState → List ℕ → BeaconData → Option ScanState
process_response none filler b = none
process_response (some s) filler b =
    let rsn_size = length (rsn_bytes b) in
    if not s.receiving || ltb max_rsn_size rsn_size
    then some s
    else (if ltb (free_space s.buffer) (beacon_data_size + rsn_size)
        then some s
        else (let b1 = on_channel s.current_channel b in
            let buffer1 = (write s.buffer (beacon_bytes filler b1) beacon_data_size).1 in
            let buffer2 = (write buffer1 (rsn_bytes b1) rsn_size).1 in
            some (record s { buffer = buffer2 })))

abbrev pub with_rsn : BeaconData → List ℕ → BeaconData
with_rsn b rsn = record b {
  elements = record b.elements { rsn = if length rsn == 0 then none else some rsn };
}

-- The reads of the loop of `scan_work`: the records that it takes out, and the ring that is left. The
-- fuel is the number of rounds.
unfoldable pub take_records : ℕ → Ringbuffer → List BeaconData × Ringbuffer
take_records zero r = ([], r)
take_records (suc fuel) r =
    let (bytes, count, r1) = read r beacon_data_size in
    let (b, rsn_size) = beacon_at bytes in
    let (rsn, rsn_count, r2) = read r1 rsn_size in
    let rest = take_records fuel r2 in
    if ltb (data_count r) beacon_data_size
    then ([], r)
    else (if not (count == beacon_data_size)
        then ([], r1)
        else (if not (rsn_count == rsn_size) then ([], r2) else (with_rsn b rsn ∷ rest.0, rest.1)))

-- The records that the loop makes access points of.
unfoldable pub is_discovered : ℕ → BeaconData → Bool
is_discovered current_channel b =
    (b.elements.channel == current_channel) && valid_bssid b.mac_address
