-- ===== src/Key/Rx.antt =====
-- The replay counters of src/key.c: `u80211_key_update_rx_sequence` for CCMP and
-- `u80211_key_validate_tkip_rx` for TKIP. Each runs under the key spinlock, so it is one step.
use u.Common.{ℕ, Bool, true, false, ◌&&◌, none, some, List, ◌==◌, if◌then◌else◌, drop}
use u.Packet.{HeaderDescription, mac_bytes}
use u.Michael.{michael_mic}
use u.Key.{
  Cipher, tkip, cipher_equal, KeyMetadata, KeyDevice, TkipData, sequence_size, tkip_key_size,
  sequence_is_newer, mic_equal,
}
use u.Key.Table.{update_first, index_matches, find_key_by_index}

-- `u80211_memcpy(metadata->rx_sequence, sequence, …)`.
abbrev pub store_rx_sequence : List ℕ → KeyMetadata → KeyMetadata
store_rx_sequence sequence metadata = record metadata { rx_sequence = sequence }

abbrev pub accept : KeyDevice → HeaderDescription → ℕ → List ℕ → Bool × KeyDevice
accept device header index sequence = (
  true,
  record device {
    keys =
        update_first (index_matches device.mac_address header index) (store_rx_sequence sequence)
          device.keys;
  },
)

unfoldable pub update_rx_sequence :
    KeyDevice → HeaderDescription → ℕ → Cipher → List ℕ → ℕ → Bool × KeyDevice
update_rx_sequence device header index cipher sequence size =
    if size == sequence_size
    then elim (find_key_by_index device header index) [
      | none ↦ (false, device)
      | some metadata ↦
          if cipher_equal metadata.cipher cipher
            && sequence_is_newer sequence metadata.rx_sequence size
          then accept device header index sequence
          else (false, device)
    ]
    else (false, device)

-- The code computed over the received payload with the key's receive half.
unfoldable pub calculated_rx_mic : KeyMetadata → TkipData → List ℕ
calculated_rx_mic metadata t =
    michael_mic (drop 24 metadata.key) (mac_bytes t.destination) (mac_bytes t.source) t.priority
      t.payload

unfoldable pub validate_tkip_rx : KeyDevice → TkipData → Bool × KeyDevice
validate_tkip_rx device t = elim (find_key_by_index device t.header t.key_index) [
  | none ↦ (false, device)
  | some metadata ↦
      if cipher_equal metadata.cipher tkip && metadata.key_len == tkip_key_size
      then (if sequence_is_newer t.sequence metadata.rx_sequence sequence_size
          then (if mic_equal (calculated_rx_mic metadata t) t.mic
              then accept device t.header t.key_index t.sequence
              else (false, device))
          else (false, device))
      else (false, device)
]
