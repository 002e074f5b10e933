-- ===== src/Key/Tx.antt =====
-- The transmit packet numbers of src/key.c: `u80211_key_next_tx_sequence` for CCMP and
-- `u80211_key_prepare_tkip_tx` for TKIP. Each runs under the key spinlock, so it is one step.
use u.Common.{ℕ, ◌&&◌, Option, none, some, List, ◌==◌, if◌then◌else◌, drop}
use u.Packet.{HeaderDescription, mac_bytes}
use u.Michael.{michael_mic}
use u.Key.{
  Cipher, tkip, cipher_equal, KeyMetadata, KeyDevice, TkipData, sequence_size, tkip_key_size,
  increment_sequence,
}
use u.Key.Table.{update_first, key_matches_header, index_matches, find_key, find_key_by_index}

abbrev pub store_tx_sequence : List ℕ → KeyMetadata → KeyMetadata
store_tx_sequence sequence metadata = record metadata { tx_sequence = sequence }

-- The result is the packet number that is copied to the caller, `none` where the function says
-- false.
unfoldable pub next_tx_sequence :
    KeyDevice → HeaderDescription → ℕ → Cipher → ℕ → Option (List ℕ) × KeyDevice
next_tx_sequence device header index cipher size =
    if size == sequence_size
    then elim (find_key device header) [
      | none ↦ (none, device)
      | some metadata ↦
          if metadata.index == index && cipher_equal metadata.cipher cipher
          then elim (increment_sequence metadata.tx_sequence size) [
            | none ↦ (none, device)
            | some sequence ↦ (
              some sequence,
              record device {
                keys =
                    update_first (λ m. key_matches_header m device.mac_address header)
                      (store_tx_sequence sequence) device.keys;
              },
            )
          ]
          else (none, device)
    ]
    else (none, device)

-- The code computed over the payload to send with the key's transmit half.
unfoldable pub calculated_tx_mic : KeyMetadata → TkipData → List ℕ
calculated_tx_mic metadata t =
    michael_mic (drop 16 metadata.key) (mac_bytes t.destination) (mac_bytes t.source) t.priority
      t.payload

-- The result is the caller's structure with the packet number and the code filled in.
unfoldable pub prepare_tkip_tx : KeyDevice → TkipData → Option TkipData × KeyDevice
prepare_tkip_tx device t = elim (find_key_by_index device t.header t.key_index) [
  | none ↦ (none, device)
  | some metadata ↦
      if cipher_equal metadata.cipher tkip && metadata.key_len == tkip_key_size
      then elim (increment_sequence metadata.tx_sequence sequence_size) [
        | none ↦ (none, device)
        | some sequence ↦ (
          some (record t { sequence = sequence; mic = calculated_tx_mic metadata t }),
          record device {
            keys =
                update_first (index_matches device.mac_address t.header t.key_index)
                  (store_tx_sequence sequence) device.keys;
          },
        )
      ]
      else (none, device)
]
