-- ===== src/Key/Table.antt =====
-- The list of keys of src/key.c: installing, deleting and selecting. Each function that takes the
-- key spinlock is one step on the device.
use u.Common.{
  ℕ, ◌-◌, ◌^◌, Bool, not, ◌&&◌, ◌||◌, Option, none, some, List, [], ◌∷◌, ltb, ◌==◌, if◌then◌else◌,
  is_some, has_flag, take, replicate, status_success, status_unsupported, status_not_permitted,
  status_enomem,
}
use u.Packet.{MacAddress, HeaderDescription, mac_address_equal}
use u.Key.{
  Cipher, Key, KeyMetadata, KeyDevice, sequence_size, key_pairwise, key_group, key_rx, key_tx,
}

-- `sizeof(u80211_key_metadata_t)` where a pointer and a `size_t` have eight bytes.
abbrev pub metadata_size : ℕ
metadata_size = 56

unfoldable pub key_identity_equal : KeyMetadata → ℕ → MacAddress → ℕ → Bool
key_identity_equal metadata index peer flags =
    metadata.index == index && (metadata.flags == flags && mac_address_equal metadata.peer peer)

-- The loop that unlinks the first node that passes the test.
unfoldable pub remove_first :
    (KeyMetadata → Bool) → List KeyMetadata → Option KeyMetadata × List KeyMetadata
remove_first test [] = (none, [])
remove_first test (m ∷ keys) =
    let (found, rest) = remove_first test keys in
    if test m then (some m, keys) else (found, m ∷ rest)

abbrev pub bytes_of : Option (List ℕ) → List ℕ
bytes_of none = []
bytes_of (some bytes) = bytes

-- The record that `u80211_set_key` fills in.
unfoldable pub new_metadata : Key → KeyMetadata
new_metadata key = record {
  cipher = key.cipher;
  index = key.index;
  peer = key.peer;
  flags = key.flags;
  rx_sequence =
      if is_some key.rx_seq && key.rx_seq_len == sequence_size
      then take sequence_size (bytes_of key.rx_seq)
      else replicate sequence_size 0;
  tx_sequence = replicate sequence_size 0;
  key_len = key.key_len;
  key = take key.key_len (bytes_of key.key);
}

-- What a call leaves: its status, the device, and the records that it has zeroed and freed.
pub record Outcome : Type 0 where
  pub status : ℕ
  pub device : KeyDevice
  pub destroyed : List KeyMetadata

abbrev pub destroy_if_found : Option KeyMetadata → List KeyMetadata
destroy_if_found none = []
destroy_if_found (some m) = m ∷ []

-- `set_key_op` is the driver's operation, null in a driver that has none, with the status that it
-- returns; `allocated` says whether the kernel has memory for the record.
unfoldable pub set_key : Option (Key → ℕ) → Bool → KeyDevice → Key → Outcome
set_key none allocated device key = record {
  status = status_unsupported;
  device = device;
  destroyed = [];
}
set_key (some set_key_op) allocated device key =
    if (not (is_some key.key) && not (key.key_len == 0))
      || ltb (2 ^ 64 - 1 - metadata_size) key.key_len
    then record { status = status_not_permitted; device = device; destroyed = [] }
    else (if not allocated
        then record { status = status_enomem; device = device; destroyed = [] }
        else (let metadata = new_metadata key in
            let status = set_key_op key in
            if not (status == status_success)
            then record { status = status; device = device; destroyed = metadata ∷ [] }
            else (let (old_metadata, rest) =
                  remove_first
                    (λ candidate. key_identity_equal candidate key.index key.peer key.flags)
                    device.keys in
                record {
                  status = status_success;
                  device = record device { keys = metadata ∷ rest };
                  destroyed = destroy_if_found old_metadata;
                })))

unfoldable pub del_key : Option (ℕ → MacAddress → ℕ → ℕ) → KeyDevice → ℕ → MacAddress → ℕ → Outcome
del_key none device index peer flags = record {
  status = status_unsupported;
  device = device;
  destroyed = [];
}
del_key (some del_key_op) device index peer flags =
    let status = del_key_op index peer flags in
    if not (status == status_success)
    then record { status = status; device = device; destroyed = [] }
    else (let (removed_metadata, rest) =
          remove_first (λ candidate. key_identity_equal candidate index peer flags) device.keys in
        record {
          status = status_success;
          device = record device { keys = rest };
          destroyed = destroy_if_found removed_metadata;
        })

-- `mac_address` is the device's own.
unfoldable pub key_matches_header : KeyMetadata → MacAddress → HeaderDescription → Bool
key_matches_header metadata mac_address header =
    let tx = mac_address_equal header.addresses_1 mac_address in
    let group = has_flag header.addresses_0.byte0 0 in
    let direction_flag = if tx then key_tx else key_rx in
    let type_flag = if group then key_group else key_pairwise in
    let peer = if tx then header.addresses_0 else header.addresses_1 in
    has_flag metadata.flags direction_flag
    && (has_flag metadata.flags type_flag && (group || mac_address_equal metadata.peer peer))

-- The first node that passes a test.
unfoldable pub find_first : (KeyMetadata → Bool) → List KeyMetadata → Option KeyMetadata
find_first test [] = none
find_first test (m ∷ keys) = if test m then some m else find_first test keys

-- A write through the pointer to the first node that passes a test.
unfoldable pub update_first :
    (KeyMetadata → Bool) → (KeyMetadata → KeyMetadata) → List KeyMetadata → List KeyMetadata
update_first test f [] = []
update_first test f (m ∷ keys) = if test m then f m ∷ keys else m ∷ update_first test f keys

-- The test of the loop in `select_key_by_index`.
unfoldable pub index_matches : MacAddress → HeaderDescription → ℕ → KeyMetadata → Bool
unfolding key_matches_header
index_matches mac_address header index metadata =
    metadata.index == index && key_matches_header metadata mac_address header

unfoldable pub find_key : KeyDevice → HeaderDescription → Option KeyMetadata
unfolding find_first
find_key device header =
    find_first (λ metadata. key_matches_header metadata device.mac_address header) device.keys

unfoldable pub find_key_by_index : KeyDevice → HeaderDescription → ℕ → Option KeyMetadata
unfolding find_first index_matches
find_key_by_index device header index =
    find_first (index_matches device.mac_address header index) device.keys

-- The result -1 is `none` in the three functions below.
unfoldable pub select_key : KeyDevice → HeaderDescription → Option ℕ
unfolding find_key
select_key device header = elim (find_key device header) [
  | none ↦ none
  | some metadata ↦ some metadata.index
]

unfoldable pub select_cipher : KeyDevice → HeaderDescription → Option Cipher
unfolding find_key
select_cipher device header = elim (find_key device header) [
  | none ↦ none
  | some metadata ↦ some metadata.cipher
]

unfoldable pub select_cipher_by_index : KeyDevice → HeaderDescription → ℕ → Option Cipher
unfolding find_key_by_index
select_cipher_by_index device header index = elim (find_key_by_index device header index) [
  | none ↦ none
  | some metadata ↦ some metadata.cipher
]
