-- ===== src/Key.antt =====
-- The keys of a device, src/key.c and include/u80211/key.h: their records, the packet numbers and
-- the comparison of codes. The parts of the list are in the modules below.
pub mod Sequence
pub mod Table
pub mod Find
pub mod Rx
pub mod Replay
pub mod Tx
pub mod Nonce
pub mod Mic
pub mod Identity
use Prim.Native.Nat.{bit_or, bit_xor}
use u.Common.{
  ℕ, zero, suc, ◌-◌, Bool, true, false, Option, none, some, List, [], ◌∷◌, ltb, ◌==◌, if◌then◌else◌,
  byte_at, u8, set, length, memcpy, replicate,
}
use u.Packet.{MacAddress, HeaderDescription}

pub data Cipher : Type 0 where
  ccmp tkip wep40 wep104 : Cipher

abbrev pub cipher_code : Cipher → ℕ
cipher_code ccmp = 0
cipher_code tkip = 1
cipher_code wep40 = 2
cipher_code wep104 = 3

abbrev pub cipher_equal : Cipher → Cipher → Bool
cipher_equal a b = cipher_code a == cipher_code b

abbrev pub sequence_size : ℕ
sequence_size = 6

abbrev pub tkip_key_size : ℕ
tkip_key_size = 32

-- The bits of U80211_KEY_PAIRWISE, U80211_KEY_GROUP, U80211_KEY_RX and U80211_KEY_TX.
abbrev pub key_pairwise : ℕ
key_pairwise = 0

abbrev pub key_group : ℕ
key_group = 1

abbrev pub key_rx : ℕ
key_rx = 2

abbrev pub key_tx : ℕ
key_tx = 3

-- `u80211_key_t`. A null pointer is `none`.
pub record Key : Type 0 where
  pub cipher : Cipher
  pub index : ℕ
  pub peer : MacAddress
  pub key : Option (List ℕ)
  pub key_len : ℕ
  pub rx_seq : Option (List ℕ)
  pub rx_seq_len : ℕ
  pub flags : ℕ

-- `u80211_key_metadata_t`. The list of the device links these records.
pub record KeyMetadata : Type 0 where
  pub cipher : Cipher
  pub index : ℕ
  pub peer : MacAddress
  pub flags : ℕ
  pub rx_sequence : List ℕ
  pub tx_sequence : List ℕ
  pub key_len : ℕ
  pub key : List ℕ

-- What the code of this component reads and writes of `struct u80211_device`: the address in its
-- metadata, and the list of keys, first node first.
pub record KeyDevice : Type 0 where
  pub mac_address : MacAddress
  pub keys : List KeyMetadata

-- `u80211_tkip_data_t`.
pub record TkipData : Type 0 where
  pub header : HeaderDescription
  pub key_index : ℕ
  pub destination : MacAddress
  pub source : MacAddress
  pub priority : ℕ
  pub payload : List ℕ
  pub sequence : List ℕ
  pub mic : List ℕ

-- The loop of `sequence_is_newer` from the byte `i - 1` down: the last byte is the highest.
unfoldable pub sequence_is_newer : List ℕ → List ℕ → ℕ → Bool
sequence_is_newer sequence previous zero = false
sequence_is_newer sequence previous (suc i) =
    let rest = sequence_is_newer sequence previous i in
    if byte_at sequence i == byte_at previous i
    then rest
    else ltb (byte_at previous i) (byte_at sequence i)

-- The loop that finds the first byte that is not 0xff, with `left` bytes still to look at.
unfoldable pub carry_end_from : List ℕ → ℕ → ℕ → ℕ
carry_end_from sequence zero carry_end = carry_end
carry_end_from sequence (suc left) carry_end =
    let rest = carry_end_from sequence left (suc carry_end) in
    if byte_at sequence carry_end == 0xff then rest else carry_end

-- `none` is the result false, which leaves the sequence alone.
unfoldable pub increment_sequence : List ℕ → ℕ → Option (List ℕ)
unfolding carry_end_from
increment_sequence sequence size =
    let carry_end = carry_end_from sequence size 0 in
    if carry_end == size
    then none
    else (let cleared = memcpy sequence 0 (replicate carry_end 0) in
        some (set cleared carry_end (u8 (suc (byte_at cleared carry_end)))))

-- The loop of `mic_equal` over the bytes that are left.
unfoldable pub mic_difference : List ℕ → List ℕ → ℕ → ℕ
mic_difference (a ∷ as') (b ∷ bs) difference =
    mic_difference as' bs (bit_or difference (bit_xor a b))
mic_difference _ _ difference = difference

-- Both codes have eight bytes.
unfoldable pub mic_equal : List ℕ → List ℕ → Bool
unfolding mic_difference
mic_equal a b = mic_difference a b 0 == 0
