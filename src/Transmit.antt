-- ===== src/Transmit.antt =====
-- The transmit path of src/packet_data.c: buffers for Ethernet frames, and what becomes of them.
pub mod Bounds
pub mod Frame
pub mod RoundTrip
pub mod Ciphers
pub mod Encrypted
pub mod Received
pub mod Tailroom
pub mod TkipKeys
pub mod Tkip
pub mod Once
use u.Common.{
  ℕ, ◌+◌, ◌*◌, ◌-◌, ◌%◌, Bool, true, false, not, ◌&&◌, Option, none, some, List, [], ◌∷◌, ltb,
  if◌then◌else◌, byte_at, set_flag, u8, u16, u64, sub64, take, drop, memcpy, replicate, Result, ok,
  err, status_success, status_not_enough_space, status_not_permitted, status_not_associated,
  status_unsupported,
}
use u.Packet.{MacAddress, HeaderDescription, TxBufferDescriptor, mac_at, allocate_space, frame}
use u.Packet.Serialize.{serialize_header}
use u.Key.{Cipher, ccmp, tkip, wep40, wep104, KeyDevice, TkipData, sequence_size}
use u.Key.Table.{select_key, select_cipher_by_index}
use u.Key.Tx.{next_tx_sequence, prepare_tkip_tx}
use u.Association.{associated, state_equal, Ap, Device, ap_hold, ap_release}
use u.Receive.{Station, byte_header}

abbrev pub ethernet_header_size : ℕ
ethernet_header_size = 14

abbrev pub ethernet_max_frame_size : ℕ
ethernet_max_frame_size = 1514

abbrev pub tx_buffer_headroom : ℕ
tx_buffer_headroom = 64

abbrev pub tx_buffer_tailroom : ℕ
tx_buffer_tailroom = 8

-- A descriptor that the caller holds: the driver's memory, and where the field `data` points into it.
pub record TxBuffer : Type 0 where
  pub memory : List ℕ
  pub data_start : ℕ
  pub size : ℕ
  pub current_offset : ℕ

-- `allocate` is the driver's operation, for a size in bytes. Its descriptor points to the start of
-- the memory.
unfoldable pub allocate_tx_buffer : (ℕ → Result TxBufferDescriptor) → Result TxBuffer
allocate_tx_buffer allocate =
    elim (allocate (ethernet_max_frame_size + tx_buffer_headroom + tx_buffer_tailroom)) [
      | err status ↦ err status
      | ok d ↦ ok (record {
        memory = d.buffer;
        data_start = tx_buffer_headroom;
        size = sub64 d.size (tx_buffer_headroom + tx_buffer_tailroom);
        current_offset = sub64 d.current_offset (tx_buffer_headroom + tx_buffer_tailroom);
      })
    ]

-- The first statements of `u80211_transmit_buffer`, which take the headroom back.
unfoldable pub with_headroom : TxBuffer → TxBufferDescriptor
with_headroom b = record {
  buffer = drop (b.data_start - tx_buffer_headroom) b.memory;
  size = u64 (b.size + tx_buffer_headroom);
  current_offset = u64 (b.current_offset + tx_buffer_headroom);
}

-- `EXT_IV | key << 6`, as a byte.
abbrev pub key_byte : ℕ → ℕ
key_byte key = u8 (0x20 + key * 64)

unfoldable pub ccmp_header : List ℕ → ℕ → List ℕ
ccmp_header sequence key =
    byte_at sequence 0
    ∷ byte_at sequence 1
    ∷ 0
    ∷ key_byte key
    ∷ byte_at sequence 2
    ∷ byte_at sequence 3
    ∷ byte_at sequence 4
    ∷ byte_at sequence 5
    ∷ []

-- `(x | 0x20) & 0x7f`.
abbrev pub tkip_check_byte : ℕ → ℕ
tkip_check_byte x = set_flag x 5 % 128

unfoldable pub tkip_header : List ℕ → ℕ → List ℕ
tkip_header sequence key =
    byte_at sequence 1
    ∷ tkip_check_byte (byte_at sequence 1)
    ∷ byte_at sequence 0
    ∷ key_byte key
    ∷ byte_at sequence 2
    ∷ byte_at sequence 3
    ∷ byte_at sequence 4
    ∷ byte_at sequence 5
    ∷ []

-- What `prepare_ccmp_tx` and `prepare_tkip_tx` return, and what they leave behind.
pub record Prepared : Type 0 where
  pub status : ℕ
  pub header : HeaderDescription
  pub descriptor : TxBufferDescriptor
  pub keys : KeyDevice

abbrev pub protect : HeaderDescription → HeaderDescription
protect header = record header { frame_control = set_flag header.frame_control 14 }

unfoldable pub prepare_ccmp_frame :
    KeyDevice → HeaderDescription → ℕ → TxBufferDescriptor → Prepared
prepare_ccmp_frame keys header key d = elim (allocate_space d 8) [
  | none ↦ record { status = status_not_enough_space; header = header; descriptor = d; keys = keys }
  | some d1 ↦
      let (handed_out, keys1) = next_tx_sequence keys header key ccmp sequence_size in
      elim handed_out [
        | none ↦ record {
          status = status_not_permitted;
          header = header;
          descriptor = d1;
          keys = keys1;
        }
        | some sequence ↦ record {
          status = status_success;
          header = protect header;
          descriptor = record d1 {
            buffer = memcpy d1.buffer d1.current_offset (ccmp_header sequence key);
          };
          keys = keys1;
        }
      ]
]

unfoldable pub prepare_tkip_frame :
    KeyDevice → HeaderDescription → ℕ → TxBufferDescriptor → Prepared
prepare_tkip_frame keys header key d =
    let tkip_data : TkipData = record {
      header = header;
      key_index = key;
      destination = header.addresses_2;
      source = header.addresses_1;
      priority = 0;
      payload = frame d;
      sequence = replicate 6 0;
      mic = replicate 8 0;
    } in
    elim (allocate_space d 8) [
      | none ↦ record {
        status = status_not_enough_space;
        header = header;
        descriptor = d;
        keys = keys;
      }
      | some d1 ↦
          let (prepared, keys1) = prepare_tkip_tx keys tkip_data in
          elim prepared [
            | none ↦ record {
              status = status_not_permitted;
              header = header;
              descriptor = d1;
              keys = keys1;
            }
            | some t ↦
                let with_header = memcpy d1.buffer d1.current_offset (tkip_header t.sequence key) in
                record {
                  status = status_success;
                  header = protect header;
                  descriptor = record d1 {
                    buffer = memcpy with_header d1.size t.mic;
                    size = u64 (d1.size + 8);
                  };
                  keys = keys1;
                }
          ]
    ]

-- What the driver is asked to do with the descriptor. The options are the key's index and its cipher,
-- `none` for -1.
pub data DriverCall : Type 0 where
  free_tx_buffer : TxBufferDescriptor → DriverCall
  transmit : TxBufferDescriptor → Option ℕ → Option Cipher → DriverCall

pub record Transmitted : Type 0 where
  pub station : Station
  pub status : ℕ
  pub calls : List DriverCall

abbrev pub free_and_return : Station → TxBufferDescriptor → ℕ → Transmitted
free_and_return s d status = record { station = s; status = status; calls = free_tx_buffer d ∷ [] }

-- `driver` gives the status of the driver's transmit operation.
unfoldable pub serialize_and_transmit :
    (TxBufferDescriptor → ℕ)
    → Station
    → HeaderDescription
    → TxBufferDescriptor
    → Option ℕ
    → Option Cipher
    → Transmitted
serialize_and_transmit driver s header d key cipher = elim (serialize_header header d) [
  | err status ↦ free_and_return s d status
  | ok d1 ↦ record { station = s; status = driver d1; calls = transmit d1 key cipher ∷ [] }
]

unfoldable pub transmit_prepared :
    (TxBufferDescriptor → ℕ) → Station → Prepared → ℕ → Cipher → Transmitted
transmit_prepared driver s p key cipher =
    let s1 = record s { keys = p.keys } in
    if ltb 0 p.status
    then free_and_return s1 p.descriptor p.status
    else serialize_and_transmit driver s1 p.header p.descriptor (some key) (some cipher)

-- From the selection of the key on.
unfoldable pub protect_and_transmit :
    (TxBufferDescriptor → ℕ) → Station → HeaderDescription → TxBufferDescriptor → Transmitted
protect_and_transmit driver s header d = elim (select_key s.keys header) [
  | none ↦ serialize_and_transmit driver s header d none none
  | some key ↦
      if ltb 3 key
      then free_and_return s d status_not_permitted
      else elim (select_cipher_by_index s.keys header key) [
        | none ↦ free_and_return s d status_unsupported
        | some ccmp ↦ transmit_prepared driver s (prepare_ccmp_frame s.keys header key d) key ccmp
        | some tkip ↦ transmit_prepared driver s (prepare_tkip_frame s.keys header key d) key tkip
        | some wep40 ↦ free_and_return s d status_unsupported
        | some wep104 ↦ free_and_return s d status_unsupported
      ]
]

-- The header of a frame to the access point.
abbrev pub header_to_ap : Ap → MacAddress → MacAddress → ℕ → HeaderDescription
header_to_ap a source destination sequence_control = record {
  frame_control = 0x108;
  duration_id = 0;
  addresses_0 = a.mac_address;
  addresses_1 = source;
  addresses_2 = destination;
  addresses_3 = mac_at [];
  sequence_control = sequence_control;
}

abbrev pub hold : Station → Ap → Station
hold s a = record s { association = ap_hold s.association a }

abbrev pub release : Station → Ap → Station
release s a = record s { association = ap_release s.association a }

-- From the check of the frame's size on, with a reference to the access point held.
unfoldable pub convert_and_transmit :
    (TxBufferDescriptor → ℕ) → Station → Ap → TxBufferDescriptor → Transmitted
convert_and_transmit driver s a d =
    if ltb (sub64 d.size d.current_offset) ethernet_header_size
    then free_and_return (release s a) d status_not_enough_space
    else (let ethernet_header = drop d.current_offset d.buffer in
        let destination = mac_at ethernet_header in
        let source = mac_at (drop 6 ethernet_header) in
        let ethertype = byte_at ethernet_header 12 ∷ byte_at ethernet_header 13 ∷ [] in
        let d1 = record d { current_offset = u64 (d.current_offset + ethernet_header_size) } in
        elim (allocate_space d1 8) [
          | none ↦ free_and_return (release s a) d1 status_not_enough_space
          | some d2 ↦
              let with_snap = memcpy d2.buffer d2.current_offset byte_header in
              let d3 = record d2 { buffer = memcpy with_snap (d2.current_offset + 6) ethertype } in
              let s1 = record s { tx_sequence_control = u16 (s.tx_sequence_control + 0x10) } in
              protect_and_transmit driver (release s1 a)
                (header_to_ap a source destination s.tx_sequence_control) d3
        ])

unfoldable pub transmit_buffer : (TxBufferDescriptor → ℕ) → Station → TxBuffer → Transmitted
transmit_buffer driver s b =
    let d = with_headroom b in
    elim s.association.ap [
      | none ↦ free_and_return s d status_not_associated
      | some a ↦
          if not (state_equal s.association.state associated)
          then free_and_return s d status_not_associated
          else convert_and_transmit driver (hold s a) a d
    ]
