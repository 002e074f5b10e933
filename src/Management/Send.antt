-- ===== src/Management/Send.antt =====
-- The management frames that src/packet_management.c sends.
use u.Common.{
  ℕ, zero, suc, ◌+◌, ◌*◌, List, [], ◌∷◌, none, some, Result, ok, err, if◌then◌else◌, ◌==◌, length,
  take, memcpy, u8, u16, u64, serialize_le16, status_not_enough_space,
}
use u.Packet.{MacAddress, HeaderDescription, TxBufferDescriptor, mac_at, allocate_space}
use u.Packet.Serialize.{serialize_header}
use u.Management.Dispatch.{broadcast_address}
use u.Management.{count_rates, rate_information_elements_size, serialize_rate_information_elements}
use u.Transmit.{DriverCall, free_tx_buffer, transmit}

-- The parts of `struct u80211_device` that are used.
pub record Sender : Type 0 where
  pub mac_address : MacAddress
  pub rate_bitmap : List ℕ
  pub tx_sequence_control : ℕ

-- What `prepare_management_packet` leaves: a status that is not success, with what the driver was
-- asked to do, or the descriptor and where the field `data` points into its memory.
pub data Preparation : Type 0 where
  failed : ℕ → Sender → List DriverCall → Preparation
  prepared : Sender → TxBufferDescriptor → ℕ → Preparation

abbrev pub management_header : Sender → MacAddress → ℕ → HeaderDescription
management_header s address subtype = record {
  frame_control = u16 (subtype * 16);
  duration_id = 0;
  addresses_0 = address;
  addresses_1 = s.mac_address;
  addresses_2 = address;
  addresses_3 = mac_at [];
  sequence_control = s.tx_sequence_control;
}

-- `allocate` is the driver's operation, for a size in bytes.
unfoldable pub prepare_management_packet :
    (ℕ → Result TxBufferDescriptor) → Sender → MacAddress → ℕ → ℕ → Preparation
prepare_management_packet allocate s address subtype data_size =
    elim (allocate (u64 (24 + data_size))) [
      | err status ↦ failed status s []
      | ok d ↦ elim (allocate_space d data_size) [
        | none ↦ failed status_not_enough_space s (free_tx_buffer d ∷ [])
        | some d1 ↦
            let s1 = record s { tx_sequence_control = u16 (s.tx_sequence_control + 0x10) } in
            elim (serialize_header (management_header s address subtype) d1) [
              | err status ↦ failed status s1 (free_tx_buffer d1 ∷ [])
              | ok d2 ↦ prepared s1 d2 d1.current_offset
            ]
      ]
    ]

pub record SentManagement : Type 0 where
  pub sender : Sender
  pub status : ℕ
  pub calls : List DriverCall

-- The end of each of the functions that send: `write` stores the frame's body in the memory, at the
-- position it is given.
unfoldable pub transmit_management :
    (TxBufferDescriptor → ℕ) → (List ℕ → ℕ → List ℕ) → Preparation → SentManagement
transmit_management driver write (failed status s calls) = record {
  sender = s;
  status = status;
  calls = calls;
}
transmit_management driver write (prepared s d data_start) =
    let d1 = record d { buffer = write d.buffer data_start } in
    record { sender = s; status = driver d1; calls = transmit d1 none none ∷ [] }

pub record AuthData : Type 0 where
  pub address : MacAddress
  pub auth_algorithm : ℕ
  pub auth_transaction : ℕ
  pub status : ℕ

abbrev pub write_authentication : AuthData → List ℕ → ℕ → List ℕ
write_authentication auth_data buffer destination =
    let buffer1 = memcpy buffer destination (serialize_le16 auth_data.auth_algorithm) in
    let buffer2 = memcpy buffer1 (destination + 2) (serialize_le16 auth_data.auth_transaction) in
    memcpy buffer2 (destination + 4) (serialize_le16 auth_data.status)

unfoldable pub send_authentication :
    (ℕ → Result TxBufferDescriptor) → (TxBufferDescriptor → ℕ) → Sender → AuthData → SentManagement
send_authentication allocate driver s auth_data =
    transmit_management driver (write_authentication auth_data)
      (prepare_management_packet allocate s auth_data.address 11 6)

pub record DeauthenticationData : Type 0 where
  pub address : MacAddress
  pub reason : ℕ

unfoldable pub send_deauthentication :
    (ℕ → Result TxBufferDescriptor)
    → (TxBufferDescriptor → ℕ)
    → Sender
    → DeauthenticationData
    → SentManagement
send_deauthentication allocate driver s deauthentication_data =
    transmit_management driver
      (λ buffer destination.
        memcpy buffer destination (serialize_le16 deauthentication_data.reason))
      (prepare_management_packet allocate s deauthentication_data.address 12 2)

abbrev pub write_probe_request : Sender → ℕ → List ℕ → ℕ → List ℕ
write_probe_request s rate_count buffer destination =
    let buffer1 = memcpy buffer destination (0 ∷ 0 ∷ []) in
    memcpy buffer1 (destination + 2) (serialize_rate_information_elements s.rate_bitmap rate_count)

unfoldable pub send_probe_request :
    (ℕ → Result TxBufferDescriptor) → (TxBufferDescriptor → ℕ) → Sender → SentManagement
send_probe_request allocate driver s =
    let rate_count = count_rates s.rate_bitmap in
    transmit_management driver (write_probe_request s rate_count) (
      prepare_management_packet allocate s broadcast_address 4
        (2 + rate_information_elements_size rate_count))

-- The parts of the access point in the device that are used.
pub record RequestedAp : Type 0 where
  pub mac_address : MacAddress
  pub ssid : List ℕ

-- The loop that looks for the end of the name, with the number of characters that are left.
unfoldable pub ssid_size_from : ℕ → List ℕ → ℕ
ssid_size_from zero ssid = 0
ssid_size_from (suc left) [] = 0
ssid_size_from (suc left) (c ∷ ssid) =
    let rest = ssid_size_from left ssid in if c == 0 then 0 else suc rest

unfoldable pub ssid_size : RequestedAp → ℕ
ssid_size a = ssid_size_from 32 a.ssid

-- ASSOCIATION_CAPABILITIES and ASSOCIATION_LISTEN_INTERVAL.
abbrev pub association_capabilities : ℕ
association_capabilities = 0x421

abbrev pub write_association_request : Sender → RequestedAp → ℕ → List ℕ → List ℕ → ℕ → List ℕ
write_association_request s a rate_count information_elements buffer destination =
    let rates = serialize_rate_information_elements s.rate_bitmap rate_count in
    let buffer1 = memcpy buffer destination (serialize_le16 association_capabilities) in
    let buffer2 = memcpy buffer1 (destination + 2) (serialize_le16 10) in
    let buffer3 = memcpy buffer2 (destination + 4) (0 ∷ u8 (ssid_size a) ∷ []) in
    let buffer4 = memcpy buffer3 (destination + 6) (take (ssid_size a) a.ssid) in
    let buffer5 = memcpy buffer4 (destination + 6 + ssid_size a) rates in
    memcpy buffer5 (destination + 6 + ssid_size a + length rates) information_elements

unfoldable pub send_association_request :
    (ℕ → Result TxBufferDescriptor)
    → (TxBufferDescriptor → ℕ)
    → Sender
    → RequestedAp
    → List ℕ
    → SentManagement
send_association_request allocate driver s a information_elements =
    let rate_count = count_rates s.rate_bitmap in
    let generated_data_size = 4 + 2 + ssid_size a + rate_information_elements_size rate_count in
    transmit_management driver (write_association_request s a rate_count information_elements) (
      prepare_management_packet allocate s a.mac_address 0
        (u64 (generated_data_size + length information_elements)))
