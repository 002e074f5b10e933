-- ===== src/Tests/Transmit.antt =====
-- Frames to send at concrete values.
use u.Common.{
  deserialize_le16, live_after, Bool, true, false, ℕ, ◌≡◌, refl, false, if◌then◌else◌, none, some,
  List, [], ◌∷◌, ◌++◌, replicate, arith,
}
use u.Packet.{
  is_protected, frame, MacAddress, HeaderDescription, TxBufferDescriptor, mac_address_equal,
}
use u.Key.{
  Cipher, ccmp, tkip, KeyMetadata, sequence_size, increment_sequence, carry_end_from,
  sequence_is_newer,
}
use u.Key.Table.{
  find_first, index_matches, key_matches_header, find_key, find_key_by_index, select_key,
  select_cipher_by_index, update_first,
}
use u.Key.Rx.{update_rx_sequence, accept}
use u.Key.Tx.{next_tx_sequence}
use u.Association.{associated, Ap, Device}
use u.Receive.{
  Station, deserialize_cipher_key_index, process_ccmp_rx, process_tkip_rx, dispatch, process_packet,
}
use u.Transmit.{TxBuffer, transmit_buffer, ccmp_header, tkip_header, protect}
use u.Transmit.Frame.{BufferIsValid, ethernet_frame}
use u.Transmit.Bounds.{CallsAreValid, transmit_buffer-CallsAreValid}
use u.Transmit.RoundTrip.{received_by, sent_header, sent_payload, Sent, transmit_buffer-plain}
use u.Packet.Header.{deserialize_header}
use u.Transmit.Received.{process_packet-ccmp}
use u.Transmit.Encrypted.{received_header, transmit_buffer-ccmp}
use u.Transmit.TkipKeys.{code_of}
use u.Transmit.Once.{IsSettled, transmit_buffer-IsSettled}
use u.Registration.{
  Resource, association_cleanup_work, scan_spinlock, resource_code, register_device,
  unregister_device, is_ok, register_device-live,
}
use u.Transmit.Tkip.{transmit_buffer-tkip}

abbrev address : ℕ → MacAddress
address n = record { byte0 = 2; byte1 = 0; byte2 = 0; byte3 = 0; byte4 = 0; byte5 = n }

-- An Ethernet frame of sixteen bytes from station 2 to station 3, between the headroom and the
-- tailroom.
abbrev buffer : TxBuffer
buffer = record {
  memory =
      replicate 64 0
      ++ (2 ∷ 0 ∷ 0 ∷ 0 ∷ 0 ∷ 3 ∷ 2 ∷ 0 ∷ 0 ∷ 0 ∷ 0 ∷ 2 ∷ 8 ∷ 0 ∷ 69 ∷ 1 ∷ replicate 8 0);
  data_start = 64;
  size = 16;
  current_offset = 0;
}

buffer-IsValid : BufferIsValid buffer
buffer-IsValid = record {
  headroom = refl;
  tailroom = omega arith;
  offset_in = omega arith;
  memory_fits = omega arith;
}

abbrev ap_1 : Ap
ap_1 = record { address = 7; mac_address = address 1; channel = 6 }

abbrev connected : Device
connected = record {
  state = associated;
  association_context = none;
  association_cleanup_context = none;
  association_cleanup_pending = false;
  association_waiters = [];
  association_generation = 1;
  association_result = 0;
  ap = some ap_1;
  disconnected_ap = none;
  received_sequence_control = 0;
  received_sequence_control_valid = false;
  refcount = λ x. 1;
  cleanup_queued = false;
}

abbrev key_with : Cipher → ℕ → List ℕ → KeyMetadata
key_with cipher len bytes = record {
  cipher = cipher;
  index = 1;
  peer = address 1;
  flags = 13;
  rx_sequence = replicate 6 0;
  tx_sequence = replicate 6 0;
  key_len = len;
  key = bytes;
}

abbrev station : List KeyMetadata → Station
station keys = record {
  packet_count = 0;
  tx_sequence_control = 0;
  keys = record { mac_address = address 2; keys = keys };
  association = connected;
}

abbrev driver : TxBufferDescriptor → ℕ
driver d = 0

abbrev stack : HeaderDescription
stack = sent_header (station []) ap_1 buffer

transmit_buffer-CallsAreValid_example :
    CallsAreValid (transmit_buffer driver (station []) buffer).calls
transmit_buffer-CallsAreValid_example =
    transmit_buffer-CallsAreValid driver (station []) buffer buffer-IsValid

transmit_buffer-plain_example :
    (sent : Sent
      (transmit_buffer driver (station []) buffer)
      none
      none
      (sent_header (station []) ap_1 buffer)
      stack
      (sent_payload buffer))
    × ((p : Station)
        → (process_packet p stack (frame sent.descriptor)).received
          ≡ received_by p (sent_header (station []) ap_1 buffer) (ethernet_frame buffer))
unfolding select_key find_key find_first
transmit_buffer-plain_example =
    transmit_buffer-plain driver (station []) ap_1 buffer stack buffer-IsValid (omega arith) refl
      refl (omega arith) refl

abbrev ccmp_key : KeyMetadata
ccmp_key = key_with ccmp 16 (replicate 16 1)

abbrev ccmp_station : Station
ccmp_station = station (ccmp_key ∷ [])

abbrev first_number : List ℕ
first_number = 1 ∷ 0 ∷ 0 ∷ 0 ∷ 0 ∷ 0 ∷ []

transmit_buffer-ccmp_example :
    Sent
      (transmit_buffer driver ccmp_station buffer)
      (some 1)
      (some ccmp)
      (protect (sent_header ccmp_station ap_1 buffer))
      stack
      (ccmp_header first_number 1 ++ sent_payload buffer)
    × (is_protected (received_header ccmp_station ap_1 buffer stack).frame_control ≡ true)
    × (deserialize_cipher_key_index
          (ccmp_header first_number 1 ++ (sent_payload buffer ++ replicate 8 0))
        ≡ some 1)
    × (process_ccmp_rx ccmp_station.keys
          (received_header ccmp_station ap_1 buffer stack)
          1
          (ccmp_header first_number 1 ++ (sent_payload buffer ++ replicate 8 0))
        ≡ (let (accepted, peer1) =
              update_rx_sequence ccmp_station.keys
                (received_header ccmp_station ap_1 buffer stack)
                1
                ccmp
                first_number
                sequence_size in
            if accepted then (some (sent_payload buffer), peer1) else (none, peer1)))
    × ((p : Station)
        → (dispatch p
            (received_header ccmp_station ap_1 buffer stack)
            (sent_payload buffer)).received
          ≡ received_by p (received_header ccmp_station ap_1 buffer stack) (ethernet_frame buffer))
unfolding select_key select_cipher_by_index find_key find_key_by_index find_first index_matches
    key_matches_header next_tx_sequence increment_sequence carry_end_from update_first
    mac_address_equal
transmit_buffer-ccmp_example =
    transmit_buffer-ccmp driver ccmp_station ap_1 buffer stack 1 first_number (replicate 8 0)
      ccmp_station.keys buffer-IsValid (omega arith) refl refl (omega arith) refl (omega arith) refl
      refl refl refl

-- The frame of the station with the code that the hardware puts behind it.
abbrev ccmp_packet : List ℕ
ccmp_packet =
    (0x08 ∷ 0x41 ∷ 0 ∷ 0 ∷ 2 ∷ 0 ∷ 0 ∷ 0 ∷ 0 ∷ 1 ∷ 2 ∷ 0 ∷ 0 ∷ 0 ∷ 0 ∷ 2 ∷ 2 ∷ 0 ∷ 0 ∷ 0 ∷ 0 ∷ 3 ∷ 0
      ∷ 0 ∷ [])
    ++ (ccmp_header first_number 1 ++ (sent_payload buffer ++ replicate 8 0))

process_packet-ccmp_example : (process_packet ccmp_station stack ccmp_packet).received ≡ (
    let (accepted, keys1) =
      update_rx_sequence ccmp_station.keys
        (received_header ccmp_station ap_1 buffer stack)
        1
        ccmp
        first_number
        sequence_size in
    if accepted
    then received_by
        (record ccmp_station { keys = keys1 })
        (received_header ccmp_station ap_1 buffer stack)
        (ethernet_frame buffer)
    else none)
unfolding deserialize_header deserialize_le16 select_cipher_by_index find_key_by_index find_first
    index_matches key_matches_header mac_address_equal ccmp_header
process_packet-ccmp_example =
    process_packet-ccmp ccmp_station ccmp_station ap_1 buffer stack 1 first_number (replicate 8 0)
      ccmp_packet buffer-IsValid (omega arith) (omega arith) refl refl refl refl

-- The receive half repeats the transmit half.
abbrev tkip_key : KeyMetadata
tkip_key = key_with tkip 32 (replicate 32 1)

abbrev tkip_station : Station
tkip_station = station (tkip_key ∷ [])

abbrev tkip_sent : List ℕ
tkip_sent =
    code_of 16 tkip_key (received_header tkip_station ap_1 buffer stack) (sent_payload buffer)

transmit_buffer-tkip_example :
    Sent
      (transmit_buffer driver tkip_station buffer)
      (some 1)
      (some tkip)
      (protect (sent_header tkip_station ap_1 buffer))
      stack
      (tkip_header first_number 1 ++ (sent_payload buffer ++ tkip_sent))
    × (is_protected (received_header tkip_station ap_1 buffer stack).frame_control ≡ true)
    × (deserialize_cipher_key_index
          (tkip_header first_number 1 ++ (sent_payload buffer ++ (tkip_sent ++ replicate 4 0)))
        ≡ some 1)
    × (process_tkip_rx tkip_station.keys
          (received_header tkip_station ap_1 buffer stack)
          1
          (tkip_header first_number 1 ++ (sent_payload buffer ++ (tkip_sent ++ replicate 4 0)))
        ≡ (if sequence_is_newer first_number (replicate 6 0) sequence_size
            then (
              some (sent_payload buffer),
              (accept tkip_station.keys
                  (received_header tkip_station ap_1 buffer stack)
                  1
                  first_number).1,
            )
            else (none, tkip_station.keys)))
    × ((p : Station)
        → (dispatch p
            (received_header tkip_station ap_1 buffer stack)
            (sent_payload buffer)).received
          ≡ received_by p (received_header tkip_station ap_1 buffer stack) (ethernet_frame buffer))
unfolding select_key find_key find_key_by_index find_first index_matches key_matches_header
    increment_sequence carry_end_from mac_address_equal
transmit_buffer-tkip_example =
    transmit_buffer-tkip driver tkip_station ap_1 buffer stack 1 tkip_key first_number
      (replicate 4 0) tkip_station.keys tkip_key buffer-IsValid (omega arith) refl refl
      (omega arith) refl (omega arith) refl refl refl refl refl refl refl refl

transmit_buffer-IsSettled_example :
    IsSettled driver
      (transmit_buffer driver ccmp_station buffer).calls
      (transmit_buffer driver ccmp_station buffer).status
    × ((x : ℕ)
        → (transmit_buffer driver ccmp_station buffer).station.association.refcount x
          ≡ ccmp_station.association.refcount x)
transmit_buffer-IsSettled_example = transmit_buffer-IsSettled driver ccmp_station buffer

-- The kernel is out of memory for the association's cleanup work.
abbrev available : Resource → Bool
available association_cleanup_work = false
available _ = true

register_device-live_example :
    let (result, calls) = register_device available (λ x. 0) (address 2) in
    (live_after resource_code scan_spinlock false calls ≡ some (is_ok result))
    × (live_after resource_code scan_spinlock
          (is_ok result)
          (if is_ok result then (unregister_device ccmp_station).calls else [])
        ≡ some false)
register_device-live_example =
    register_device-live available (λ x. 0) (address 2) ccmp_station scan_spinlock
