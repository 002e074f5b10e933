-- ===== src/Transmit/Encrypted.antt =====
-- A frame that src/packet_data.c protects, as the receive path reads it.
use u.Common.{
  true, ℕ, ◌+◌, ◌-◌, ◌≤◌, ◌<◌, ◌^◌, ◌≡◌, refl, sym, ap, ◌∙◌, subst, false, none, some, List, ◌++◌,
  if◌then◌else◌, ltb, length, length-memcpy, memcpy, arith, if_false, option_some, status_success,
}
use u.Packet.{
  is_protected, HeaderDescription, DescriptorIsValid, TxBufferDescriptor, allocate_space, frame,
}
use u.Packet.RoundTrip.{frame-memcpy}
use u.Key.{Cipher, ccmp, KeyDevice, sequence_size}
use u.Key.Table.{select_key, select_cipher_by_index}
use u.Key.Tx.{next_tx_sequence}
use u.Key.Rx.{update_rx_sequence}
use u.Association.{associated, Ap}
use u.Receive.{
  Station, deserialize_cipher_key_index, process_ccmp_rx, dispatch, data_packet_addresses,
}
use u.Transmit.{
  TxBuffer, with_headroom, ccmp_header, protect, prepare_ccmp_frame, transmit_prepared,
  protect_and_transmit, transmit_buffer, hold, release, serialize_and_transmit,
}
use u.Transmit.Frame.{
  BufferIsValid, ethernet_frame, HasTailroom, HasTailroom-valid, with_snap, counted,
}
use u.Transmit.RoundTrip.{
  sent_header, sent_payload, with_snap-sent_payload, dispatch-sent, received_by,
  transmit_buffer_start, Sent, serialize_and_transmit-Sent,
}
use u.Transmit.Ciphers.{process_ccmp_rx-ccmp_header}

-- The descriptor with the header of a cipher in front of the frame.
abbrev pub with_cipher_header : TxBufferDescriptor → List ℕ → TxBufferDescriptor
with_cipher_header d bytes = record d {
  buffer = memcpy d.buffer (d.current_offset - 8) bytes;
  current_offset = d.current_offset - 8;
}

module _ (d : TxBufferDescriptor) (v : HasTailroom d) (room : 8 ≤ d.current_offset) (bytes : List ℕ)
    (eight : length bytes ≡ 8) where
  pub with_cipher_header-HasTailroom : HasTailroom (with_cipher_header d bytes)
  with_cipher_header-HasTailroom =
      let n = length-memcpy d.buffer (d.current_offset - 8) bytes in ground arith

  pub with_cipher_header-frame : frame (with_cipher_header d bytes) ≡ bytes ++ frame d
  with_cipher_header-frame =
      ap (λ o. frame (record d { buffer = memcpy d.buffer o bytes; current_offset = o }))
        (omega arith)
      ∙ frame-memcpy d (HasTailroom-valid v) bytes (omega arith)

pub allocated :
    (d : TxBufferDescriptor)
    → 8 ≤ d.current_offset
    → allocate_space d 8 ≡ some (record d { current_offset = d.current_offset - 8 })
unfolding allocate_space
allocated d room = ground arith

ccmp_header-length : (sequence : List ℕ) (key : ℕ) → length (ccmp_header sequence key) ≡ 8
unfolding ccmp_header
ccmp_header-length sequence key = refl

prepare_ccmp_frame_lem :
    (keys : KeyDevice) (h : HeaderDescription) (key : ℕ) (d : TxBufferDescriptor)
    (sequence : List ℕ)
    → 8 ≤ d.current_offset
    → (next_tx_sequence keys h key ccmp sequence_size).0 ≡ some sequence
    → prepare_ccmp_frame keys h key d ≡ record {
      status = status_success;
      header = protect h;
      descriptor = with_cipher_header d (ccmp_header sequence key);
      keys = (next_tx_sequence keys h key ccmp sequence_size).1;
    }
unfolding prepare_ccmp_frame
prepare_ccmp_frame_lem keys h key d sequence room e =
    option_some _ _ (allocated d room) ∙ option_some _ _ e

-- the code up to the switch on the cipher
protect_and_transmit-ccmp :
    (driver : TxBufferDescriptor → ℕ) (s : Station) (h : HeaderDescription) (d : TxBufferDescriptor)
    (key : ℕ)
    → select_key s.keys h ≡ some key
    → key < 4
    → select_cipher_by_index s.keys h key ≡ some ccmp
    → protect_and_transmit driver s h d
      ≡ transmit_prepared driver s (prepare_ccmp_frame s.keys h key d) key ccmp
unfolding protect_and_transmit
protect_and_transmit-ccmp driver s h d key e k c =
    let low : ltb 3 key ≡ false = ground arith in option_some _ _ e ∙ if_false _ _ low ∙ rw c refl

-- A protected frame as the driver gets it, for either cipher.
module _ (driver : TxBufferDescriptor → ℕ) (s : Station) (a : Ap) (b : TxBuffer)
    (u : HeaderDescription) (key : ℕ) (cipher : Cipher) where
  abbrev pub protected_header : HeaderDescription
  protected_header = protect (sent_header s a b)

  pub transmit_prepared-Sent :
      (s1 : Station) (d : TxBufferDescriptor) (keys : KeyDevice) (body : List ℕ)
      → s.tx_sequence_control < 2 ^ 16
      → DescriptorIsValid d
      → 24 ≤ d.current_offset
      → frame d ≡ body
      → Sent
          (transmit_prepared driver s1
            (record {
              status = status_success;
              header = protected_header;
              descriptor = d;
              keys = keys;
            })
            key
            cipher)
          (some key)
          (some cipher)
          protected_header
          u
          body
  unfolding transmit_prepared
  transmit_prepared-Sent s1 d keys body fits v room e =
      subst
        (λ q.
          Sent
            (serialize_and_transmit driver (record s1 { keys = keys }) protected_header d (some key)
              (some cipher))
            (some key) (some cipher) protected_header u q)
        e
        (serialize_and_transmit-Sent driver (record s1 { keys = keys }) protected_header u d
          (some key) (some cipher)
          (record {
            frame_control_fits = omega arith;
            duration_id_fits = omega arith;
            sequence_control_fits = fits;
          })
          v refl refl room)

-- The header of a protected frame as a receiver fills its structure from it.
abbrev pub received_header : Station → Ap → TxBuffer → HeaderDescription → HeaderDescription
received_header s a b u = record (protect (sent_header s a b)) { addresses_3 = u.addresses_3 }

-- For an associated device, a buffer with an Ethernet frame of fourteen bytes at least and a CCMP
-- key with an index below 4 that hands out a packet number: the driver is called once, with the key
-- and its cipher, and what it gets is parsed as the protected header, the CCMP header with that
-- number, and the LLC/SNAP header and payload. The header says that the frame is protected. In the
-- body with eight bytes of code behind it a receiver finds the key index, checks that number, and
-- takes the payload if it accepts it; and any station that the frame is for hands the Ethernet
-- frame that the caller had put in the buffer to its kernel, if it is not a duplicate.
pub transmit_buffer-ccmp :
    (driver : TxBufferDescriptor → ℕ) (s : Station) (a : Ap) (b : TxBuffer) (u : HeaderDescription)
    (key : ℕ) (sequence code : List ℕ) (peer : KeyDevice)
    → BufferIsValid b
    → b.current_offset + 14 ≤ b.size
    → s.association.ap ≡ some a
    → s.association.state ≡ associated
    → s.tx_sequence_control < 2 ^ 16
    → select_key s.keys (sent_header s a b) ≡ some key
    → key < 4
    → select_cipher_by_index s.keys (sent_header s a b) key ≡ some ccmp
    → (next_tx_sequence s.keys (sent_header s a b) key ccmp sequence_size).0 ≡ some sequence
    → length sequence ≡ 6
    → length code ≡ 8
    → let h = received_header s a b u in
      let body = ccmp_header sequence key ++ (sent_payload b ++ code) in
      Sent
        (transmit_buffer driver s b)
        (some key)
        (some ccmp)
        (protect (sent_header s a b))
        u
        (ccmp_header sequence key ++ sent_payload b)
      × (is_protected h.frame_control ≡ true)
      × (deserialize_cipher_key_index body ≡ some key)
      × (process_ccmp_rx peer h key body ≡ (
          let (accepted, peer1) = update_rx_sequence peer h key ccmp sequence sequence_size in
          if accepted then (some (sent_payload b), peer1) else (none, peer1)))
      × ((p : Station)
          → (dispatch p h (sent_payload b)).received ≡ received_by p h (ethernet_frame b))
unfolding data_packet_addresses
transmit_buffer-ccmp driver s a b u key sequence code peer v long ha hs fits e k c next six eight =
    let h = sent_header s a b in
    let s1 = release (counted (hold s a)) a in
    let d0 = with_headroom b in
    let d = with_snap d0 in
    let (payload, w, moved) = with_snap-sent_payload b v long in
    let d1 = with_cipher_header d (ccmp_header sequence key) in
    let begun =
      transmit_buffer_start driver s a b v long ha hs
      ∙ protect_and_transmit-ccmp driver s1 h d key e k c
      ∙ ap (λ p. transmit_prepared driver s1 p key ccmp)
          (prepare_ccmp_frame_lem s.keys h key d sequence (omega arith) next) in
    let body : frame d1 ≡ ccmp_header sequence key ++ sent_payload b =
      with_cipher_header-frame d w (omega arith) (ccmp_header sequence key)
        (ccmp_header-length sequence key)
      ∙ ap (λ q. ccmp_header sequence key ++ q) payload in
    let sent =
      transmit_prepared-Sent driver s a b u key ccmp s1 d1
        (next_tx_sequence s.keys h key ccmp sequence_size).1
        (ccmp_header sequence key ++ sent_payload b) fits
        (HasTailroom-valid (
          with_cipher_header-HasTailroom d w (omega arith) (ccmp_header sequence key)
            (ccmp_header-length sequence key)))
        (omega arith) body in
    let (index, opened) =
      process_ccmp_rx-ccmp_header peer (received_header s a b u) key key sequence (sent_payload b)
        code six eight k in
    (
      subst
          (λ t.
            Sent t (some key) (some ccmp) (protect h) u
              (ccmp_header sequence key ++ sent_payload b))
          (sym begun) sent,
      refl,
      index,
      opened,
      λ p. dispatch-sent p s a b (received_header s a b u) v long refl refl,
    )
