-- ===== src/Transmit/Tkip.antt =====
-- A frame that src/packet_data.c protects with TKIP, as a receiver with the same key reads it.
use u.Common.{
  ℕ, ◌+◌, ◌≤◌, ◌<◌, ◌^◌, ◌≡◌, refl, sym, ap, ◌∙◌, subst, Bool, true, none, some, List, ◌++◌,
  if◌then◌else◌, length, drop, take, arith, status_success,
}
use u.Packet.{is_protected, HeaderDescription, TxBufferDescriptor, frame, mac_bytes}
use u.Key.{tkip, KeyMetadata, KeyDevice, sequence_size, increment_sequence, sequence_is_newer}
use u.Key.Table.{select_key, find_key_by_index}
use u.Key.Tx.{prepare_tkip_tx}
use u.Key.Rx.{accept}
use u.Association.{associated, Ap}
use u.Receive.{
  Station, deserialize_cipher_key_index, process_tkip_rx, dispatch, data_packet_addresses,
}
use u.Transmit.{
  TxBuffer, with_headroom, tkip_header, protect, transmit_prepared, transmit_buffer, hold, release,
}
use u.Transmit.Frame.{BufferIsValid, ethernet_frame, with_snap, counted}
use u.Transmit.RoundTrip.{
  sent_header, sent_payload, with_snap-sent_payload, dispatch-sent, received_by,
  transmit_buffer_start, Sent,
}
use u.Transmit.Ciphers.{process_tkip_rx-tkip_header}
use u.Transmit.Encrypted.{
  with_cipher_header, with_cipher_header-HasTailroom, with_cipher_header-frame,
  transmit_prepared-Sent,
}
use u.Transmit.Tailroom.{with_mic, with_mic-valid, with_mic-frame}
use u.Michael.Half.{michael_mic-length}
use u.Transmit.TkipKeys.{
  code_of, is_tkip_key, tkip_request, prepare_tkip_frame_lem, protect_and_transmit-tkip,
  validate_tkip_rx_lem, is_tkip_key-select, tkip_header-append, if_accepted, tkip_header-length,
}
use u.Transmit.Encrypted.{received_header}

-- What the driver gets.
transmit_buffer-Sent :
    (driver : TxBufferDescriptor → ℕ) (s : Station) (a : Ap) (b : TxBuffer) (u : HeaderDescription)
    (key : ℕ) (m : KeyMetadata) (sequence : List ℕ)
    → BufferIsValid b
    → b.current_offset + 14 ≤ b.size
    → s.association.ap ≡ some a
    → s.association.state ≡ associated
    → s.tx_sequence_control < 2 ^ 16
    → select_key s.keys (sent_header s a b) ≡ some key
    → key < 4
    → find_key_by_index s.keys (sent_header s a b) key ≡ some m
    → is_tkip_key m ≡ true
    → increment_sequence m.tx_sequence sequence_size ≡ some sequence
    → Sent (transmit_buffer driver s b) (some key) (some tkip) (protect (sent_header s a b)) u (
        tkip_header sequence key
        ++ (sent_payload b ++ code_of 16 m (sent_header s a b) (sent_payload b)))
transmit_buffer-Sent driver s a b u key m sequence v long ha hs fits e k found good next =
    let h = sent_header s a b in
    let s1 = release (counted (hold s a)) a in
    let d = with_snap (with_headroom b) in
    let (payload, w, moved) = with_snap-sent_payload b v long in
    let mic = code_of 16 m h (sent_payload b) in
    let d1 = with_cipher_header d (tkip_header sequence key) in
    let w1 =
      with_cipher_header-HasTailroom d w (omega arith) (tkip_header sequence key)
        (tkip_header-length sequence key) in
    let eight : length mic ≡ 8 =
      michael_mic-length (take 8 (drop 16 m.key)) (mac_bytes h.addresses_2)
        (mac_bytes h.addresses_1) 0 (sent_payload b) in
    let built : frame (with_mic d1 mic) ≡ tkip_header sequence key ++ (sent_payload b ++ mic) =
      with_mic-frame d1 w1 mic eight
      ∙ ap (λ q. q ++ mic)
          (with_cipher_header-frame d w (omega arith) (tkip_header sequence key)
              (tkip_header-length sequence key)
            ∙ ap (λ q. tkip_header sequence key ++ q) payload)
      ∙ tkip_header-append sequence key (sent_payload b) mic in
    let begun =
      transmit_buffer_start driver s a b v long ha hs
      ∙ protect_and_transmit-tkip driver s1 h d key e k
          (is_tkip_key-select s.keys h key m found good)
      ∙ ap (λ p. transmit_prepared driver s1 p key tkip)
          (prepare_tkip_frame_lem s.keys h key d m sequence (omega arith) found good next
            ∙ ap
                (λ q. record {
                  status = status_success;
                  header = protect h;
                  descriptor = with_mic d1 (code_of 16 m h q);
                  keys = (prepare_tkip_tx s.keys (tkip_request h key (frame d))).1;
                })
                payload) in
    let sent =
      transmit_prepared-Sent driver s a b u key tkip s1 (with_mic d1 mic)
        (prepare_tkip_tx s.keys (tkip_request h key (frame d))).1
        (tkip_header sequence key ++ (sent_payload b ++ mic)) fits (with_mic-valid d1 w1 mic eight)
        (omega arith) built in
    subst
      (λ t.
        Sent t (some key) (some tkip) (protect h) u
          (tkip_header sequence key ++ (sent_payload b ++ mic)))
      (sym begun) sent

-- For an associated device, a buffer with an Ethernet frame of fourteen bytes at least and a TKIP
-- key with an index below 4 whose packet number is not exhausted: the driver is called once, with
-- the key and its cipher; what it gets is parsed as the protected header, the TKIP header with the
-- key's next packet number, the LLC/SNAP header and payload, and eight bytes of code. The header
-- says that the frame is protected. In the body with four bytes of check value behind it a receiver
-- whose key has the sender's transmit half as its receive half finds the key index, and takes the
-- payload exactly when the packet number is newer than its own; and any station that the frame is
-- for hands the Ethernet frame that the caller had put in the buffer to its kernel, if it is not a
-- duplicate.
pub transmit_buffer-tkip :
    (driver : TxBufferDescriptor → ℕ) (s : Station) (a : Ap) (b : TxBuffer) (u : HeaderDescription)
    (key : ℕ) (m : KeyMetadata) (sequence icv : List ℕ) (peer : KeyDevice) (pm : KeyMetadata)
    → BufferIsValid b
    → b.current_offset + 14 ≤ b.size
    → s.association.ap ≡ some a
    → s.association.state ≡ associated
    → s.tx_sequence_control < 2 ^ 16
    → select_key s.keys (sent_header s a b) ≡ some key
    → key < 4
    → find_key_by_index s.keys (sent_header s a b) key ≡ some m
    → is_tkip_key m ≡ true
    → increment_sequence m.tx_sequence sequence_size ≡ some sequence
    → length sequence ≡ 6
    → length icv ≡ 4
    → find_key_by_index peer (received_header s a b u) key ≡ some pm
    → is_tkip_key pm ≡ true
    → take 8 (drop 24 pm.key) ≡ take 8 (drop 16 m.key)
    → let h = received_header s a b u in
      let mic = code_of 16 m h (sent_payload b) in
      let body = tkip_header sequence key ++ (sent_payload b ++ (mic ++ icv)) in
      Sent
        (transmit_buffer driver s b)
        (some key)
        (some tkip)
        (protect (sent_header s a b))
        u
        (tkip_header sequence key ++ (sent_payload b ++ mic))
      × (is_protected h.frame_control ≡ true)
      × (deserialize_cipher_key_index body ≡ some key)
      × (process_tkip_rx peer h key body ≡ (
          if sequence_is_newer sequence pm.rx_sequence sequence_size
          then (some (sent_payload b), (accept peer h key sequence).1)
          else (none, peer)))
      × ((p : Station)
          → (dispatch p h (sent_payload b)).received ≡ received_by p h (ethernet_frame b))
unfolding data_packet_addresses
transmit_buffer-tkip driver s a b u key m sequence icv peer pm v long ha hs fits e k found good next
      six four pfound pgood half =
    let h = received_header s a b u in
    let mic = code_of 16 m h (sent_payload b) in
    let (index, opened) =
      process_tkip_rx-tkip_header peer h key key sequence (sent_payload b) mic icv refl refl six
        (michael_mic-length (take 8 (drop 16 m.key)) (mac_bytes h.addresses_2)
          (mac_bytes h.addresses_1) 0 (sent_payload b))
        four k in
    (
      transmit_buffer-Sent driver s a b u key m sequence v long ha hs fits e k found good next,
      refl,
      index,
      opened
          ∙ ap
              (λ (checked : Bool × KeyDevice).
                if checked.0 then (some (sent_payload b), checked.1) else (none, checked.1))
              (validate_tkip_rx_lem peer h key m pm sequence (sent_payload b) pfound pgood half)
          ∙ if_accepted (sequence_is_newer sequence pm.rx_sequence sequence_size) _ _ _,
      λ p. dispatch-sent p s a b h v long refl refl,
    )
