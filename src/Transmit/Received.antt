-- ===== src/Transmit/Received.antt =====
-- A frame that src/packet_data.c protects with CCMP, through the whole receive path of src/packet.c.
use u.Common.{
  ℕ, suc, ◌+◌, ◌≤◌, ◌<◌, ◌≡◌, refl, ap, ◌∙◌, Bool, true, false, none, some, Option, List, ◌++◌,
  if◌then◌else◌, length, u64, ok, option_some, result_ok,
}
use u.Packet.{HeaderDescription}
use u.Packet.Header.{deserialize_header}
use u.Key.{ccmp, KeyDevice, sequence_size}
use u.Key.Table.{select_cipher_by_index}
use u.Key.Rx.{update_rx_sequence}
use u.Association.{Ap}
use u.Receive.{
  Station, Outcome, dropped, dispatch, remove_protection, process_packet, process_ccmp_rx,
  data_packet_addresses,
}
use u.Transmit.{TxBuffer, ccmp_header}
use u.Transmit.Frame.{BufferIsValid, ethernet_frame}
use u.Transmit.RoundTrip.{sent_payload, received_by, dispatch-sent}
use u.Transmit.Encrypted.{received_header}
use u.Transmit.Ciphers.{process_ccmp_rx-ccmp_header}

abbrev if_opened : Station → HeaderDescription → Option (List ℕ) × KeyDevice → Outcome
if_opened p h out =
    let p1 = record p { keys = out.1 } in
    elim out.0 [ none ↦ dropped p1 | some rest ↦ dispatch p1 h rest ]

-- what the replay check decides
if_opened-sent :
    (p s : Station) (a : Ap) (b : TxBuffer) (u : HeaderDescription) (checked : Bool × KeyDevice)
    → BufferIsValid b
    → b.current_offset + 14 ≤ b.size
    → let h = received_header s a b u in
      (if_opened p h
        (if checked.0 then (some (sent_payload b), checked.1) else (none, checked.1))).received
      ≡ (if checked.0
          then received_by (record p { keys = checked.1 }) h (ethernet_frame b)
          else none)
unfolding data_packet_addresses
if_opened-sent p s a b u (true, keys1) v long =
    dispatch-sent (record p { keys = keys1 }) s a b (received_header s a b u) v long refl refl
if_opened-sent p s a b u (false, keys1) v long = refl

-- A packet that is parsed as the protected header of a frame to an access point, the CCMP header
-- with a packet number, the LLC/SNAP header and payload of a buffer, and eight bytes of code, comes
-- through the whole receive path of a station with a CCMP key at the index: if the replay check
-- accepts the packet number, the station hands the Ethernet frame of the buffer to its kernel, if
-- the frame is for it and is not a duplicate; and otherwise the kernel gets nothing.
pub process_packet-ccmp :
    (p s : Station) (a : Ap) (b : TxBuffer) (u : HeaderDescription) (key : ℕ)
    (sequence code packet : List ℕ)
    → BufferIsValid b
    → b.current_offset + 14 ≤ b.size
    → key < 4
    → length sequence ≡ 6
    → length code ≡ 8
    → deserialize_header packet u
      ≡ ok (received_header s a b u, ccmp_header sequence key ++ (sent_payload b ++ code))
    → select_cipher_by_index p.keys (received_header s a b u) key ≡ some ccmp
    → let h = received_header s a b u in
      (process_packet p u packet).received ≡ (
        let (accepted, keys1) = update_rx_sequence p.keys h key ccmp sequence sequence_size in
        if accepted then received_by (record p { keys = keys1 }) h (ethernet_frame b) else none)
unfolding process_packet remove_protection
process_packet-ccmp p s a b u key sequence code packet v long k six eight e c =
    let h = received_header s a b u in
    let p0 = record p { packet_count = u64 (suc p.packet_count) } in
    let body = ccmp_header sequence key ++ (sent_payload b ++ code) in
    let (index, opened) =
      process_ccmp_rx-ccmp_header p.keys h key key sequence (sent_payload b) code six eight k in
    let removed : remove_protection p.keys h body ≡ process_ccmp_rx p.keys h key body =
      option_some _ _ index ∙ option_some _ _ c in
    ap (λ (o : Outcome). o.received) (result_ok _ _ e ∙ ap (if_opened p0 h) (removed ∙ opened))
    ∙ if_opened-sent p0 s a b u (update_rx_sequence p.keys h key ccmp sequence sequence_size) v long
