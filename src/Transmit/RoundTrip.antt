-- ===== src/Transmit/RoundTrip.antt =====
-- A frame that src/packet_data.c sends in the clear, as the receive path reads it.
use u.Common.{
  ℕ, suc, ◌+◌, ◌-◌, ◌≤◌, ◌<◌, ◌^◌, ◌≡◌, refl, sym, ap, ◌∙◌, true, false, not, Option, none, some,
  List, [], ◌∷◌, ◌++◌, length, length-drop, drop-drop, u64, ltb, byte_at, option_some, option_none,
  result_ok, if_false, Bool, ◌||◌, ◌&&◌, if◌then◌else◌, ◌==◌, ap₂, drop, ok, arith, subst,
}
use u.Packet.{
  get_type, type_management, type_data, HeaderDescription, HeaderIsValid, DescriptorIsValid,
  TxBufferDescriptor, mac_at, mac_bytes, frame,
}
use u.Packet.Header.{deserialize_header}
use u.Packet.RoundTrip.{is_supported, has_four_addresses, serialize_header-some}
use u.Key.{Cipher}
use u.Key.Table.{select_key}
use u.Association.{associated, state_equal, Ap}
use u.Association.Duplicate.{is_duplicate}
use u.Management.Dispatch.{process_management_packet}
use u.Receive.{
  dropped, Station, Outcome, data_packet_addresses, data_packet_for_device, process_data_packet,
  dispatch, process_packet,
}
use u.Transmit.{
  TxBuffer, with_headroom, transmit, Transmitted, header_to_ap, hold, release,
  serialize_and_transmit, protect_and_transmit, transmit_buffer,
}
use u.Transmit.Frame.{
  BufferIsValid, ethernet_frame, HasTailroom, HasTailroom-valid, with_headroom-HasTailroom,
  with_headroom-frame, snap_header, with_snap, with_snap-HasTailroom, counted,
  convert_and_transmit_lem, ethernet_frame_fields, with_snap-frame,
}

-- The header of the frame that the station sends for a buffer.
abbrev pub sent_header : Station → Ap → TxBuffer → HeaderDescription
sent_header s a b =
    let e = drop (b.data_start + b.current_offset) b.memory in
    header_to_ap a (mac_at (drop 6 e)) (mac_at e) s.tx_sequence_control

-- The LLC/SNAP header and the payload of an Ethernet frame in a buffer.
abbrev pub sent_payload : TxBuffer → List ℕ
sent_payload b =
    snap_header (drop (b.data_start + b.current_offset) b.memory) ++ drop 14 (ethernet_frame b)

-- the memory of the restored buffer from the offset on
same_memory :
    (b : TxBuffer)
    → BufferIsValid b
    → drop (with_headroom b).current_offset (with_headroom b).buffer
      ≡ drop (b.data_start + b.current_offset) b.memory
unfolding with_headroom
same_memory b v =
    drop-drop (u64 (b.current_offset + 64)) (b.data_start - 64) b.memory
    ∙ ap (λ k. drop k b.memory) (omega (arith, v.headroom))

eight_at_least : (rest x : List ℕ) → ltb (length (snap_header x ++ rest)) 8 ≡ false
eight_at_least rest x = ground arith

-- The receive path makes the Ethernet frame again from the LLC/SNAP header, the payload and a header
-- whose addresses are those of a frame to an access point.
pub process_data_packet-sent :
    (s : Station) (a : Ap) (b : TxBuffer) (h : HeaderDescription)
    → BufferIsValid b
    → b.current_offset + 14 ≤ b.size
    → data_packet_addresses h ≡ ((sent_header s a b).addresses_2, (sent_header s a b).addresses_1)
    → process_data_packet h (sent_payload b) ≡ some (ethernet_frame b)
unfolding process_data_packet
process_data_packet-sent s a b h v long e =
    let x = drop (b.data_start + b.current_offset) b.memory in
    let n = length-drop (b.data_start + b.current_offset) b.memory in
    if_false _ _ (eight_at_least (drop 14 (ethernet_frame b)) x)
    ∙ ap
        (λ q. some (
          mac_bytes q.0
          ++ mac_bytes q.1
          ++ (byte_at x 12 ∷ byte_at x 13 ∷ drop 14 (ethernet_frame b))))
        e
    ∙ ap some (ethernet_frame_fields (b.size - b.current_offset) x (omega arith) (omega (arith, n)))

-- What a station receives of a data frame with this header, as its kernel sees it: the Ethernet
-- frame, if the first address is for it and the frame does not repeat the last one.
abbrev pub received_by : Station → HeaderDescription → List ℕ → Option (List ℕ)
received_by p h ethernet =
    if data_packet_for_device p.keys.mac_address h
      && not (is_duplicate p.association h associated).0
    then some ethernet
    else none

module _ (m r p q : Outcome) (o : List ℕ) (nothing_r : r.received ≡ none)
    (nothing_p : p.received ≡ none) (something_q : q.received ≡ some o) where
  if_both :
      (x y : Bool)
      → (if not x then r else (if y then p else q)).received ≡ (if x && not y then some o else none)
  if_both true true = nothing_p
  if_both true false = something_q
  if_both false y = nothing_r

  by_type :
      (t : ℕ) (x y : Bool)
      → t ≡ type_data
      → (if t == type_management
          then m
          else (if not (t == type_data) || not x then r else (if y then p else q))).received
        ≡ (if x && not y then some o else none)
  by_type t x y e =
      subst
        (λ t.
          (if t == type_management
            then m
            else (if not (t == type_data) || not x then r else (if y then p else q))).received
          ≡ (if x && not y then some o else none))
        (sym e) (if_both x y)

-- The switch on the type of the frame hands the Ethernet frame to the kernel.
pub dispatch-sent :
    (p : Station) (s : Station) (a : Ap) (b : TxBuffer) (h : HeaderDescription)
    → BufferIsValid b
    → b.current_offset + 14 ≤ b.size
    → get_type h.frame_control ≡ type_data
    → data_packet_addresses h ≡ ((sent_header s a b).addresses_2, (sent_header s a b).addresses_1)
    → (dispatch p h (sent_payload b)).received ≡ received_by p h (ethernet_frame b)
unfolding dispatch
dispatch-sent p s a b h v long t e =
    let handled = process_management_packet p.association p.keys.mac_address h (sent_payload b) in
    let (duplicate, d1) = is_duplicate p.association h associated in
    let s1 = record p { association = d1 } in
    by_type
      (record {
        station = record p { association = handled.device };
        effects = handled.effects;
        beacon = handled.beacon;
        received = none;
      })
      (dropped p) (dropped s1)
      (record {
        station = s1;
        effects = [];
        beacon = none;
        received = process_data_packet h (sent_payload b);
      })
      (ethernet_frame b) refl refl (process_data_packet-sent s a b h v long e)
      (get_type h.frame_control) (data_packet_for_device p.keys.mac_address h) duplicate t

-- For a device that is associated the driver gets what the frame to protect is: the code up to
-- the selection of the key, with the access point's reference count as it was.
pub transmit_buffer_start :
    (driver : TxBufferDescriptor → ℕ) (s : Station) (a : Ap) (b : TxBuffer)
    → BufferIsValid b
    → b.current_offset + 14 ≤ b.size
    → s.association.ap ≡ some a
    → s.association.state ≡ associated
    → transmit_buffer driver s b
      ≡ protect_and_transmit driver
          (release (counted (hold s a)) a)
          (sent_header s a b)
          (with_snap (with_headroom b))
unfolding transmit_buffer
transmit_buffer_start driver s a b v long ha hs =
    let d = with_headroom b in
    let (_, moved, larger) = with_headroom-frame b v in
    option_some _ _ ha
    ∙ if_false _ _ (ap (λ st. not (state_equal st associated)) hs)
    ∙ convert_and_transmit_lem driver (hold s a) a d (with_headroom-HasTailroom b v) (omega arith)
    ∙ ap
        (λ e.
          protect_and_transmit driver (release (counted (hold s a)) a)
            (header_to_ap a (mac_at (drop 6 e)) (mac_at e) s.tx_sequence_control) (with_snap d))
        (same_memory b v)

-- What is to be sent behind the header, with the LLC/SNAP header in its place.
pub with_snap-sent_payload :
    (b : TxBuffer)
    → BufferIsValid b
    → b.current_offset + 14 ≤ b.size
    → (frame (with_snap (with_headroom b)) ≡ sent_payload b)
      × HasTailroom (with_snap (with_headroom b))
      × (64 ≤ (with_headroom b).current_offset)
with_snap-sent_payload b v long =
    let d = with_headroom b in
    let w = with_headroom-HasTailroom b v in
    let (same, moved, larger) = with_headroom-frame b v in
    (
      with_snap-frame d w (omega arith)
          ∙ ap₂ (λ x q. snap_header x ++ drop 14 q) (same_memory b v) same,
      with_snap-HasTailroom d w (omega arith),
      omega arith,
    )

-- What is left of a successful serialization: the driver's one call, and how the receive path reads
-- the frame that it gets.
pub record Sent (t : Transmitted) (key : Option ℕ) (cipher : Option Cipher)
    (h u : HeaderDescription) (body : List ℕ) : Type 0 where
  pub descriptor : TxBufferDescriptor
  pub calls_lem : t.calls ≡ transmit descriptor key cipher ∷ []
  pub parsed :
      deserialize_header (frame descriptor) u ≡ ok (record h { addresses_3 = u.addresses_3 }, body)

pub serialize_and_transmit-Sent :
    (driver : TxBufferDescriptor → ℕ) (s : Station) (h u : HeaderDescription)
    (d : TxBufferDescriptor) (key : Option ℕ) (cipher : Option Cipher)
    → HeaderIsValid h
    → DescriptorIsValid d
    → is_supported h ≡ true
    → has_four_addresses h ≡ false
    → 24 ≤ d.current_offset
    → Sent (serialize_and_transmit driver s h d key cipher) key cipher h u (frame d)
unfolding serialize_and_transmit
serialize_and_transmit-Sent driver s h u d key cipher v w supported three room =
    let (d1, built, parsed) = serialize_header-some h u d v w supported three room in
    record {
      descriptor = d1;
      calls_lem = ap (λ (t : Transmitted). t.calls) (result_ok _ _ built);
      parsed = parsed;
    }

-- A frame with the header of a frame in the clear is not taken for a protected one.
process_packet-sent :
    (p s : Station) (a : Ap) (b : TxBuffer) (u : HeaderDescription)
    → BufferIsValid b
    → b.current_offset + 14 ≤ b.size
    → (packet : List ℕ)
    → deserialize_header packet u
      ≡ ok (record (sent_header s a b) { addresses_3 = u.addresses_3 }, sent_payload b)
    → (process_packet p u packet).received
      ≡ received_by p
          (record (sent_header s a b) { addresses_3 = u.addresses_3 })
          (ethernet_frame b)
unfolding process_packet data_packet_addresses
process_packet-sent p s a b u v long packet e =
    let h = record (sent_header s a b) { addresses_3 = u.addresses_3 } in
    ap (λ (o : Outcome). o.received) (result_ok _ _ e)
    ∙ dispatch-sent (record p { packet_count = u64 (suc p.packet_count) }) s a b h v long refl refl

-- A frame that is sent without a key is one call of the driver. A station that receives what the
-- driver gets, whatever its state, hands the Ethernet frame that the caller had put in the buffer
-- to its kernel, byte for byte, if the frame is for it and is not a duplicate, and nothing
-- otherwise. For an associated device, a buffer with the headroom and the tailroom and an Ethernet
-- frame of fourteen bytes at least in it.
pub transmit_buffer-plain :
    (driver : TxBufferDescriptor → ℕ) (s : Station) (a : Ap) (b : TxBuffer) (u : HeaderDescription)
    → BufferIsValid b
    → b.current_offset + 14 ≤ b.size
    → s.association.ap ≡ some a
    → s.association.state ≡ associated
    → s.tx_sequence_control < 2 ^ 16
    → select_key s.keys (sent_header s a b) ≡ none
    → (sent : Sent (transmit_buffer driver s b) none none (sent_header s a b) u (sent_payload b))
      × ((p : Station)
          → (process_packet p u (frame sent.descriptor)).received
            ≡ received_by p
                (record (sent_header s a b) { addresses_3 = u.addresses_3 })
                (ethernet_frame b))
unfolding protect_and_transmit data_packet_addresses
transmit_buffer-plain driver s a b u v long ha hs fits no_key =
    let d = with_headroom b in
    let (body, w, moved) = with_snap-sent_payload b v long in
    let h = sent_header s a b in
    let s1 = release (counted (hold s a)) a in
    let begun = transmit_buffer_start driver s a b v long ha hs ∙ option_none _ _ no_key in
    let sent =
      serialize_and_transmit-Sent driver s1 h u (with_snap d) none none
        (record {
          frame_control_fits = omega arith;
          duration_id_fits = omega arith;
          sequence_control_fits = fits;
        })
        (HasTailroom-valid w) refl refl (omega arith) in
    let sent1 =
      subst (λ t. Sent t none none h u (sent_payload b)) (sym begun)
        (subst
          (λ q. Sent (serialize_and_transmit driver s1 h (with_snap d) none none) none none h u q)
          body sent) in
    (sent1, λ p. process_packet-sent p s a b u v long (frame sent1.descriptor) sent1.parsed)
