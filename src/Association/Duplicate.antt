-- ===== src/Association/Duplicate.antt =====
-- `u80211_association_is_duplicate` of src/association.c, the filter of retransmitted frames.
use u.Common.{
  ℕ, ◌≡◌, ◌≢◌, refl, Bool, true, false, not, ◌&&◌, Option, none, some, List, [], ◌∷◌, ◌==◌,
  if◌then◌else◌, arith,
}
use u.Packet.{HeaderDescription, is_retry}
use u.Association.{DeviceState, state_equal, Device}
use u.Association.Handlers.{is_current_ap}

abbrev pub active_stream : Device → HeaderDescription → DeviceState → Bool
active_stream d header expected_state =
    state_equal d.state expected_state && is_current_ap d.ap header.addresses_1

unfoldable pub is_duplicate : Device → HeaderDescription → DeviceState → Bool × Device
is_duplicate d header expected_state =
    if active_stream d header expected_state
    then (let duplicate =
          is_retry header.frame_control
          && (d.received_sequence_control_valid
              && d.received_sequence_control == header.sequence_control) in
        if not duplicate
        then (
          duplicate,
          record d {
            received_sequence_control = header.sequence_control;
            received_sequence_control_valid = true;
          },
        )
        else (duplicate, d))
    else (false, d)

-- The frames that are left when a handler returns on each duplicate.
unfoldable pub deliver : Device → DeviceState → List HeaderDescription → List HeaderDescription
unfolding is_duplicate
deliver d expected_state [] = []
deliver d expected_state (header ∷ headers) =
    let (duplicate, d1) = is_duplicate d header expected_state in
    let rest = deliver d1 expected_state headers in if duplicate then rest else header ∷ rest

-- Every frame belongs to the stream from the device's access point.
abbrev pub AllActive : Device → DeviceState → List HeaderDescription → Type 0
AllActive d expected_state [] = Unit
AllActive d expected_state (header ∷ headers) =
    (active_stream d header expected_state ≡ true) × AllActive d expected_state headers

-- No frame is a retransmission of the one before it; the first is compared with `last`.
abbrev pub NoRepeat : Option ℕ → List HeaderDescription → Type 0
NoRepeat last [] = Unit
NoRepeat last (header ∷ headers) =
    (is_retry header.frame_control ≡ true → last ≢ some header.sequence_control)
    × NoRepeat (some header.sequence_control) headers

abbrev pub last_received : Device → Option ℕ
last_received d =
    if d.received_sequence_control_valid then some d.received_sequence_control else none

-- only the two fields of the filter change
remember-AllActive :
    (d : Device) (sequence : ℕ) (valid : Bool) (expected_state : DeviceState)
    (headers : List HeaderDescription)
    → AllActive d expected_state headers
    → AllActive
        (record d { received_sequence_control = sequence; received_sequence_control_valid = valid })
        expected_state
        headers
remember-AllActive d sequence valid expected_state [] h = tt
remember-AllActive d sequence valid expected_state (header ∷ headers) (h, hs) =
    (h, remember-AllActive d sequence valid expected_state headers hs)

-- Among the frames that are delivered from a stream none is a retransmission of the one that was
-- delivered just before it, where all frames belong to the stream.
pub deliver-NoRepeat :
    (d : Device) (expected_state : DeviceState) (headers : List HeaderDescription)
    → AllActive d expected_state headers
    → NoRepeat (last_received d) (deliver d expected_state headers)
unfolding deliver
deliver-NoRepeat d expected_state [] h = tt
deliver-NoRepeat d expected_state (header ∷ headers) (h, hs) =
    let kept = deliver-NoRepeat d expected_state headers hs in
    let next =
      deliver-NoRepeat
        (record d {
          received_sequence_control = header.sequence_control;
          received_sequence_control_valid = true;
        })
        expected_state headers
        (remember-AllActive d header.sequence_control true expected_state headers hs) in
    ground arith

abbrev pub NoneRetry : List HeaderDescription → Type 0
NoneRetry [] = Unit
NoneRetry (header ∷ headers) = (is_retry header.frame_control ≡ false) × NoneRetry headers

-- Frames that are not marked as retransmissions are all delivered, in their order, whatever
-- the sequence numbers, the stream and the state.
pub deliver-first_transmissions :
    (d : Device) (expected_state : DeviceState) (headers : List HeaderDescription)
    → NoneRetry headers
    → deliver d expected_state headers ≡ headers
unfolding deliver
deliver-first_transmissions d expected_state [] h = refl
deliver-first_transmissions d expected_state (header ∷ headers) (h, hs) =
    let kept = deliver-first_transmissions d expected_state headers hs in
    let next =
      deliver-first_transmissions
        (record d {
          received_sequence_control = header.sequence_control;
          received_sequence_control_valid = true;
        })
        expected_state headers hs in
    ground arith
