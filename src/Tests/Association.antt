-- ===== src/Tests/Association.antt =====
-- Scenarios of the association state machine, and its theorems at concrete inputs.
use u.Common.{ℕ, ◌+◌, ◌≤◌, ◌≡◌, refl, ◌⊎◌, Bool, true, false, some, List, [], ◌∷◌}
use u.Packet.{MacAddress, HeaderDescription, mac_address_equal}
use u.Association.{
  authenticating, associated, Ap, AssociationContext, enqueue_completion, null_dereference,
}
use u.Association.Handlers.{
  process_response, associate_begin, process_authentication, process_deauthentication,
  auth_completion_work,
}
use u.Association.System.{System, Event, step, run}
use u.Association.Invariant.{Inv, registered, run-Inv}
use u.Association.Refs.{owned, run-IsCounted}
use u.Association.Cleanup.{IsClean, cleanup_to_end, run-IsClean}
use u.Association.Diagram.{edge, step-edge}
use u.Association.Faults.{auth_completion_work_fault}
use u.Association.Duplicate.{deliver, NoRepeat, last_received, deliver-NoRepeat}
use u.Association.Allocation.{Resource, associate, live_after, associate-live}

abbrev address : MacAddress
address = record { byte0 = 2; byte1 = 0; byte2 = 0; byte3 = 0; byte4 = 0; byte5 = 1 }

abbrev home : Ap
home = record { address = 7; mac_address = address; channel = 6 }

abbrev no_counts : ℕ → ℕ
no_counts x = 1

abbrev attempt : List Event
attempt = Event.associate 40 home (48 ∷ []) ∷ []

abbrev joining : List Event
joining = Event.associate 40 home (48 ∷ []) ∷ Event.authentication address 0 2 0 ∷ []

abbrev joined : List Event
joined =
    Event.associate 40 home (48 ∷ [])
    ∷ Event.authentication address 0 2 0
    ∷ Event.response address 0
    ∷ []

abbrev trying : System
trying = run (registered no_counts) attempt

joined_state : (run (registered no_counts) joined).device.state ≡ associated
unfolding run step process_response process_authentication associate_begin registered
    mac_address_equal
joined_state = refl

run-Inv_example : Inv (run (registered no_counts) joined)
run-Inv_example = run-Inv no_counts joined

run-IsCounted_example :
    1 + owned (run (registered no_counts) joined) 7
    ≤ (run (registered no_counts) joined).device.refcount 7
run-IsCounted_example = run-IsCounted no_counts joined 7

run-IsClean_example : IsClean (run (run (registered no_counts) joined) cleanup_to_end)
run-IsClean_example = run-IsClean (run (registered no_counts) joined) (run-Inv no_counts joined)

step-edge_example :
    ((step trying (Event.authentication address 0 2 0)).device.state ≡ trying.device.state)
    ⊎ (edge trying.device.ap
          (Event.authentication address 0 2 0)
          trying.device.state
          (step trying (Event.authentication address 0 2 0)).device.state
        ≡ true)
step-edge_example =
    step-edge trying (Event.authentication address 0 2 0) (run-Inv no_counts attempt)

abbrev context_made : AssociationContext
context_made = record { address = 40; generation = 0; ap = home; information_elements = 48 ∷ [] }

trying_state : trying.device.state ≡ authenticating
unfolding run step associate_begin registered
trying_state = refl

trying_ap : trying.device.ap ≡ some home
unfolding run step associate_begin registered
trying_ap = refl

trying_context : trying.device.association_context ≡ some context_made
unfolding run step associate_begin registered
trying_context = refl

auth_completion_work_fault_example :
    let (d, effects) = process_authentication trying.device address 0 2 0 in
    (effects ≡ enqueue_completion context_made ∷ [])
    × (auth_completion_work (process_deauthentication d address) context_made
        ≡ null_dereference ∷ [])
auth_completion_work_fault_example =
    auth_completion_work_fault trying home context_made (run-Inv no_counts attempt) trying_state
      trying_ap trying_context

-- A frame of the access point, with a sequence number, and its retransmission.
abbrev sent : ℕ → HeaderDescription
sent number = record {
  frame_control = 0;
  duration_id = 0;
  addresses_0 = address;
  addresses_1 = address;
  addresses_2 = address;
  addresses_3 = address;
  sequence_control = number;
}

abbrev sent_again : ℕ → HeaderDescription
sent_again number = record (sent number) { frame_control = 2048 }

abbrev frames : List HeaderDescription
frames = sent 16 ∷ sent_again 16 ∷ sent 32 ∷ sent_again 48 ∷ []

deliver_run : deliver trying.device authenticating frames ≡ sent 16 ∷ sent 32 ∷ sent_again 48 ∷ []
unfolding deliver run step associate_begin registered mac_address_equal
deliver_run = refl

deliver-NoRepeat_example :
    NoRepeat (last_received trying.device) (deliver trying.device authenticating frames)
unfolding run step associate_begin registered mac_address_equal
deliver-NoRepeat_example =
    deliver-NoRepeat trying.device authenticating frames (refl, (refl, (refl, (refl, tt))))

-- Memory for everything but the last timer.
abbrev short : Resource → Bool
short Resource.assoc_timeout_timer = false
short _ = true

associate-live_example :
    let (status, d1, calls) = associate short (registered no_counts).device 40 home (48 ∷ []) in
    live_after Resource.context false calls ≡ some false
unfolding associate
associate-live_example =
    associate-live short (registered no_counts).device 40 home (48 ∷ []) Resource.context
