-- ===== src/Association/Diagram.antt =====
-- The transitions of the device state of src/association.c and src/scan.c, with what causes them.
use u.Common.{◌≡◌, ◌⊎◌, Bool, true, false, ◌&&◌, ◌||◌, Option, ◌==◌, if◌then◌else◌, arith}
use u.Association.{
  DeviceState, down, scanning, authenticating, associating, associated, deauthenticating,
  state_equal, Ap, set_device_state,
}
use u.Association.Handlers.{
  is_current_ap, process_deauthentication, process_disassociation, process_response, auth_timeout,
  assoc_timeout, process_authentication, cleanup_release, cleanup_finish, release_disconnected_ap,
  associate_begin, deauthenticate_begin, deauthenticate_finish, wait_begin,
}
use u.Association.System.{System, Event, start_cleanup, continue_cleanup, end_cleanup, step}
use u.Association.Invariant.{Inv}

abbrev pub moves : DeviceState → DeviceState → DeviceState → DeviceState → Bool
moves before after old_state new_state = state_equal before old_state && state_equal after new_state

-- The diagram: may the event take a device with this access point from one state to another?
abbrev pub edge : Option Ap → Event → DeviceState → DeviceState → Bool
edge ap (Event.authentication m algorithm transaction status) x y =
    (is_current_ap ap m && (algorithm == 0 && transaction == 2))
    && moves x y authenticating (if status == 0 then associating else down)
edge ap (Event.response m status) x y =
    is_current_ap ap m && moves x y associating (if status == 0 then associated else down)
edge ap (Event.deauthentication m) x y =
    is_current_ap ap m
    && (moves x y authenticating down || (moves x y associating down || moves x y associated down))
edge ap (Event.disassociation m) x y = is_current_ap ap m && moves x y associated down
edge ap (Event.authentication_timeout address) x y = moves x y authenticating down
edge ap (Event.response_timeout address) x y = moves x y associating down
edge ap (Event.associate address a bytes) x y = moves x y down authenticating
edge ap Event.release_disconnected x y = false
edge ap Event.disassociate_begin x y = moves x y associated deauthenticating
edge ap Event.disassociate_end x y = moves x y deauthenticating down
edge ap (Event.wait semaphore) x y = false
edge ap Event.cleanup_take x y = false
edge ap Event.cleanup_free x y = false
edge ap Event.cleanup_end x y = false
edge ap Event.scan_begin x y = moves x y down scanning
edge ap Event.scan_end x y = moves x y scanning down

-- In a state that satisfies the invariant, each step keeps the device state or moves it along an
-- edge of the diagram, and a frame that moves it comes from the device's access point.
pub step-edge :
    (s : System) (e : Event)
    → Inv s
    → ((step s e).device.state ≡ s.device.state)
      ⊎ (edge s.device.ap e s.device.state (step s e).device.state ≡ true)
unfolding step process_authentication process_response process_deauthentication
    process_disassociation auth_timeout assoc_timeout associate_begin release_disconnected_ap
    deauthenticate_begin deauthenticate_finish wait_begin start_cleanup continue_cleanup end_cleanup
    set_device_state cleanup_release cleanup_finish
step-edge s e v = ground arith
