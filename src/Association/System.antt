-- ===== src/Association/System.antt =====
-- Every interleaving of the handlers of src/association.c: one event is one locked section, or one
-- stretch of code outside the lock, of a thread, an interrupt or a work item.
use u.Common.{ℕ, false, Option, List, [], ◌∷◌, if◌then◌else◌}
use u.Packet.{MacAddress}
use u.Association.{down, scanning, Ap, AssociationContext, Device, set_device_state}
use u.Association.Handlers.{
  process_deauthentication, process_disassociation, process_response, auth_timeout, assoc_timeout,
  process_authentication, cleanup_begin, cleanup_release, cleanup_finish, release_disconnected_ap,
  associate_begin, deauthenticate_begin, deauthenticate_finish, wait_begin,
}

-- Where the cleanup work stands: not running, or between its locked sections, before or after it has
-- released what it took. The kernel does not run a work item in two threads at once.
pub data CleanupWork : Type 0 where
  idle : CleanupWork
  taken : Option AssociationContext → Option Ap → CleanupWork
  released : Option AssociationContext → CleanupWork

pub record System : Type 0 where
  pub device : Device
  pub cleanup : CleanupWork

-- A timeout may fire with any context, also one that is no longer current, and the second half of a
-- deauthentication may come at any time. `scan_begin` and `scan_end` are the exchanges of
-- src/scan.c on the state that both share.
pub data Event : Type 0 where
  authentication : MacAddress → ℕ → ℕ → ℕ → Event
  response : MacAddress → ℕ → Event
  deauthentication : MacAddress → Event
  disassociation : MacAddress → Event
  authentication_timeout : ℕ → Event
  response_timeout : ℕ → Event
  associate : ℕ → Ap → List ℕ → Event
  release_disconnected : Event
  disassociate_begin : Event
  disassociate_end : Event
  wait : ℕ → Event
  cleanup_take : Event
  cleanup_free : Event
  cleanup_end : Event
  scan_begin : Event
  scan_end : Event

abbrev pub on_device : System → Device → System
on_device s d = record s { device = d }

-- The cleanup work starts when it was queued and is not running, which takes it off the queue.
unfoldable pub start_cleanup : System → CleanupWork → System
unfolding cleanup_begin
start_cleanup s idle =
    if s.device.cleanup_queued
    then (let (context, disconnected, d) = cleanup_begin s.device in
        record {
          device = record d { cleanup_queued = false };
          cleanup = taken context disconnected;
        })
    else s
start_cleanup s (taken context disconnected) = s
start_cleanup s (released context) = s

unfoldable pub continue_cleanup : System → CleanupWork → System
unfolding cleanup_release
continue_cleanup s (taken context disconnected) = record {
  device = cleanup_release s.device context disconnected;
  cleanup = released context;
}
continue_cleanup s idle = s
continue_cleanup s (released context) = s

unfoldable pub end_cleanup : System → CleanupWork → System
unfolding cleanup_finish
end_cleanup s (released context) = record {
  device = (cleanup_finish s.device context).0;
  cleanup = idle;
}
end_cleanup s idle = s
end_cleanup s (taken context disconnected) = s

unfoldable pub step : System → Event → System
step s (authentication address algorithm transaction status) =
    on_device s (process_authentication s.device address algorithm transaction status).0
step s (response address status) = on_device s (process_response s.device address status)
step s (deauthentication address) = on_device s (process_deauthentication s.device address)
step s (disassociation address) = on_device s (process_disassociation s.device address)
step s (authentication_timeout address) = on_device s (auth_timeout s.device address)
step s (response_timeout address) = on_device s (assoc_timeout s.device address)
step s (associate address a bytes) = on_device s (associate_begin s.device address a bytes).0
step s release_disconnected = on_device s (release_disconnected_ap s.device)
step s disassociate_begin = on_device s (deauthenticate_begin s.device).0
step s disassociate_end = on_device s (deauthenticate_finish s.device)
step s (wait semaphore) = on_device s (wait_begin s.device semaphore).0
step s cleanup_take = start_cleanup s s.cleanup
step s cleanup_free = continue_cleanup s s.cleanup
step s cleanup_end = end_cleanup s s.cleanup
step s scan_begin = on_device s (set_device_state s.device down scanning).1
step s scan_end = on_device s (set_device_state s.device scanning down).1

unfoldable pub run : System → List Event → System
run s [] = s
run s (e ∷ events) = run (step s e) events
