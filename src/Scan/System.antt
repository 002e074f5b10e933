-- ===== src/Scan/System.antt =====
-- The calls, the work items and the responses of a scan of src/scan.c, each one whole, in any order.
use u.Common.{
  ℕ, Bool, true, false, not, ◌||◌, Option, none, some, List, [], ◌∷◌, ◌++◌, if◌then◌else◌,
}
use u.Management.Dispatch.{BeaconData}
use u.Association.{DeviceState, down, scanning, state_equal}
use u.Scan.Session.{process_response}
use u.Scan.Run.{
  ScanDevice, Resource, ScanEffect, scan, scan_work, cleanup_scan, wait_begin, signal,
  enqueue_scan_work, enqueue_cleanup,
}

-- The device with the work items that are queued, the semaphores that were signalled and those that
-- a caller has come to wait on, both in their order.
pub record System : Type 0 where
  pub device : ScanDevice
  pub work_queued : Bool
  pub cleanup_queued : Bool
  pub woken : List ℕ
  pub accepted : List ℕ

-- `other` stands for a change of the shared state by the association code, which neither starts nor
-- ends a scan.
pub data Event : Type 0 where
  scan_called : (Resource → Bool) → List ℕ → Event
  response : List ℕ → BeaconData → Event
  work_runs cleanup_runs : Event
  wait_called : Option ℕ → Event
  other : DeviceState → Event

abbrev pub signalled : List ScanEffect → List ℕ
signalled [] = []
signalled (signal semaphore ∷ effects) = semaphore ∷ signalled effects
signalled (_ ∷ effects) = signalled effects

abbrev pub accepted_wait : Option ℕ → Option ℕ → List ℕ
accepted_wait (some semaphore) none = semaphore ∷ []
accepted_wait _ _ = []

-- What the kernel makes of the requests to queue a work item.
abbrev pub enqueues_work : List ScanEffect → Bool
enqueues_work [] = false
enqueues_work (enqueue_scan_work ∷ effects) = true
enqueues_work (_ ∷ effects) = enqueues_work effects

abbrev pub enqueues_cleanup : List ScanEffect → Bool
enqueues_cleanup [] = false
enqueues_cleanup (enqueue_cleanup ∷ effects) = true
enqueues_cleanup (_ ∷ effects) = enqueues_cleanup effects

-- A work item runs only if it is queued, and is queued when the code asks for it. The locked sections
-- of a call of `u80211_scan` are one step, and so are those of a run of `scan_work` with the loop
-- between them; what happens between two sections is not modelled.
unfoldable pub step : System → Event → System
step s (scan_called available contents) =
    let started = scan available contents s.device in
    record s {
      device = started.device;
      work_queued = s.work_queued || enqueues_work started.effects;
    }
step s (response filler b) = record s {
  device = record s.device { scan_context = process_response s.device.scan_context filler b };
}
step s work_runs = if not s.work_queued then s else elim s.device.scan_context [
  | none ↦ record s { work_queued = false }
  | some state ↦
      let (d1, effects) = scan_work s.device state in
      record s {
        device = d1;
        work_queued = enqueues_work effects;
        cleanup_queued = s.cleanup_queued || enqueues_cleanup effects;
      }
]
step s cleanup_runs =
    if not s.cleanup_queued
    then s
    else (let (d1, calls, effects) = cleanup_scan s.device in
        record s { device = d1; cleanup_queued = false; woken = s.woken ++ signalled effects })
step s (wait_called semaphore) =
    let (d1, status) = wait_begin s.device semaphore in
    record s { device = d1; accepted = s.accepted ++ accepted_wait semaphore status }
step s (other state) =
    if state_equal s.device.state scanning
    then s
    else (if state_equal state scanning
        then s
        else record s { device = record s.device { state = state } })

unfoldable pub run : System → List Event → System
run s [] = s
run s (e ∷ events) = run (step s e) events

unfoldable pub idle : System
idle = record {
  device = record { state = down; scan_context = none; scan_waiters = [] };
  work_queued = false;
  cleanup_queued = false;
  woken = [];
  accepted = [];
}
