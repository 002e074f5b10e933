-- ===== src/Tests/Session.antt =====
-- Scans at concrete values.
use u.Common.{
  if_true, not, ltb, length, ◌+◌, ℕ, ◌≤◌, ◌≡◌, refl, ap, ◌∙◌, subst, Bool, true, false, none, some,
  List, [], ◌∷◌, length-replicate, replicate, arith,
}
use u.Management.Dispatch.{BeaconData}
use u.Association.{scanning, down, authenticating}
use u.Ringbuffer.{Ringbuffer, init}
use u.Ringbuffer.Refine.{IsValid, queue, init-IsValid}
use u.Scan.Session.{ScanState, process_response, take_records}
use u.Scan.Records.{BeaconFits}
use u.Scan.Queue.{StoredRecord, AllStored, records_bytes, read_all}
use u.Scan.Rounds.{take_records-record_rounds}
use u.Scan.Arrivals.{heard_on, stored_after, process_response_refines}
use u.Scan.Run.{record_rounds, buffer_size, ScanDevice, Resource, scan_timer}
use u.Scan.Ends.{works, works-cleanup}
use u.Scan.System.{
  System, step, Event, scan_called, work_runs, cleanup_runs, wait_called, other, run, idle,
}
use u.Scan.Waiters.{IsServed, run-IsServed}

-- An empty ring of a thousand bytes.
ring : Ringbuffer
ring = (init 1000 (some (replicate 1000 0))).1

ring-IsValid : IsValid ring × (queue ring ≡ [])
unfolding ring
ring-IsValid =
    let (status, valid, empty) =
      init-IsValid 1000 (replicate 1000 0) (omega arith) (omega arith)
        (length-replicate {A = ℕ} 1000 0) in
    (valid, empty)

abbrev listening : ScanState
listening = record { buffer = ring; receiving = true; current_channel = 6 }

abbrev beacon : BeaconData
beacon = record {
  mac_address = record { byte0 = 2; byte1 = 0; byte2 = 0; byte3 = 0; byte4 = 0; byte5 = 1 };
  interval = 100;
  capabilities = 1;
  elements = record {
    rate_bitmap = replicate 16 0;
    ssid = replicate 33 0;
    channel = 0;
    rsn = none;
  };
}

beacon-BeaconFits : BeaconFits beacon
beacon-BeaconFits = record {
  interval_fits = omega arith;
  capabilities_fit = omega arith;
  rate_bitmap_size = refl;
  ssid_size = refl;
}

abbrev stored : List StoredRecord
stored = record { filler = replicate 12 0; beacon = heard_on 6 beacon } ∷ []

one_stored :
    (s1 : ScanState) × (process_response (some listening) (replicate 12 0) beacon ≡ some s1)
    × IsValid s1.buffer
    × AllStored (stored_after listening (replicate 12 0) beacon [])
    × (queue s1.buffer ≡ records_bytes (stored_after listening (replicate 12 0) beacon []))
    × (s1.buffer.size ≡ ring.size)
unfolding ring init
one_stored =
    process_response_refines listening (replicate 12 0) beacon [] ring-IsValid.0 tt ring-IsValid.1
      refl beacon-BeaconFits (omega arith)

process_response_refines_example :
    (s1 : ScanState) × (process_response (some listening) (replicate 12 0) beacon ≡ some s1)
    × IsValid s1.buffer
    × AllStored (stored_after listening (replicate 12 0) beacon [])
    × (queue s1.buffer ≡ records_bytes (stored_after listening (replicate 12 0) beacon []))
    × (s1.buffer.size ≡ ring.size)
unfolding ring init
process_response_refines_example =
    process_response_refines listening (replicate 12 0) beacon [] ring-IsValid.0 tt ring-IsValid.1
      refl beacon-BeaconFits (omega arith)

record_is_stored : stored_after listening (replicate 12 0) beacon [] ≡ stored
unfolding ring init
record_is_stored = if_true _ _ (ap (λ q. not (ltb 1000 (length q + 80 + 0))) ring-IsValid.1)

small : one_stored.0.buffer.size ≤ buffer_size
unfolding ring init
small = omega (arith, one_stored.5)

take_records-record_rounds_example :
    (r' : Ringbuffer) × (take_records record_rounds one_stored.0.buffer ≡ (read_all stored, r'))
    × IsValid r'
    × (queue r' ≡ [])
take_records-record_rounds_example =
    take_records-record_rounds one_stored.0.buffer stored one_stored.2 small
      (subst AllStored record_is_stored one_stored.3)
      (one_stored.4 ∙ ap records_bytes record_is_stored)

-- The kernel is out of memory for the timer.
abbrev available : Resource → Bool
available scan_timer = false
available _ = true

abbrev device : ScanDevice
device = record { state = down; scan_context = none; scan_waiters = [] }

abbrev events : List Event
events =
    scan_called (λ r. true) (replicate 64 0)
    ∷ wait_called (some 5)
    ∷ work_runs
    ∷ other authenticating
    ∷ wait_called (some 6)
    ∷ cleanup_runs
    ∷ []

run-IsServed_example : IsServed (run idle events)
run-IsServed_example = run-IsServed events

-- A scan on the last channel but one, with two waiters.
abbrev under_way : System
under_way = record {
  device = record {
    state = scanning;
    scan_context = some (record { buffer = ring; receiving = true; current_channel = 10 });
    scan_waiters = 5 ∷ 6 ∷ [];
  };
  work_queued = true;
  cleanup_queued = false;
  woken = [];
  accepted = 5 ∷ 6 ∷ [];
}

works-cleanup_example : step (works 5 under_way) cleanup_runs ≡ record under_way {
  device = record { state = down; scan_context = none; scan_waiters = [] };
  work_queued = false;
  cleanup_queued = false;
  woken = 5 ∷ 6 ∷ [];
}
works-cleanup_example =
    works-cleanup 5 under_way (record { buffer = ring; receiving = true; current_channel = 10 })
      refl refl refl (omega arith) (omega arith)
