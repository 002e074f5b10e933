-- ===== src/Scan/Run.antt =====
-- A scan of src/scan.c from `u80211_scan` to its cleanup, on the part of `struct u80211_device` that it
-- uses.
use u.Common.{
  ℕ, ◌+◌, ◌*◌, Bool, true, false, not, Option, none, some, List, [], ◌∷◌, ◌++◌, ◌==◌, if◌then◌else◌,
  status_success, status_enomem, status_not_permitted, status_busy, status_retry, ResourceCall,
  allocated, freed,
}
use u.Management.Dispatch.{BeaconData}
use u.Association.{DeviceState, down, scanning, state_equal}
use u.Ringbuffer.{Ringbuffer, init}
use u.Scan.{next_channel}
use u.Scan.Session.{ScanState, beacon_data_size, max_rsn_size, take_records, is_discovered}

-- BUFFER_SIZE.
abbrev pub buffer_size : ℕ
buffer_size = 64 * (beacon_data_size + max_rsn_size)

-- Rounds of the loop over the records: no more of them fit the ring, but for the last round, which
-- finds no record.
abbrev pub record_rounds : ℕ
record_rounds = 269

-- `scan_waiters` holds the waiters' semaphores.
pub record ScanDevice : Type 0 where
  pub state : DeviceState
  pub scan_context : Option ScanState
  pub scan_waiters : List ℕ

pub data Resource : Type 0 where
  scan_state ring_contents scan_timer_work scan_timer : Resource

-- What the code asks of the cache, the driver and the kernel. `insert` stands for the allocation of
-- an access point, its insertion into the cache and the release of the reference.
pub data ScanEffect : Type 0 where
  purge : ScanEffect
  insert : BeaconData → ScanEffect
  set_channel : ℕ → ScanEffect
  send_probe_request : ScanEffect
  enqueue_scan_work : ScanEffect
  enqueue_cleanup : ScanEffect
  signal : ℕ → ScanEffect

abbrev pub destroy_scan_state : List (ResourceCall Resource)
destroy_scan_state =
    freed scan_timer ∷ freed scan_timer_work ∷ freed ring_contents ∷ freed scan_state ∷ []

abbrev pub set_state : ScanDevice → DeviceState → DeviceState → Bool × ScanDevice
set_state d old_state new_state =
    if state_equal d.state old_state then (true, record d { state = new_state }) else (false, d)

-- What `u80211_scan` leaves.
pub record Started : Type 0 where
  pub status : ℕ
  pub device : ScanDevice
  pub calls : List (ResourceCall Resource)
  pub effects : List ScanEffect

abbrev pub not_started : ScanDevice → ℕ → List (ResourceCall Resource) → Started
not_started d status calls = record { status = status; device = d; calls = calls; effects = [] }

-- From the choice of the first channel on, with every resource allocated.
unfoldable pub begin_scan : ScanDevice → Ringbuffer → List (ResourceCall Resource) → Started
begin_scan d buffer made = elim (next_channel 0) [
  | none ↦ not_started d status_not_permitted (made ++ destroy_scan_state)
  | some channel ↦
      let (begun, d1) = set_state d down scanning in
      if not begun then not_started d status_busy (made ++ destroy_scan_state) else record {
        status = status_success;
        device = record d1 {
          scan_context =
              some (record { buffer = buffer; receiving = true; current_channel = channel });
        };
        calls = made;
        effects = purge ∷ set_channel channel ∷ send_probe_request ∷ enqueue_scan_work ∷ [];
      }
]

-- `contents` is what the ring's memory holds when it is allocated.
unfoldable pub scan : (Resource → Bool) → List ℕ → ScanDevice → Started
unfolding begin_scan
scan available contents d =
    if not (available scan_state)
    then not_started d status_enomem []
    else (let (status, buffer) =
          init buffer_size (if available ring_contents then some contents else none) in
        if not (status == status_success)
        then not_started d status (allocated scan_state ∷ freed scan_state ∷ [])
        else (if not (available scan_timer_work)
            then not_started d status_enomem (
                allocated scan_state
                ∷ allocated ring_contents
                ∷ freed ring_contents
                ∷ freed scan_state
                ∷ [])
            else (if not (available scan_timer)
                then not_started d status_enomem (
                    allocated scan_state
                    ∷ allocated ring_contents
                    ∷ allocated scan_timer_work
                    ∷ freed scan_timer_work
                    ∷ freed ring_contents
                    ∷ freed scan_state
                    ∷ [])
                else begin_scan d buffer (
                    allocated scan_state
                    ∷ allocated ring_contents
                    ∷ allocated scan_timer_work
                    ∷ allocated scan_timer
                    ∷ []))))

-- The records of the loop that become access points.
unfoldable pub insertions : ℕ → List BeaconData → List ScanEffect
insertions current_channel [] = []
insertions current_channel (b ∷ beacons) =
    let rest = insertions current_channel beacons in
    if is_discovered current_channel b then insert b ∷ rest else rest

abbrev pub complete_scan : ScanDevice → ScanDevice × List ScanEffect
complete_scan d = (record d { scan_context = none }, enqueue_cleanup ∷ [])

-- The last part of `scan_work`: the next channel, or the end of the scan. `receiving` is false until
-- the driver is on the new channel.
unfoldable pub leave_channel : ScanDevice → ScanState → ScanDevice × List ScanEffect
leave_channel d s = elim (next_channel s.current_channel) [
  | none ↦ complete_scan d
  | some channel ↦ (
    record d { scan_context = some (record s { receiving = true; current_channel = channel }) },
    set_channel channel ∷ send_probe_request ∷ enqueue_scan_work ∷ [],
  )
]

-- `scan_work` with the scan state of its context. A response that comes in while it runs is refused,
-- since it does not receive.
unfoldable pub scan_work : ScanDevice → ScanState → ScanDevice × List ScanEffect
unfolding insertions leave_channel
scan_work d s =
    let (beacons, buffer) = take_records record_rounds s.buffer in
    let (d1, effects) = leave_channel d (record s { buffer = buffer; receiving = false }) in
    (d1, insertions s.current_channel beacons ++ effects)

unfoldable pub wake_scan_waiters : List ℕ → List ScanEffect
wake_scan_waiters [] = []
wake_scan_waiters (semaphore ∷ waiters) = signal semaphore ∷ wake_scan_waiters waiters

unfoldable pub cleanup_scan :
    ScanDevice → ScanDevice × List (ResourceCall Resource) × List ScanEffect
unfolding wake_scan_waiters
cleanup_scan d =
    let d1 = (set_state d scanning down).1 in
    (record d1 { scan_waiters = [] }, destroy_scan_state, wake_scan_waiters d.scan_waiters)

-- The function up to its wait, with the semaphore that the kernel allocates. The status is `none`
-- where the caller waits.
unfoldable pub wait_begin : ScanDevice → Option ℕ → ScanDevice × Option ℕ
wait_begin d none = (d, some status_retry)
wait_begin d (some semaphore) =
    if not (state_equal d.state scanning)
    then (d, some status_success)
    else (record d { scan_waiters = d.scan_waiters ++ (semaphore ∷ []) }, none)
