-- ===== src/Scan/Allocation.antt =====
-- What `u80211_scan` and the cleanup of a scan allocate and free.
use u.Common.{
  ℕ, ◌≡◌, Bool, false, some, List, [], ◌==◌, if◌then◌else◌, arith, status_success, live_after,
}
use u.Ringbuffer.{init}
use u.Scan.Run.{
  ScanDevice, Resource, scan_state, ring_contents, scan_timer_work, scan_timer, begin_scan, scan,
  cleanup_scan,
}

abbrev pub resource_code : Resource → ℕ
resource_code scan_state = 0
resource_code ring_contents = 1
resource_code scan_timer_work = 2
resource_code scan_timer = 3

-- A scan that is not started frees what it has allocated, whichever step fails, and nothing twice; one
-- that is started holds each of its four resources, and its cleanup, whatever the device is then,
-- frees every one of them exactly once.
pub scan-live :
    (available : Resource → Bool) (contents : List ℕ) (d later : ScanDevice) (r : Resource)
    → let started = scan available contents d in
      let held = started.status == status_success in
      (live_after resource_code r false started.calls ≡ some held)
      × (live_after resource_code r held (if held then (cleanup_scan later).1 else []) ≡ some false)
unfolding scan begin_scan cleanup_scan live_after init
scan-live available contents d later r = ground arith
