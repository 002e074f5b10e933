-- ===== src/Scan/Ends.antt =====
-- A scan of src/scan.c comes to its end.
use u.Common.{
  ◌⊎◌, ℕ, zero, suc, ◌+◌, ◌≤◌, ◌<◌, ◌≡◌, refl, ap, ap₂, ◌∙◌, subst, Bool, true, false, not, none,
  some, ◌||◌, sym, List, [], ◌++◌, arith, if_false, if_true, option_some, option_none, Option-cases,
  inl, inr,
}
use u.Association.{down, scanning, state_equal}
use u.Scan.{next_channel, is_permitted, channel_count}
use u.Scan.Channels.{IsNext, next_channel-IsNext, above-is_permitted}
use u.Scan.Session.{ScanState, take_records}
use u.Scan.Run.{
  insertions, ScanDevice, ScanEffect, set_state, leave_channel, scan_work, record_rounds,
  cleanup_scan,
}
use u.Scan.System.{enqueues_work, enqueues_cleanup, System, work_runs, cleanup_runs, step}
use u.Management.Dispatch.{BeaconData}
use u.Scan.Waiters.{insertions-queue, or_true, or_false, signalled-wake_scan_waiters}

-- The next channel is above the current one, and one of the table.
next_channel-bounds :
    (current channel : ℕ)
    → current ≤ channel_count
    → next_channel current ≡ some channel
    → (current < channel) × (channel ≤ channel_count)
next_channel-bounds current channel h e =
    let next : IsNext current (some channel) =
      subst (IsNext current) e (next_channel-IsNext current h) in
    (next.0, not_above channel next.1)
  where
    not_above : (n : ℕ) → is_permitted n ≡ true → n ≤ channel_count
    not_above n p = elim (split n) [
      | inl le ↦ le
      | inr gt ↦ absurd (cc (p, above-is_permitted n gt))
    ]
      where
        split : (k : ℕ) → (k ≤ channel_count) ⊎ (channel_count < k)
        split k = omega arith

-- The work that is queued runs `n` times, one run after the other.
pub works : ℕ → System → System
works zero s = s
works (suc n) s = works n (step s work_runs)

abbrev given_up : System → System
given_up s = record s {
  device = record s.device { scan_context = none };
  work_queued = false;
  cleanup_queued = true;
}

works_idle : (n : ℕ) (s : System) → s.work_queued ≡ false → works n s ≡ s
unfolding works step
works_idle zero s e = refl
works_idle (suc n) s e = ap (works n) (if_true _ _ (ap not e)) ∙ works_idle n s e

-- the system after a run of the work that leaves a device and makes these requests
abbrev after : System → ScanDevice × List ScanEffect → System
after s out = record s {
  device = out.0;
  work_queued = enqueues_work out.1;
  cleanup_queued = s.cleanup_queued || enqueues_cleanup out.1;
}

-- The insertions do not count for what is queued.
after-insertions :
    (s : System) (channel : ℕ) (beacons : List BeaconData) (out : ScanDevice × List ScanEffect)
    → after s (out.0, insertions channel beacons ++ out.1) ≡ after s out
after-insertions s channel beacons out =
    let (w, c) = insertions-queue channel beacons out.1 in
    ap₂
      (λ x y. record s { device = out.0; work_queued = x; cleanup_queued = s.cleanup_queued || y })
      w c

module _ (s : System) (state : ScanState) (context : s.device.scan_context ≡ some state)
    (queued : s.work_queued ≡ true) where
  abbrev left_ring : ScanState
  left_ring = record state {
    buffer = (take_records record_rounds state.buffer).1;
    receiving = false;
  }

  one_work : step s work_runs ≡ after s (leave_channel s.device left_ring)
  unfolding step scan_work
  one_work =
      if_false _ _ (ap not queued)
      ∙ option_some _ _ context
      ∙ after-insertions s state.current_channel (take_records record_rounds state.buffer).0
          (leave_channel s.device left_ring)

  last_work : next_channel state.current_channel ≡ none → step s work_runs ≡ given_up s
  unfolding leave_channel
  last_work e =
      one_work
      ∙ ap (after s) (option_none _ _ e)
      ∙ ap (λ c. record s { device = idle_device; work_queued = false; cleanup_queued = c })
          (or_true s.cleanup_queued)
    where
      idle_device : ScanDevice
      idle_device = record s.device { scan_context = none }

  next_work :
      (channel : ℕ)
      → next_channel state.current_channel ≡ some channel
      → (s1 : ScanState) × (s1.current_channel ≡ channel)
        × (step s work_runs ≡ record s { device = record s.device { scan_context = some s1 } })
  unfolding leave_channel
  next_work channel e = (
    record left_ring { receiving = true; current_channel = channel },
    refl,
    one_work
        ∙ ap (after s) (option_some _ _ e)
        ∙ ap₂
            (λ w c. record s {
              device = record s.device {
                scan_context =
                    some (record left_ring { receiving = true; current_channel = channel });
              };
              work_queued = w;
              cleanup_queued = c;
            })
            (sym queued) (or_false s.cleanup_queued),
  )

works-given_up :
    (n : ℕ) (s : System) (state : ScanState)
    → s.device.scan_context ≡ some state
    → s.work_queued ≡ true
    → state.current_channel ≤ channel_count
    → channel_count < n + state.current_channel
    → works n s ≡ given_up s
unfolding works
works-given_up zero s state context queued low h = absurd (omega arith)
works-given_up (suc n) s state context queued low h =
    elim (Option-cases (next_channel state.current_channel)) [
      | inl e ↦ ap (works n) (last_work s state context queued e) ∙ works_idle n (given_up s) refl
      | inr (channel, e) ↦
          let (s1, at, moved) = next_work s state context queued channel e in
          let (above, fits) = next_channel-bounds state.current_channel channel low e in
          ap (works n) moved
          ∙ works-given_up n (record s { device = record s.device { scan_context = some s1 } }) s1
              refl queued (omega arith) (omega arith)
    ]

-- A scan that is under way ends: each run of its work queues the next one or the cleanup; more runs
-- than there are channels left above its own, and then the cleanup, bring the device down, with no
-- context, no work queued and nobody waiting, and all who waited are signalled, in their order. For
-- a scan on a channel of the table, and where nothing else runs in between.
pub works-cleanup :
    (n : ℕ) (s : System) (state : ScanState)
    → s.device.scan_context ≡ some state
    → s.work_queued ≡ true
    → s.device.state ≡ scanning
    → state.current_channel ≤ channel_count
    → channel_count < n + state.current_channel
    → step (works n s) cleanup_runs ≡ record s {
      device = record { state = down; scan_context = none; scan_waiters = [] };
      work_queued = false;
      cleanup_queued = false;
      woken = s.woken ++ s.device.scan_waiters;
    }
unfolding step cleanup_scan
works-cleanup n s state context queued is_scanning low h =
    ap (λ q. step q cleanup_runs) (works-given_up n s state context queued low h)
    ∙ ap₂
        (λ (q : ScanDevice) w. record s {
          device = record q { scan_waiters = [] };
          work_queued = false;
          cleanup_queued = false;
          woken = s.woken ++ w;
        })
        left (signalled-wake_scan_waiters s.device.scan_waiters)
  where
    idle_device : ScanDevice
    idle_device = record s.device { scan_context = none }

    left : (set_state idle_device scanning down).1 ≡ record idle_device { state = down }
    left =
        ap (λ (q : Bool × ScanDevice). q.1)
          (if_true (true, record idle_device { state = down }) (false, idle_device)
            (ap (λ q. state_equal q scanning) is_scanning))
