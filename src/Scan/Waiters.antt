-- ===== src/Scan/Waiters.antt =====
-- The threads that wait for a scan of src/scan.c.
use mathlib.Core.List.{append_assoc, append-nil}
use u.Common.{
  ℕ, ◌≡◌, refl, sym, ap, ◌∙◌, Bool, true, false, not, ◌||◌, Option, none, some, List, [], ◌∷◌, ◌++◌,
  ◌==◌, if◌then◌else◌, arith, status_success, ResourceCall, allocated, option_case, if_case,
  if_true, Bool-cases, inl, inr,
}
use u.Management.Dispatch.{BeaconData}
use u.Association.{DeviceState, down, scanning, state_equal}
use u.Ringbuffer.{Ringbuffer, init}
use u.Scan.{next_channel}
use u.Scan.Session.{ScanState, take_records, is_discovered}
use u.Scan.Run.{
  set_state, scan_state, ring_contents, scan_timer_work, scan_timer, buffer_size, ScanDevice,
  Resource, Started, begin_scan, scan, leave_channel, scan_work, cleanup_scan, wake_scan_waiters,
  wait_begin, ScanEffect, insertions, record_rounds,
}
use u.Scan.System.{
  System, Event, scan_called, response, work_runs, cleanup_runs, wait_called, other, signalled,
  enqueues_work, enqueues_cleanup, step, run, idle,
}
use u.Scan.Consistency.{
  IsConsistent, begun-IsConsistent, response-IsConsistent, other-IsConsistent, wait-IsConsistent,
  none-IsConsistent, running, pending-IsConsistent, active-IsConsistent, cleaned, down-IsConsistent,
}

pub record IsServed (s : System) : Type 0 where
  pub consistent :
      IsConsistent s.device.scan_context s.cleanup_queued s.work_queued s.device.state
        s.device.scan_waiters
  pub in_order : s.woken ++ s.device.scan_waiters ≡ s.accepted

idle-IsServed : IsServed idle
unfolding idle
idle-IsServed = record { consistent = (refl, refl, refl); in_order = refl }

pub signalled-wake_scan_waiters :
    (waiters : List ℕ) → signalled (wake_scan_waiters waiters) ≡ waiters
unfolding wake_scan_waiters
signalled-wake_scan_waiters [] = refl
signalled-wake_scan_waiters (w ∷ waiters) = ap (λ r. w ∷ r) (signalled-wake_scan_waiters waiters)

-- A call of `u80211_scan` leaves the device alone and queues nothing, or the device was down and
-- scans, with the work queued.
data ScanOutcome (d : ScanDevice) (t : Started) : Type 0 where
  refused : enqueues_work t.effects ≡ false → t.device ≡ d → ScanOutcome d t
  begun :
      (s : ScanState)
      → state_equal d.state down ≡ true
      → enqueues_work t.effects ≡ true
      → t.device ≡ record d { state = scanning; scan_context = some s }
      → ScanOutcome d t

begin_scan-ScanOutcome :
    (d : ScanDevice) (buffer : Ringbuffer) (made : List (ResourceCall Resource))
    → ScanOutcome d (begin_scan d buffer made)
unfolding begin_scan
begin_scan-ScanOutcome d buffer made =
    option_case (ScanOutcome d) (next_channel 0) _ _ (λ _. refused refl refl)
      (λ channel _. elim (Bool-cases (state_equal d.state down)) [
        | inl e ↦ rw e (
            begun (record { buffer = buffer; receiving = true; current_channel = channel }) e refl
              refl)
        | inr e ↦ rw e (refused refl refl)
      ])

scan-ScanOutcome :
    (available : Resource → Bool) (contents : List ℕ) (d : ScanDevice)
    → ScanOutcome d (scan available contents d)
unfolding scan init
scan-ScanOutcome available contents d =
    if_case (ScanOutcome d) (not (available scan_state)) _ _ (λ _. refused refl refl)
      (λ _.
        if_case (ScanOutcome d) (not (ring.0 == status_success)) _ _ (λ _. refused refl refl)
          (λ _.
            if_case (ScanOutcome d) (not (available scan_timer_work)) _ _ (λ _. refused refl refl)
              (λ _.
                if_case (ScanOutcome d) (not (available scan_timer)) _ _ (λ _. refused refl refl)
                  (λ _. begin_scan-ScanOutcome d ring.1 (
                    allocated scan_state
                    ∷ allocated ring_contents
                    ∷ allocated scan_timer_work
                    ∷ allocated scan_timer
                    ∷ [])))))
  where
    ring : ℕ × Ringbuffer
    ring = init buffer_size (if available ring_contents then some contents else none)

-- The records that are inserted queue no work.
pub insertions-queue :
    (channel : ℕ) (beacons : List BeaconData) (effects : List ScanEffect)
    → (enqueues_work (insertions channel beacons ++ effects) ≡ enqueues_work effects)
      × (enqueues_cleanup (insertions channel beacons ++ effects) ≡ enqueues_cleanup effects)
unfolding insertions
insertions-queue channel [] effects = (refl, refl)
insertions-queue channel (b ∷ beacons) effects =
    let ih = insertions-queue channel beacons effects in
    if_case
      (λ q.
        (enqueues_work (q ++ effects) ≡ enqueues_work effects)
        × (enqueues_cleanup (q ++ effects) ≡ enqueues_cleanup effects))
      (is_discovered channel b) _ _ (λ _. ih) (λ _. ih)

-- A round of the scan work gives up the context and queues the cleanup, or keeps a context and queues
-- the work again.
data RoundEnd (out : ScanDevice × List ScanEffect) : Type 0 where
  ended :
      out.0.scan_context ≡ none
      → enqueues_work out.1 ≡ false
      → enqueues_cleanup out.1 ≡ true
      → RoundEnd out
  moved :
      (s : ScanState)
      → out.0.scan_context ≡ some s
      → enqueues_work out.1 ≡ true
      → enqueues_cleanup out.1 ≡ false
      → RoundEnd out

leave_channel-RoundEnd : (d : ScanDevice) (s : ScanState) → RoundEnd (leave_channel d s)
unfolding leave_channel
leave_channel-RoundEnd d s =
    option_case RoundEnd (next_channel s.current_channel) _ _ (λ _. ended refl refl refl)
      (λ channel _. moved (record s { receiving = true; current_channel = channel }) refl refl refl)

behind_insertions :
    (channel : ℕ) (beacons : List BeaconData) (out : ScanDevice × List ScanEffect)
    → RoundEnd out
    → RoundEnd (out.0, insertions channel beacons ++ out.1)
behind_insertions channel beacons out (ended e w c) =
    let same = insertions-queue channel beacons out.1 in ended e (same.0 ∙ w) (same.1 ∙ c)
behind_insertions channel beacons out (moved s e w c) =
    let same = insertions-queue channel beacons out.1 in moved s e (same.0 ∙ w) (same.1 ∙ c)

leave_channel_lem :
    (d : ScanDevice) (s : ScanState)
    → ((leave_channel d s).0.state ≡ d.state)
      × ((leave_channel d s).0.scan_waiters ≡ d.scan_waiters)
unfolding leave_channel
leave_channel_lem d s = ground arith

-- It touches neither the state nor the waiters.
scan_work_lem :
    (d : ScanDevice) (s : ScanState)
    → ((scan_work d s).0.state ≡ d.state)
      × ((scan_work d s).0.scan_waiters ≡ d.scan_waiters)
      × RoundEnd (scan_work d s)
unfolding scan_work
scan_work_lem d s =
    let (beacons, buffer) = take_records record_rounds s.buffer in
    let left = record s { buffer = buffer; receiving = false } in
    let (state, waiters) = leave_channel_lem d left in
    (
      state,
      waiters,
      behind_insertions s.current_channel beacons (leave_channel d left)
          (leave_channel-RoundEnd d left),
    )

pub or_true : (x : Bool) → (x || true) ≡ true
or_true true = refl
or_true false = refl

pub or_false : (x : Bool) → (x || false) ≡ x
or_false true = refl
or_false false = refl

module _ (s : System) (v : IsServed s) where
  started-IsServed :
      (t : Started)
      → ScanOutcome s.device t
      → IsServed
          (record s { device = t.device; work_queued = s.work_queued || enqueues_work t.effects })
  started-IsServed t (refused e same) = rw (e, same, or_false s.work_queued) v
  started-IsServed t (begun st isdown e same) =
      rw (e, same, or_true s.work_queued)
        (record {
          consistent =
              begun-IsConsistent s.device.scan_context s.cleanup_queued s.work_queued s.device.state
                s.device.scan_waiters st v.consistent isdown;
          in_order = v.in_order;
        })

  response-IsServed : (filler : List ℕ) (b : BeaconData) → IsServed (step s (response filler b))
  unfolding step
  response-IsServed filler b = record {
    consistent =
        response-IsConsistent s.device.scan_context s.cleanup_queued s.work_queued s.device.state
          s.device.scan_waiters filler b v.consistent;
    in_order = v.in_order;
  }

  other-IsServed : (state : DeviceState) → IsServed (step s (other state))
  unfolding step
  other-IsServed state =
      if_case IsServed (state_equal s.device.state scanning) _ _ (λ _. v)
        (λ e.
          if_case IsServed (state_equal state scanning) _ _ (λ _. v)
            (λ n. record {
              consistent =
                  other-IsConsistent s.device.scan_context s.cleanup_queued s.work_queued
                    s.device.state state s.device.scan_waiters v.consistent e n;
              in_order = v.in_order;
            }))

  wait-IsServed : (semaphore : Option ℕ) → IsServed (step s (wait_called semaphore))
  unfolding step wait_begin
  wait-IsServed none = record {
    consistent = v.consistent;
    in_order = v.in_order ∙ sym (append-nil s.accepted);
  }
  wait-IsServed (some semaphore) = elim (Bool-cases (state_equal s.device.state scanning)) [
    | inl e ↦ rw e (record {
      consistent =
          wait-IsConsistent s.device.scan_context s.cleanup_queued s.work_queued s.device.state
            s.device.scan_waiters (semaphore ∷ []) v.consistent e;
      in_order =
          sym (append_assoc s.woken s.device.scan_waiters (semaphore ∷ []))
          ∙ ap (λ q. q ++ (semaphore ∷ [])) v.in_order;
    })
    | inr e ↦
        rw e (record {
          consistent = v.consistent;
          in_order = v.in_order ∙ sym (append-nil s.accepted);
        })
  ]

  round-IsServed :
      (out : ScanDevice × List ScanEffect)
      → s.cleanup_queued ≡ false
      → out.0.state ≡ scanning
      → out.0.scan_waiters ≡ s.device.scan_waiters
      → RoundEnd out
      → IsServed (record s {
        device = out.0;
        work_queued = enqueues_work out.1;
        cleanup_queued = s.cleanup_queued || enqueues_cleanup out.1;
      })
  round-IsServed out idle_cleanup is_scanning waiting (ended e w c) =
      rw (w, c, or_true s.cleanup_queued)
        (record {
          consistent =
              pending-IsConsistent out.0.scan_context out.0.state out.0.scan_waiters e is_scanning;
          in_order = ap (λ q. s.woken ++ q) waiting ∙ v.in_order;
        })
  round-IsServed out idle_cleanup is_scanning waiting (moved next e w c) =
      rw (w, c, or_false s.cleanup_queued)
        (record {
          consistent =
              active-IsConsistent out.0.scan_context s.cleanup_queued true out.0.state
                out.0.scan_waiters e idle_cleanup refl is_scanning;
          in_order = ap (λ q. s.woken ++ q) waiting ∙ v.in_order;
        })

  work-IsServed : IsServed (step s work_runs)
  unfolding step
  work-IsServed =
      let d = s.device in
      if_case IsServed (not s.work_queued) _ _ (λ _. v)
        (λ _.
          option_case IsServed d.scan_context _ _
            (λ e. record {
              consistent =
                  none-IsConsistent d.scan_context s.cleanup_queued s.work_queued d.state
                    d.scan_waiters v.consistent e;
              in_order = v.in_order;
            })
            (λ state e.
              let (pending, work, is_scanning) =
                running d.scan_context s.cleanup_queued s.work_queued d.state d.scan_waiters
                  v.consistent e in
              let (same, waiting, end) = scan_work_lem d state in
              round-IsServed (scan_work d state) pending (same ∙ is_scanning) waiting end))

  cleanup-IsServed : IsServed (step s cleanup_runs)
  unfolding step cleanup_scan
  cleanup-IsServed =
      let d = s.device in
      if_case IsServed (not s.cleanup_queued) _ _ (λ _. v)
        (λ q.
          let (gone, work, is_scanning) =
            cleaned d.scan_context s.cleanup_queued s.work_queued d.state d.scan_waiters
              v.consistent (ground arith) in
          let left : (set_state d scanning down).1 ≡ record d { state = down } =
            ap (λ (q : Bool × ScanDevice). q.1)
              (if_true (true, record d { state = down }) (false, d)
                (ap (λ q. state_equal q scanning) is_scanning)) in
          record {
            consistent =
                down-IsConsistent (set_state d scanning down).1.scan_context s.work_queued
                  (set_state d scanning down).1.state
                  (ap (λ (q : ScanDevice). q.scan_context) left ∙ gone) work
                  (ap (λ (q : ScanDevice). q.state) left);
            in_order =
                append-nil (s.woken ++ signalled (wake_scan_waiters d.scan_waiters))
                ∙ ap (λ q. s.woken ++ q) (signalled-wake_scan_waiters d.scan_waiters)
                ∙ v.in_order;
          })

  step-IsServed : (e : Event) → IsServed (step s e)
  unfolding step
  step-IsServed (scan_called available contents) =
      started-IsServed (scan available contents s.device)
        (scan-ScanOutcome available contents s.device)
  step-IsServed (response filler b) = response-IsServed filler b
  step-IsServed work_runs = work-IsServed
  step-IsServed cleanup_runs = cleanup-IsServed
  step-IsServed (wait_called semaphore) = wait-IsServed semaphore
  step-IsServed (other state) = other-IsServed state

run_from-IsServed : (s : System) (events : List Event) → IsServed s → IsServed (run s events)
unfolding run
run_from-IsServed s [] v = v
run_from-IsServed s (e ∷ events) v = run_from-IsServed (step s e) events (step-IsServed s v e)

-- In every sequence of whole calls, responses, runs of the work and changes of the state by the
-- association code, where a work item is queued when the code asks for it: a scan has its work
-- queued until its context is given up and its cleanup queued from then on, nobody waits when no
-- scan is under way, and those who have waited are signalled once each, in the order in which they
-- came, but for those who wait still.
pub run-IsServed : (events : List Event) → IsServed (run idle events)
run-IsServed events = run_from-IsServed idle events idle-IsServed
