-- ===== src/Scan/Consistency.antt =====
-- How the context of a scan, its work items and the device state of src/scan.c fit together.
use u.Common.{
  ltb, length, ◌||◌, ℕ, ◌+◌, ◌≡◌, refl, sym, ap, subst, Bool, true, false, not, Option, none, some,
  List, [], ◌++◌, if_case,
}
use u.Management.Dispatch.{BeaconData}
use u.Association.{DeviceState, down, scanning, state_equal}
use u.Ringbuffer.{free_space}
use u.Scan.Session.{max_rsn_size, beacon_data_size, rsn_bytes, ScanState, process_response}

-- Which work is queued, by the context and the pending cleanup.
abbrev pub IsConsistent : Option ScanState → Bool → Bool → DeviceState → List ℕ → Type 0
IsConsistent none false work state waiters =
    (work ≡ false) × (state_equal state scanning ≡ false) × (waiters ≡ [])
IsConsistent none true work state waiters = (work ≡ false) × (state ≡ scanning)
IsConsistent (some s) false work state waiters = (work ≡ true) × (state ≡ scanning)
IsConsistent (some s) true work state waiters = ⊥

pub begun-IsConsistent :
    (c : Option ScanState) (pending work : Bool) (state : DeviceState) (waiters : List ℕ)
    (s : ScanState)
    → IsConsistent c pending work state waiters
    → state_equal state down ≡ true
    → IsConsistent (some s) pending true scanning waiters
begun-IsConsistent none false work state waiters s v e = (refl, refl)
begun-IsConsistent none true work state waiters s v e =
    absurd (cc (e, ap (λ q. state_equal q down) v.1))
begun-IsConsistent (some x) false work state waiters s v e = (refl, refl)
begun-IsConsistent (some x) true work state waiters s v e = v

record IsThere (c : Option ScanState) : Type 0 where
  state : ScanState
  state_lem : c ≡ some state

IsThere-some : (s : ScanState) → IsThere (some s)
IsThere-some s = record { state = s; state_lem = refl }

process_response-IsThere :
    (s : ScanState) (filler : List ℕ) (b : BeaconData)
    → IsThere (process_response (some s) filler b)
unfolding process_response
process_response-IsThere s filler b =
    if_case IsThere (not s.receiving || ltb max_rsn_size (length (rsn_bytes b))) _ _
      (λ _. IsThere-some _)
      (λ _.
        if_case IsThere (ltb (free_space s.buffer) (beacon_data_size + length (rsn_bytes b))) _ _
          (λ _. IsThere-some _) (λ _. IsThere-some _))

process_response-none : (filler : List ℕ) (b : BeaconData) → process_response none filler b ≡ none
unfolding process_response
process_response-none filler b = refl

pub response-IsConsistent :
    (c : Option ScanState) (pending work : Bool) (state : DeviceState) (waiters : List ℕ)
    (filler : List ℕ) (b : BeaconData)
    → IsConsistent c pending work state waiters
    → IsConsistent (process_response c filler b) pending work state waiters
response-IsConsistent none pending work state waiters filler b v =
    subst (λ q. IsConsistent q pending work state waiters) (sym (process_response-none filler b)) v
response-IsConsistent (some s) false work state waiters filler b v =
    subst (λ q. IsConsistent q false work state waiters)
      (sym (process_response-IsThere s filler b).state_lem) v
response-IsConsistent (some s) true work state waiters filler b v = absurd v

pub other-IsConsistent :
    (c : Option ScanState) (pending work : Bool) (state next : DeviceState) (waiters : List ℕ)
    → IsConsistent c pending work state waiters
    → state_equal state scanning ≡ false
    → state_equal next scanning ≡ false
    → IsConsistent c pending work next waiters
other-IsConsistent none false work state next waiters v e n = (v.0, n, v.2)
other-IsConsistent none true work state next waiters v e n =
    absurd (cc (e, ap (λ q. state_equal q scanning) v.1))
other-IsConsistent (some x) false work state next waiters v e n =
    absurd (cc (e, ap (λ q. state_equal q scanning) v.1))
other-IsConsistent (some x) true work state next waiters v e n = v

pub wait-IsConsistent :
    (c : Option ScanState) (pending work : Bool) (state : DeviceState) (waiters more : List ℕ)
    → IsConsistent c pending work state waiters
    → state_equal state scanning ≡ true
    → IsConsistent c pending work state (waiters ++ more)
wait-IsConsistent none false work state waiters more v e = absurd (cc (e, v.1))
wait-IsConsistent none true work state waiters more v e = v
wait-IsConsistent (some x) false work state waiters more v e = v
wait-IsConsistent (some x) true work state waiters more v e = v

pub none-IsConsistent :
    (c : Option ScanState) (pending work : Bool) (state : DeviceState) (waiters : List ℕ)
    → IsConsistent c pending work state waiters
    → c ≡ none
    → IsConsistent c pending false state waiters
none-IsConsistent none false work state waiters v e = (refl, v.1, v.2)
none-IsConsistent none true work state waiters v e = (refl, v.1)
none-IsConsistent (some x) pending work state waiters v e = absurd (cc e)

pub running :
    (c : Option ScanState) (pending work : Bool) (state : DeviceState) (waiters : List ℕ)
    {s : ScanState}
    → IsConsistent c pending work state waiters
    → c ≡ some s
    → (pending ≡ false) × (work ≡ true) × (state ≡ scanning)
running none pending work state waiters v e = absurd (cc e)
running (some x) false work state waiters v e = (refl, v.0, v.1)
running (some x) true work state waiters v e = absurd v

pub pending-IsConsistent :
    (c : Option ScanState) (state : DeviceState) (waiters : List ℕ)
    → c ≡ none
    → state ≡ scanning
    → IsConsistent c true false state waiters
pending-IsConsistent none state waiters e h = (refl, h)
pending-IsConsistent (some x) state waiters e h = absurd (cc e)

pub active-IsConsistent :
    (c : Option ScanState) (pending work : Bool) (state : DeviceState) (waiters : List ℕ)
    {s : ScanState}
    → c ≡ some s
    → pending ≡ false
    → work ≡ true
    → state ≡ scanning
    → IsConsistent c pending work state waiters
active-IsConsistent none pending work state waiters e p w h = absurd (cc e)
active-IsConsistent (some x) false work state waiters e p w h = (w, h)
active-IsConsistent (some x) true work state waiters e p w h = absurd (cc p)

pub cleaned :
    (c : Option ScanState) (pending work : Bool) (state : DeviceState) (waiters : List ℕ)
    → IsConsistent c pending work state waiters
    → pending ≡ true
    → (c ≡ none) × (work ≡ false) × (state ≡ scanning)
cleaned none false work state waiters v e = absurd (cc e)
cleaned none true work state waiters v e = (refl, v.0, v.1)
cleaned (some x) false work state waiters v e = absurd (cc e)
cleaned (some x) true work state waiters v e = absurd v

pub down-IsConsistent :
    (c : Option ScanState) (work : Bool) (state : DeviceState)
    → c ≡ none
    → work ≡ false
    → state ≡ down
    → IsConsistent c false work state []
down-IsConsistent none work state e w h = (w, ap (λ q. state_equal q scanning) h, refl)
down-IsConsistent (some x) work state e w h = absurd (cc e)
