-- ===== src/Association/Invariant.antt =====
-- What holds of the association state machine between any two locked sections.
use u.Common.{
  ℕ, ◌≡◌, Bool, true, false, Option, none, some, List, [], ◌∷◌, is_some, arith,
  status_unknown_error,
}
use u.Packet.{MacAddress}
use u.Association.{
  DeviceState, down, scanning, authenticating, associating, associated, deauthenticating, Ap,
  AssociationContext, set_device_state,
}
use u.Association.Handlers.{
  process_deauthentication, process_disassociation, process_response, auth_timeout, assoc_timeout,
  process_authentication, release_disconnected_ap, associate_begin, deauthenticate_begin,
  deauthenticate_finish, wait_begin,
}
use u.Association.System.{
  CleanupWork, idle, taken, released, System, Event, start_cleanup, continue_cleanup, end_cleanup,
  step, run,
}

-- Which pointers a state goes with. An attempt has a context for the current access point, of the
-- current generation; an association has an access point and no context; otherwise there is
-- neither.
abbrev pub Consistent : DeviceState → Option AssociationContext → Option Ap → ℕ → Type 0
Consistent authenticating (some c) (some a) generation = (c.ap ≡ a) × (c.generation ≡ generation)
Consistent associating (some c) (some a) generation = (c.ap ≡ a) × (c.generation ≡ generation)
Consistent associated none (some a) generation = Unit
Consistent deauthenticating none (some a) generation = Unit
Consistent down none none generation = Unit
Consistent scanning none none generation = Unit
Consistent _ _ _ _ = ⊥

-- A cleanup is pending exactly while its context is there, and never during an attempt.
abbrev pub Pending : Bool → Option AssociationContext → Option AssociationContext → Type 0
Pending true (some old) none = Unit
Pending false none context = Unit
Pending _ _ _ = ⊥

-- A context that waits for its cleanup is held by the running work, or the work is queued.
abbrev pub WillClean : CleanupWork → Option AssociationContext → Bool → Type 0
WillClean idle none queued = Unit
WillClean idle (some c) queued = queued ≡ true
WillClean (taken none d) none queued = Unit
WillClean (taken none d) (some c) queued = queued ≡ true
WillClean (taken (some k) d) (some c) queued = k ≡ c
WillClean (released none) none queued = Unit
WillClean (released none) (some c) queued = queued ≡ true
WillClean (released (some k)) (some c) queued = k ≡ c
WillClean _ none queued = ⊥

-- Who waits waits for an attempt, or for the cleanup after one.
abbrev pub HasWaiters : List ℕ → DeviceState → Bool → Type 0
HasWaiters [] state pending = Unit
HasWaiters (w ∷ ws) authenticating pending = Unit
HasWaiters (w ∷ ws) associating pending = Unit
HasWaiters (w ∷ ws) _ pending = pending ≡ true

pub record Inv (s : System) : Type 0 where
  pub consistent :
      Consistent s.device.state s.device.association_context s.device.ap
        s.device.association_generation
  pub pending :
      Pending s.device.association_cleanup_pending s.device.association_cleanup_context
        s.device.association_context
  pub will_clean : WillClean s.cleanup s.device.association_cleanup_context s.device.cleanup_queued
  pub will_release : is_some s.device.disconnected_ap ≡ true → s.device.cleanup_queued ≡ true
  pub waiters :
      HasWaiters s.device.association_waiters s.device.state s.device.association_cleanup_pending

-- Frames from the air keep the invariant.
response-Inv :
    (s : System) (m : MacAddress) (status : ℕ) → Inv s → Inv (step s (Event.response m status))
unfolding step process_response
response-Inv s m status v = ground arith

authentication-Inv :
    (s : System) (m : MacAddress) (algorithm transaction status : ℕ)
    → Inv s
    → Inv (step s (Event.authentication m algorithm transaction status))
unfolding step process_authentication
authentication-Inv s m algorithm transaction status v = ground arith

deauthentication-Inv :
    (s : System) (m : MacAddress) → Inv s → Inv (step s (Event.deauthentication m))
unfolding step process_deauthentication
deauthentication-Inv s m v = ground arith

disassociation-Inv : (s : System) (m : MacAddress) → Inv s → Inv (step s (Event.disassociation m))
unfolding step process_disassociation
disassociation-Inv s m v = ground arith

auth_timeout-Inv : (s : System) (c : ℕ) → Inv s → Inv (step s (Event.authentication_timeout c))
unfolding step auth_timeout
auth_timeout-Inv s c v = ground arith

assoc_timeout-Inv : (s : System) (c : ℕ) → Inv s → Inv (step s (Event.response_timeout c))
unfolding step assoc_timeout
assoc_timeout-Inv s c v = ground arith

associate-Inv :
    (s : System) (address : ℕ) (a : Ap) (bytes : List ℕ)
    → Inv s
    → Inv (step s (Event.associate address a bytes))
unfolding step associate_begin
associate-Inv s address a bytes v = ground arith

release_disconnected-Inv : (s : System) → Inv s → Inv (step s Event.release_disconnected)
unfolding step release_disconnected_ap
release_disconnected-Inv s v = ground arith

disassociate_begin-Inv : (s : System) → Inv s → Inv (step s Event.disassociate_begin)
unfolding step deauthenticate_begin
disassociate_begin-Inv s v = ground arith

disassociate_end-Inv : (s : System) → Inv s → Inv (step s Event.disassociate_end)
unfolding step deauthenticate_finish
disassociate_end-Inv s v = ground arith

wait-Inv : (s : System) (semaphore : ℕ) → Inv s → Inv (step s (Event.wait semaphore))
unfolding step wait_begin
wait-Inv s semaphore v = ground arith

cleanup_take-Inv : (s : System) → Inv s → Inv (step s Event.cleanup_take)
unfolding step start_cleanup
cleanup_take-Inv s v = ground arith

cleanup_free-Inv : (s : System) → Inv s → Inv (step s Event.cleanup_free)
unfolding step continue_cleanup
cleanup_free-Inv s v = ground arith

cleanup_end-Inv : (s : System) → Inv s → Inv (step s Event.cleanup_end)
unfolding step end_cleanup
cleanup_end-Inv s v = ground arith

scan_begin-Inv : (s : System) → Inv s → Inv (step s Event.scan_begin)
unfolding step set_device_state
scan_begin-Inv s v = ground arith

scan_end-Inv : (s : System) → Inv s → Inv (step s Event.scan_end)
unfolding step set_device_state
scan_end-Inv s v = ground arith

-- Every event keeps the invariant.
pub step-Inv : (s : System) (e : Event) → Inv s → Inv (step s e)
step-Inv s (Event.authentication m a t status) v = authentication-Inv s m a t status v
step-Inv s (Event.response m status) v = response-Inv s m status v
step-Inv s (Event.deauthentication m) v = deauthentication-Inv s m v
step-Inv s (Event.disassociation m) v = disassociation-Inv s m v
step-Inv s (Event.authentication_timeout c) v = auth_timeout-Inv s c v
step-Inv s (Event.response_timeout c) v = assoc_timeout-Inv s c v
step-Inv s (Event.associate address a bytes) v = associate-Inv s address a bytes v
step-Inv s Event.release_disconnected v = release_disconnected-Inv s v
step-Inv s Event.disassociate_begin v = disassociate_begin-Inv s v
step-Inv s Event.disassociate_end v = disassociate_end-Inv s v
step-Inv s (Event.wait semaphore) v = wait-Inv s semaphore v
step-Inv s Event.cleanup_take v = cleanup_take-Inv s v
step-Inv s Event.cleanup_free v = cleanup_free-Inv s v
step-Inv s Event.cleanup_end v = cleanup_end-Inv s v
step-Inv s Event.scan_begin v = scan_begin-Inv s v
step-Inv s Event.scan_end v = scan_end-Inv s v

pub run_from-Inv : (s : System) (events : List Event) → Inv s → Inv (run s events)
unfolding run
run_from-Inv s [] v = v
run_from-Inv s (e ∷ events) v = run_from-Inv (step s e) events (step-Inv s e v)

-- The device as `u80211_register_device` leaves it, with the reference counts that there are.
unfoldable pub registered : (ℕ → ℕ) → System
registered refcount = record {
  device = record {
    state = down;
    association_context = none;
    association_cleanup_context = none;
    association_cleanup_pending = false;
    association_waiters = [];
    association_generation = 0;
    association_result = status_unknown_error;
    ap = none;
    disconnected_ap = none;
    received_sequence_control = 0;
    received_sequence_control_valid = false;
    refcount = refcount;
    cleanup_queued = false;
  };
  cleanup = idle;
}

pub registered-Inv : (refcount : ℕ → ℕ) → Inv (registered refcount)
unfolding registered
registered-Inv refcount = record {
  consistent = tt;
  pending = tt;
  will_clean = tt;
  will_release = λ e. cc;
  waiters = tt;
}

-- In every interleaving of frames, timeouts, calls and work, from a device as it is registered: the
-- device state says which pointers are set, a cleanup is pending exactly while its context is
-- there and never during an attempt, what has to be cleaned up or released has its work running or
-- queued, and nobody waits when neither an attempt nor a cleanup is under way.
pub run-Inv : (refcount : ℕ → ℕ) (events : List Event) → Inv (run (registered refcount) events)
run-Inv refcount events = run_from-Inv (registered refcount) events (registered-Inv refcount)
