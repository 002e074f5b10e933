-- ===== src/Association/Refs.antt =====
-- The references that the association code holds on access points.
use u.Common.{ℕ, ◌+◌, ◌≤◌, Option, none, some, List, [], ◌∷◌, arith}
use u.Packet.{MacAddress}
use u.Association.{
  DeviceState, associated, deauthenticating, Ap, AssociationContext, set_device_state, one_at,
}
use u.Association.Handlers.{
  process_deauthentication, process_disassociation, process_response, auth_timeout, assoc_timeout,
  process_authentication, release_disconnected_ap, associate_begin, deauthenticate_begin,
  deauthenticate_finish, wait_begin,
}
use u.Association.System.{
  CleanupWork, idle, taken, released, System, Event, start_cleanup, continue_cleanup, end_cleanup,
  step, run,
}
use u.Association.Invariant.{Inv, step-Inv, registered-Inv, registered}

module _ (x : ℕ) where
  -- A reference on the access point at the address `x`.
  abbrev one : Option Ap → ℕ
  one none = 0
  one (some a) = one_at a x

  abbrev of_context : Option AssociationContext → ℕ
  of_context none = 0
  of_context (some c) = one_at c.ap x

  -- The device itself holds one only while it is associated, or leaving.
  abbrev of_device : DeviceState → Option Ap → ℕ
  of_device associated a = one a
  of_device deauthenticating a = one a
  of_device _ a = 0

  -- What the cleanup still has to release.
  abbrev of_cleanup : CleanupWork → Option AssociationContext → ℕ
  of_cleanup idle c = of_context c
  of_cleanup (taken none d) c = of_context c + one d
  of_cleanup (taken (some k) d) c = of_context c + one d
  of_cleanup (released none) c = of_context c
  of_cleanup (released (some k)) c = 0

  abbrev owned_at : System → ℕ
  owned_at s =
      of_context s.device.association_context
      + of_device s.device.state s.device.ap
      + one s.device.disconnected_ap
      + of_cleanup s.cleanup s.device.association_cleanup_context

-- How many references on the access point at an address the association code has to give back.
abbrev pub owned : System → ℕ → ℕ
owned s x = owned_at x s

-- Each of them is counted, above those that others hold.
abbrev pub IsCounted : (ℕ → ℕ) → System → ℕ → Type 0
IsCounted others s x = others x + owned s x ≤ s.device.refcount x

module _ (others : ℕ → ℕ) (s : System) (x : ℕ) (v : Inv s) (h : IsCounted others s x) where
  authentication-IsCounted :
      (m : MacAddress) (a t status : ℕ)
      → IsCounted others (step s (Event.authentication m a t status)) x
  unfolding step process_authentication
  authentication-IsCounted m a t status = ground (arith, v)

  response-IsCounted :
      (m : MacAddress) (status : ℕ) → IsCounted others (step s (Event.response m status)) x
  unfolding step process_response
  response-IsCounted m status = ground (arith, v)

  deauthentication-IsCounted :
      (m : MacAddress) → IsCounted others (step s (Event.deauthentication m)) x
  unfolding step process_deauthentication
  deauthentication-IsCounted m = ground (arith, v)

  disassociation-IsCounted : (m : MacAddress) → IsCounted others (step s (Event.disassociation m)) x
  unfolding step process_disassociation
  disassociation-IsCounted m = ground (arith, v)

  authentication_timeout-IsCounted :
      (c : ℕ) → IsCounted others (step s (Event.authentication_timeout c)) x
  unfolding step auth_timeout
  authentication_timeout-IsCounted c = ground (arith, v)

  response_timeout-IsCounted : (c : ℕ) → IsCounted others (step s (Event.response_timeout c)) x
  unfolding step assoc_timeout
  response_timeout-IsCounted c = ground (arith, v)

  associate-IsCounted :
      (address : ℕ) (a : Ap) (bytes : List ℕ)
      → IsCounted others (step s (Event.associate address a bytes)) x
  unfolding step associate_begin
  associate-IsCounted address a bytes = ground (arith, v)

  release_disconnected-IsCounted : IsCounted others (step s Event.release_disconnected) x
  unfolding step release_disconnected_ap
  release_disconnected-IsCounted = ground (arith, v)

  disassociate_begin-IsCounted : IsCounted others (step s Event.disassociate_begin) x
  unfolding step deauthenticate_begin
  disassociate_begin-IsCounted = ground (arith, v)

  disassociate_end-IsCounted : IsCounted others (step s Event.disassociate_end) x
  unfolding step deauthenticate_finish
  disassociate_end-IsCounted = ground (arith, v)

  wait-IsCounted : (semaphore : ℕ) → IsCounted others (step s (Event.wait semaphore)) x
  unfolding step wait_begin
  wait-IsCounted semaphore = ground (arith, v)

  cleanup_take-IsCounted : IsCounted others (step s Event.cleanup_take) x
  unfolding step start_cleanup
  cleanup_take-IsCounted = ground (arith, v)

  cleanup_free-IsCounted : IsCounted others (step s Event.cleanup_free) x
  unfolding step continue_cleanup
  cleanup_free-IsCounted = ground (arith, v)

  cleanup_end-IsCounted : IsCounted others (step s Event.cleanup_end) x
  unfolding step end_cleanup
  cleanup_end-IsCounted = ground (arith, v)

  scan_begin-IsCounted : IsCounted others (step s Event.scan_begin) x
  unfolding step set_device_state
  scan_begin-IsCounted = ground (arith, v)

  scan_end-IsCounted : IsCounted others (step s Event.scan_end) x
  unfolding step set_device_state
  scan_end-IsCounted = ground (arith, v)

pub step-IsCounted :
    (others : ℕ → ℕ) (s : System) (e : Event) (x : ℕ)
    → Inv s
    → IsCounted others s x
    → IsCounted others (step s e) x
step-IsCounted o s (Event.authentication m a t status) x v h =
    authentication-IsCounted o s x v h m a t status
step-IsCounted o s (Event.response m status) x v h = response-IsCounted o s x v h m status
step-IsCounted o s (Event.deauthentication m) x v h = deauthentication-IsCounted o s x v h m
step-IsCounted o s (Event.disassociation m) x v h = disassociation-IsCounted o s x v h m
step-IsCounted o s (Event.authentication_timeout c) x v h =
    authentication_timeout-IsCounted o s x v h c
step-IsCounted o s (Event.response_timeout c) x v h = response_timeout-IsCounted o s x v h c
step-IsCounted o s (Event.associate address a bytes) x v h =
    associate-IsCounted o s x v h address a bytes
step-IsCounted o s Event.release_disconnected x v h = release_disconnected-IsCounted o s x v h
step-IsCounted o s Event.disassociate_begin x v h = disassociate_begin-IsCounted o s x v h
step-IsCounted o s Event.disassociate_end x v h = disassociate_end-IsCounted o s x v h
step-IsCounted o s (Event.wait semaphore) x v h = wait-IsCounted o s x v h semaphore
step-IsCounted o s Event.cleanup_take x v h = cleanup_take-IsCounted o s x v h
step-IsCounted o s Event.cleanup_free x v h = cleanup_free-IsCounted o s x v h
step-IsCounted o s Event.cleanup_end x v h = cleanup_end-IsCounted o s x v h
step-IsCounted o s Event.scan_begin x v h = scan_begin-IsCounted o s x v h
step-IsCounted o s Event.scan_end x v h = scan_end-IsCounted o s x v h

run_from-IsCounted :
    (others : ℕ → ℕ) (s : System) (events : List Event) (x : ℕ)
    → Inv s
    → IsCounted others s x
    → IsCounted others (run s events) x
unfolding run
run_from-IsCounted o s [] x v h = h
run_from-IsCounted o s (e ∷ events) x v h =
    run_from-IsCounted o (step s e) events x (step-Inv s e v) (step-IsCounted o s e x v h)

-- No reference is given back early: in every interleaving, an access point's count is at least what
-- others held on it at registration plus what the association code still has to give back.
pub run-IsCounted :
    (others : ℕ → ℕ) (events : List Event) (x : ℕ)
    → others x + owned (run (registered others) events) x
      ≤ (run (registered others) events).device.refcount x
unfolding registered
run-IsCounted others events x =
    run_from-IsCounted others (registered others) events x (registered-Inv others) (omega arith)
