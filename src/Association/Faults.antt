-- ===== src/Association/Faults.antt =====
-- Reads through null pointers in the association code: where there are none, and where there is one.
use u.Common.{ap, ◌∙◌, ℕ, ◌≡◌, ◌≢◌, refl, ◌⊎◌, true, none, some, [], ◌∷◌, arith}
use u.Packet.{MacAddress, mac_address_equal, mac_address_equal_iff}
use u.Association.{
  authenticating, associating, Ap, AssociationContext, Device, enqueue_completion, null_dereference,
}
use u.Association.Handlers.{process_authentication, process_deauthentication, auth_completion_work}
use u.Association.System.{System}
use u.Association.Invariant.{Inv}

-- An authentication frame never makes the device read through a null context, and the completion
-- work is queued exactly when the frame moves the device from authenticating to associating.
pub process_authentication_effects :
    (s : System) (m : MacAddress) (algorithm transaction status : ℕ)
    → Inv s
    → let (d, effects) = process_authentication s.device m algorithm transaction status in
      ((effects ≡ []) × (d.state ≢ associating ⊎ (s.device.state ≡ associating)))
      ⊎ ((c : AssociationContext) × (s.device.association_context ≡ some c)
          × (effects ≡ enqueue_completion c ∷ [])
          × (s.device.state ≡ authenticating)
          × (d.state ≡ associating))
unfolding process_authentication
process_authentication_effects s m algorithm transaction status v = ground arith

-- a frame with the access point's own address passes the test of the sender
from_ap : (a : Ap) → mac_address_equal a.mac_address a.mac_address ≡ true
from_ap a = (mac_address_equal_iff a.mac_address a.mac_address).1 refl

accepted :
    (d : Device) (a : Ap) (c : AssociationContext)
    → d.state ≡ authenticating
    → d.ap ≡ some a
    → d.association_context ≡ some c
    → process_authentication d a.mac_address 0 2 0
      ≡ (record d { state = associating }, enqueue_completion c ∷ [])
unfolding process_authentication
accepted d a c st ha hc = let same = from_ap a in ground arith

torn_down :
    (d : Device) (a : Ap) (c : AssociationContext)
    → d.state ≡ associating
    → d.ap ≡ some a
    → d.association_context ≡ some c
    → (process_deauthentication d a.mac_address).ap ≡ none
unfolding process_deauthentication
torn_down d a c st ha hc = let same = from_ap a in ground arith

no_ap :
    (d : Device) (c : AssociationContext)
    → d.ap ≡ none
    → auth_completion_work d c ≡ null_dereference ∷ []
unfolding auth_completion_work
no_ap d c h = ground arith

-- In a system that satisfies the invariant and authenticates, a deauthentication from the access
-- point that comes after its successful authentication and before the completion work leaves the
-- work to read through a null pointer.
pub auth_completion_work_fault :
    (s : System) (a : Ap) (c : AssociationContext)
    → Inv s
    → s.device.state ≡ authenticating
    → s.device.ap ≡ some a
    → s.device.association_context ≡ some c
    → let (d, effects) = process_authentication s.device a.mac_address 0 2 0 in
      (effects ≡ enqueue_completion c ∷ [])
      × (auth_completion_work (process_deauthentication d a.mac_address) c ≡ null_dereference ∷ [])
auth_completion_work_fault s a c v st ha hc =
    let eq = accepted s.device a c st ha hc in
    (
      ap (λ r. r.1) eq,
      ap (λ r. auth_completion_work (process_deauthentication r.0 a.mac_address) c) eq
          ∙ no_ap (process_deauthentication (record s.device { state = associating }) a.mac_address)
              c (torn_down (record s.device { state = associating }) a c refl ha hc),
    )
