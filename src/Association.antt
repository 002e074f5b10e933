-- ===== src/Association.antt =====
-- The association state machine of src/association.c: the part of `struct u80211_device`
-- (include/u80211/u80211.h) that it keeps, and the device state that it shares with scanning.
pub mod Handlers
pub mod Invariant
pub mod System
pub mod Refs
pub mod Diagram
pub mod Cleanup
pub mod Faults
pub mod Duplicate
pub mod Allocation
use u.Common.{
  ℕ, suc, ◌+◌, ◌-◌, ◌%◌, ◌^◌, Bool, true, false, Option, none, some, List, [], ◌∷◌, ◌==◌,
  if◌then◌else◌, u32,
}
use u.Packet.{MacAddress}

-- The values 0 to 5 of U80211_DEVICE_STATE_….
pub data DeviceState : Type 0 where
  down scanning authenticating associating associated deauthenticating : DeviceState

abbrev pub state_code : DeviceState → ℕ
state_code down = 0
state_code scanning = 1
state_code authenticating = 2
state_code associating = 3
state_code associated = 4
state_code deauthenticating = 5

abbrev pub state_equal : DeviceState → DeviceState → Bool
state_equal a b = state_code a == state_code b

-- A pointer to an access point: its address, and the fields that do not change.
pub record Ap : Type 0 where
  pub address : ℕ
  pub mac_address : MacAddress
  pub channel : ℕ

-- A pointer to an association context: its address, and the fields that the state machine reads.
-- They are set before the context is published.
pub record AssociationContext : Type 0 where
  pub address : ℕ
  pub generation : ℕ
  pub ap : Ap
  pub information_elements : List ℕ

-- A waiter is known by its semaphore. `cleanup_queued` says whether the kernel has a pending request
-- for `association_cleanup_work`; `refcount` is the reference count of each access point.
pub record Device : Type 0 where
  pub state : DeviceState
  pub association_context : Option AssociationContext
  pub association_cleanup_context : Option AssociationContext
  pub association_cleanup_pending : Bool
  pub association_waiters : List ℕ
  pub association_generation : ℕ
  pub association_result : ℕ
  pub ap : Option Ap
  pub disconnected_ap : Option Ap
  pub received_sequence_control : ℕ
  pub received_sequence_control_valid : Bool
  pub refcount : ℕ → ℕ
  pub cleanup_queued : Bool

-- The compare and exchange on the state.
unfoldable pub set_device_state : Device → DeviceState → DeviceState → Bool × Device
set_device_state d old_state new_state =
    if state_equal d.state old_state then (true, record d { state = new_state }) else (false, d)

-- One at the address of an access point, and zero elsewhere.
unfoldable pub one_at : Ap → ℕ → ℕ
one_at a address = if address == a.address then 1 else 0

-- `u80211_ap_hold` and `u80211_ap_release`: the count at the access point's address goes up or down
-- by one. A count that reaches 0 frees the access point.
abbrev pub ap_hold : Device → Ap → Device
ap_hold d a = record d { refcount = λ address. d.refcount address + one_at a address }

abbrev pub ap_release : Device → Ap → Device
ap_release d a = record d { refcount = λ address. d.refcount address - one_at a address }

abbrev pub ap_release_if : Device → Option Ap → Device
ap_release_if d none = d
ap_release_if d (some a) = ap_release d a

-- `++device->association_generation` on an `unsigned int`.
abbrev pub next_generation : Device → Device
next_generation d = record d { association_generation = u32 (suc d.association_generation) }

-- What a handler asks of the rest of the system, in order. A read through a null pointer is a fault.
pub data Effect : Type 0 where
  enqueue_completion : AssociationContext → Effect
  send_association_request : Ap → List ℕ → Effect
  start_association_timeout : AssociationContext → Effect
  signal : ℕ → ℕ → Effect
  null_dereference : Effect
