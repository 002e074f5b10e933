-- ===== src/Association/Handlers.antt =====
-- The handlers of src/association.c. What runs between taking and releasing the association spinlock
-- is one function, and so is each stretch of code outside it.
use u.Common.{
  ℕ, Bool, true, false, not, ◌&&◌, ◌||◌, Option, none, some, List, [], ◌∷◌, ◌++◌, ◌==◌,
  if◌then◌else◌, is_some, status_unknown_error, status_rejected, status_success, status_timed_out,
  status_busy, status_not_associated,
}
use u.Packet.{MacAddress, mac_address_equal}
use u.Association.{
  DeviceState, down, authenticating, associating, associated, deauthenticating, state_equal, Ap,
  AssociationContext, Device, set_device_state, ap_hold, ap_release, ap_release_if, next_generation,
  Effect, enqueue_completion, send_association_request, start_association_timeout, signal,
  null_dereference,
}

-- `u80211_kernel_enqueue_work(device->association_cleanup_work, …)`.
abbrev pub enqueue_cleanup : Device → Device
enqueue_cleanup d = record d { cleanup_queued = true }

unfoldable pub schedule_association_cleanup : Device → Option AssociationContext → Device
schedule_association_cleanup d context = record d {
  association_context = none;
  association_cleanup_context = context;
  association_cleanup_pending = true;
}

-- `device->ap && u80211_mac_address_equal(&device->ap->mac_address, address)`.
abbrev pub is_current_ap : Option Ap → MacAddress → Bool
is_current_ap none address = false
is_current_ap (some a) address = mac_address_equal a.mac_address address

-- The call of `u80211_set_device_state` cannot fail: the state was read under the same lock.
unfoldable pub association_process_teardown : Device → MacAddress → Bool → Device
unfolding schedule_association_cleanup set_device_state
association_process_teardown d address deauthentication =
    let state = d.state in
    let attempt_in_progress = state_equal state authenticating || state_equal state associating in
    if not (is_current_ap d.ap address)
    then d
    else (if not (state_equal state associated) && (not deauthentication || not attempt_in_progress)
        then d
        else (let (changed, d1) = set_device_state d state down in
            if not changed
            then d1
            else (if attempt_in_progress
                then elim d1.association_context [
                  | none ↦ d1
                  | some context ↦
                      let d2 = schedule_association_cleanup d1 (some context) in
                      enqueue_cleanup (
                        next_generation
                          (record d2 { association_result = status_rejected; ap = none }))
                ]
                else enqueue_cleanup
                    (next_generation (record d1 { disconnected_ap = d1.ap; ap = none })))))

unfoldable pub process_deauthentication : Device → MacAddress → Device
unfolding association_process_teardown
process_deauthentication d address = association_process_teardown d address true

unfoldable pub process_disassociation : Device → MacAddress → Device
unfolding association_process_teardown
process_disassociation d address = association_process_teardown d address false

-- `address` and `status` of the association response.
unfoldable pub process_response : Device → MacAddress → ℕ → Device
unfolding schedule_association_cleanup set_device_state
process_response d address status = elim d.association_context [
  | none ↦ d
  | some context ↦ elim d.ap [
    | none ↦ d
    | some a ↦
        if not (mac_address_equal context.ap.mac_address address)
        then d
        else (let new_state = if status == 0 then associated else down in
            let (changed, d1) = set_device_state d associating new_state in
            if not changed
            then d
            else (let d2 = if status == 0 then ap_hold d1 a else record d1 { ap = none } in
                let d3 = next_generation (schedule_association_cleanup d2 (some context)) in
                enqueue_cleanup (record d3 {
                  association_result = if status == 0 then status_success else status_rejected;
                })))
  ]
]

-- The timer hands over a pointer to the context, `address`. Where it is the device's current context
-- that is the object read, and elsewhere the function leaves before it reads the generation.
unfoldable pub association_timeout : Device → ℕ → DeviceState → Device
unfolding schedule_association_cleanup set_device_state
association_timeout d address expected_state = elim d.association_context [
  | none ↦ d
  | some context ↦
      if not (context.address == address)
        || (not (is_some d.ap) || not (d.association_generation == context.generation))
      then d
      else (let (changed, d1) = set_device_state d expected_state down in
          if not changed
          then d
          else (let d2 = schedule_association_cleanup (record d1 { ap = none }) (some context) in
              enqueue_cleanup
                (record (next_generation d2) { association_result = status_timed_out })))
]

unfoldable pub auth_timeout : Device → ℕ → Device
unfolding association_timeout
auth_timeout d address = association_timeout d address authenticating

unfoldable pub assoc_timeout : Device → ℕ → Device
unfolding association_timeout
assoc_timeout d address = association_timeout d address associating

-- The algorithm, the transaction number and the status of the authentication frame.
unfoldable pub process_authentication : Device → MacAddress → ℕ → ℕ → ℕ → Device × List Effect
unfolding schedule_association_cleanup set_device_state
process_authentication d address algorithm transaction status =
    if not (is_current_ap d.ap address)
    then (d, [])
    else (if not (algorithm == 0) || not (transaction == 2)
        then (d, [])
        else (if not (status == 0)
            then (let (changed, d1) = set_device_state d authenticating down in
                if not changed
                then (d, [])
                else (let d2 =
                      schedule_association_cleanup (record d1 { ap = none })
                        d1.association_context in
                    (
                      enqueue_cleanup
                          (record (next_generation d2) { association_result = status_rejected }),
                      [],
                    )))
            else (let (changed, d1) = set_device_state d authenticating associating in
                if not changed then (d, []) else elim d1.association_context [
                  | none ↦ (d1, null_dereference ∷ [])
                  | some context ↦ (d1, enqueue_completion context ∷ [])
                ])))

-- The work that a successful authentication starts. It takes no lock, and
-- `u80211_send_association_request` reads the access point through `device->ap`.
unfoldable pub auth_completion_work : Device → AssociationContext → List Effect
auth_completion_work d context = elim d.ap [
  | none ↦ null_dereference ∷ []
  | some a ↦
      send_association_request a context.information_elements
      ∷ start_association_timeout context
      ∷ []
]

-- The two locked sections of `cleanup_association` and what it does between them. The first takes
-- the context, which stays in the device, and the disconnected access point.
unfoldable pub cleanup_begin : Device → Option AssociationContext × Option Ap × Device
cleanup_begin d =
    (d.association_cleanup_context, d.disconnected_ap, record d { disconnected_ap = none })

unfoldable pub cleanup_release : Device → Option AssociationContext → Option Ap → Device
cleanup_release d none disconnected_ap = ap_release_if d disconnected_ap
cleanup_release d (some context) disconnected_ap =
    ap_release_if (ap_release d context.ap) disconnected_ap

-- The loop that wakes the waiters, first come first.
unfoldable pub wake_association_waiters : List ℕ → ℕ → List Effect
wake_association_waiters [] result = []
wake_association_waiters (waiter ∷ waiters) result =
    signal waiter result ∷ wake_association_waiters waiters result

unfoldable pub cleanup_finish : Device → Option AssociationContext → Device × List Effect
unfolding wake_association_waiters
cleanup_finish d none = (d, [])
cleanup_finish d (some context) = (
  record d {
    association_cleanup_context = none;
    association_cleanup_pending = false;
    association_waiters = [];
  },
  wake_association_waiters d.association_waiters d.association_result,
)

unfoldable pub release_disconnected_ap : Device → Device
release_disconnected_ap d = ap_release_if (record d { disconnected_ap = none }) d.disconnected_ap

-- The locked section of `u80211_associate`: the context that was allocated at `address` for the
-- access point `a` is published, or the call reports that the device is busy.
unfoldable pub associate_begin : Device → ℕ → Ap → List ℕ → Device × ℕ
unfolding set_device_state
associate_begin d address a information_elements =
    if d.association_cleanup_pending
    then (d, status_busy)
    else (let (changed, d1) = set_device_state d down authenticating in
        if not changed
        then (d, status_busy)
        else (let context : AssociationContext = record {
          address = address;
          generation = d.association_generation;
          ap = a;
          information_elements = information_elements;
        } in
            (
              ap_hold
                  (record d1 {
                    association_context = some context;
                    association_result = status_unknown_error;
                    ap = some a;
                    received_sequence_control = 0;
                    received_sequence_control_valid = false;
                  })
                  a,
              status_success,
            )))

-- The first locked section of `u80211_deauthenticate`. The address to send to is that of the
-- current access point.
unfoldable pub deauthenticate_begin : Device → Device × ℕ
unfolding set_device_state
deauthenticate_begin d =
    if not (is_some d.ap) || not (state_equal d.state associated)
    then (d, status_not_associated)
    else (let (changed, d1) = set_device_state d associated deauthenticating in
        if not changed then (d, status_not_associated) else (d1, status_success))

-- The second locked section, and the release that follows it.
unfoldable pub deauthenticate_finish : Device → Device
unfolding set_device_state
deauthenticate_finish d = elim d.ap [
  | none ↦ d
  | some a ↦
      if state_equal d.state deauthenticating
      then ap_release
          (set_device_state (next_generation (record d { ap = none })) deauthenticating down).1 a
      else d
]

-- The locked section of `u80211_wait_for_association_completion`: the result, or `none` where the
-- caller goes to sleep on its semaphore.
unfoldable pub wait_begin : Device → ℕ → Device × Option ℕ
wait_begin d semaphore =
    if not (state_equal d.state authenticating)
      && (not (state_equal d.state associating) && not d.association_cleanup_pending)
    then (d, some d.association_result)
    else (record d { association_waiters = d.association_waiters ++ (semaphore ∷ []) }, none)
