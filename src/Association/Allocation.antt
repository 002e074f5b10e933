-- ===== src/Association/Allocation.antt =====
-- `u80211_associate` of src/association.c: what it allocates and frees around its locked section.
use u.Common.{
  ℕ, ◌≡◌, Bool, true, false, not, Option, none, some, List, [], ◌∷◌, ◌++◌, ◌==◌, if◌then◌else◌, ltb,
  length, arith, status_success, status_enomem, status_not_enough_space,
}
use u.Association.{Ap, Device}
use u.Association.Handlers.{associate_begin, release_disconnected_ap}

-- ASSOCIATION_INFORMATION_ELEMENTS_MAX_SIZE.
abbrev pub information_elements_max_size : ℕ
information_elements_max_size = 1024

pub data Resource : Type 0 where
  context completion_work auth_timeout_work auth_timeout_timer : Resource
  assoc_timeout_work assoc_timeout_timer elements : Resource

-- The calls in their order. `set_channel`, `send_authentication` and `start_timeout` are what the
-- function does after its locked section.
pub data Call : Type 0 where
  allocated : Resource → Call
  freed : Resource → Call
  set_channel : ℕ → Call
  send_authentication : Ap → Call
  start_timeout : Call

unfoldable pub destroy_association_context : ℕ → List Call
destroy_association_context size =
    let rest = freed context ∷ [] in
    freed auth_timeout_timer
    ∷ freed assoc_timeout_timer
    ∷ freed completion_work
    ∷ freed auth_timeout_work
    ∷ freed assoc_timeout_work
    ∷ (if size == 0 then rest else freed elements ∷ rest)

-- `available` says of each allocation whether the kernel has the memory for it. The result says
-- whether the context is complete.
unfoldable pub allocate_context : (Resource → Bool) → ℕ → Bool × List Call
unfolding destroy_association_context
allocate_context available size =
    if not (available context)
    then (false, [])
    else (if not (available completion_work)
        then (false, allocated context ∷ freed context ∷ [])
        else (if not (available auth_timeout_work)
            then (
              false,
              allocated context
                  ∷ allocated completion_work
                  ∷ freed completion_work
                  ∷ freed context
                  ∷ [],
            )
            else (if not (available auth_timeout_timer)
                then (
                  false,
                  allocated context
                      ∷ allocated completion_work
                      ∷ allocated auth_timeout_work
                      ∷ freed auth_timeout_work
                      ∷ freed completion_work
                      ∷ freed context
                      ∷ [],
                )
                else (if not (available assoc_timeout_work)
                    then (
                      false,
                      allocated context
                          ∷ allocated completion_work
                          ∷ allocated auth_timeout_work
                          ∷ allocated auth_timeout_timer
                          ∷ freed auth_timeout_timer
                          ∷ freed auth_timeout_work
                          ∷ freed completion_work
                          ∷ freed context
                          ∷ [],
                    )
                    else (if not (available assoc_timeout_timer)
                        then (
                          false,
                          allocated context
                              ∷ allocated completion_work
                              ∷ allocated auth_timeout_work
                              ∷ allocated auth_timeout_timer
                              ∷ allocated assoc_timeout_work
                              ∷ freed assoc_timeout_work
                              ∷ freed auth_timeout_timer
                              ∷ freed auth_timeout_work
                              ∷ freed completion_work
                              ∷ freed context
                              ∷ [],
                        )
                        else (let made =
                              allocated context
                              ∷ allocated completion_work
                              ∷ allocated auth_timeout_work
                              ∷ allocated auth_timeout_timer
                              ∷ allocated assoc_timeout_work
                              ∷ allocated assoc_timeout_timer
                              ∷ [] in
                            if size == 0
                            then (true, made)
                            else (if not (available elements)
                                then (false, made ++ destroy_association_context 0)
                                else (true, made ++ (allocated elements ∷ [])))))))))

-- The status, the device that is left, and the calls. `address` is where the context is allocated.
unfoldable pub associate : (Resource → Bool) → Device → ℕ → Ap → List ℕ → ℕ × Device × List Call
unfolding destroy_association_context allocate_context release_disconnected_ap associate_begin
associate available d address a information_elements =
    let size = length information_elements in
    if ltb information_elements_max_size size
    then (status_not_enough_space, d, [])
    else (let d1 = release_disconnected_ap d in
        let (complete, calls) = allocate_context available size in
        if not complete
        then (status_enomem, d1, calls)
        else (let (d2, status) = associate_begin d1 address a information_elements in
            if status == status_success
            then (
              status_success,
              d2,
              calls ++ (set_channel a.channel ∷ send_authentication a ∷ start_timeout ∷ []),
            )
            else (status, d2, calls ++ destroy_association_context size)))

-- What the calls leave of one resource: `none` where one of them allocates it twice or frees
-- it when it is not allocated.
abbrev pub resource_code : Resource → ℕ
resource_code context = 0
resource_code completion_work = 1
resource_code auth_timeout_work = 2
resource_code auth_timeout_timer = 3
resource_code assoc_timeout_work = 4
resource_code assoc_timeout_timer = 5
resource_code elements = 6

unfoldable pub live_after : Resource → Bool → List Call → Option Bool
live_after r live [] = some live
live_after r live (allocated x ∷ calls) =
    let rest = live_after r true calls in
    let other = live_after r live calls in
    if resource_code x == resource_code r then (if live then none else rest) else other
live_after r live (freed x ∷ calls) =
    let rest = live_after r false calls in
    let other = live_after r live calls in
    if resource_code x == resource_code r then (if live then rest else none) else other
live_after r live (set_channel c ∷ calls) = live_after r live calls
live_after r live (send_authentication a ∷ calls) = live_after r live calls
live_after r live (start_timeout ∷ calls) = live_after r live calls

-- The information elements are allocated only where there are some.
abbrev pub is_wanted : Resource → ℕ → Bool
is_wanted r size = if resource_code r == 6 then not (size == 0) else true

-- An association attempt frees what it allocates on each of its error paths, in whichever allocation
-- it fails, and no resource twice; where it succeeds it holds every resource of the context.
pub associate-live :
    (available : Resource → Bool) (d : Device) (address : ℕ) (a : Ap)
    (information_elements : List ℕ) (r : Resource)
    → let (status, d1, calls) = associate available d address a information_elements in
      live_after r false calls
      ≡ some (if status == status_success then is_wanted r (length information_elements) else false)
unfolding associate live_after allocate_context destroy_association_context
associate-live available d address a information_elements r = ground arith
