-- ===== src/Registration.antt =====
-- Registration of a device, src/device.c, with the setup of the parts that it initializes
-- (`u80211_key_state_init` and `u80211_key_state_deinit` of src/key.c, `u80211_bss_cache_init` of
-- src/bss_cache.c).
use u.Common.{
  ℕ, ◌≡◌, Bool, true, false, not, some, List, [], ◌∷◌, ◌++◌, if◌then◌else◌, arith, Result, ok, err,
  status_enomem, ResourceCall, allocated, freed, live_after,
}
use u.Packet.{MacAddress}
use u.Key.{KeyMetadata, KeyDevice}
use u.Association.{Device, ap_release_if}
use u.Association.Invariant.{registered}
use u.Receive.{Station}

pub data Resource : Type 0 where
  device key_spinlock scan_spinlock scan_cleanup_work : Resource
  association_spinlock association_cleanup_work bss_cache_rwlock : Resource

unfoldable pub key_state_init : (Resource → Bool) → Bool × List (ResourceCall Resource)
key_state_init available =
    if available key_spinlock then (true, allocated key_spinlock ∷ []) else (false, [])

-- The keys that are destroyed, and the calls.
unfoldable pub key_state_deinit : KeyDevice → List KeyMetadata × List (ResourceCall Resource)
key_state_deinit keys = (keys.keys, freed key_spinlock ∷ [])

unfoldable pub bss_cache_init : (Resource → Bool) → Bool × List (ResourceCall Resource)
bss_cache_init available =
    if available bss_cache_rwlock then (true, allocated bss_cache_rwlock ∷ []) else (false, [])

-- The device as it is filled in. `refcount` has the reference counts of the access points.
unfoldable pub new_device : (ℕ → ℕ) → MacAddress → Station
unfolding registered
new_device refcount mac_address = record {
  packet_count = 0;
  tx_sequence_control = 0;
  keys = record { mac_address = mac_address; keys = [] };
  association = (registered refcount).device;
}

-- `available` says of each allocation whether the kernel has the memory for it.
unfoldable pub register_device :
    (Resource → Bool) → (ℕ → ℕ) → MacAddress → Result Station × List (ResourceCall Resource)
unfolding key_state_init key_state_deinit bss_cache_init
register_device available refcount mac_address =
    let deinit = (key_state_deinit (record { mac_address = mac_address; keys = [] })).1 in
    if not (available device)
    then (err status_enomem, [])
    else (let (keyed, key_calls) = key_state_init available in
        let made0 = allocated device ∷ key_calls in
        if not keyed
        then (err status_enomem, made0 ++ (freed device ∷ []))
        else (if not (available scan_spinlock)
            then (err status_enomem, made0 ++ (deinit ++ (freed device ∷ [])))
            else (let made1 = made0 ++ (allocated scan_spinlock ∷ []) in
                if not (available scan_cleanup_work)
                then (
                  err status_enomem,
                  made1 ++ (freed scan_spinlock ∷ deinit ++ (freed device ∷ [])),
                )
                else (let made2 = made1 ++ (allocated scan_cleanup_work ∷ []) in
                    if not (available association_spinlock)
                    then (
                      err status_enomem,
                      made2
                          ++ (freed scan_cleanup_work ∷ freed scan_spinlock ∷ deinit
                              ++ (freed device ∷ [])),
                    )
                    else (let made3 = made2 ++ (allocated association_spinlock ∷ []) in
                        if not (available association_cleanup_work)
                        then (
                          err status_enomem,
                          made3
                              ++ (freed association_spinlock
                                    ∷ freed scan_cleanup_work
                                    ∷ freed scan_spinlock
                                    ∷ deinit
                                  ++ (freed device ∷ [])),
                        )
                        else (let made4 = made3 ++ (allocated association_cleanup_work ∷ []) in
                            let (cached, cache_calls) = bss_cache_init available in
                            if not cached
                            then (
                              err status_enomem,
                              made4
                                  ++ cache_calls
                                  ++ (freed association_cleanup_work
                                        ∷ freed association_spinlock
                                        ∷ freed scan_cleanup_work
                                        ∷ freed scan_spinlock
                                        ∷ deinit
                                      ++ (freed device ∷ [])),
                            )
                            else (ok (new_device refcount mac_address), made4 ++ cache_calls)))))))

-- What is left of a device that is unregistered: the keys that are destroyed, the association as it
-- is after the release of the access point that was disconnected last, and the calls. The lock of the
-- cache is freed with it, in `u80211_bss_cache_deinit`.
pub record Unregistered : Type 0 where
  pub destroyed : List KeyMetadata
  pub association : Device
  pub calls : List (ResourceCall Resource)

unfoldable pub unregister_device : Station → Unregistered
unfolding key_state_deinit
unregister_device s =
    let (destroyed, deinit) = key_state_deinit s.keys in
    record {
      destroyed = destroyed;
      association = ap_release_if s.association s.association.disconnected_ap;
      calls =
          deinit
          ++ (freed scan_cleanup_work
              ∷ freed association_cleanup_work
              ∷ freed bss_cache_rwlock
              ∷ freed association_spinlock
              ∷ freed scan_spinlock
              ∷ freed device
              ∷ []);
    }

abbrev pub resource_code : Resource → ℕ
resource_code device = 0
resource_code key_spinlock = 1
resource_code scan_spinlock = 2
resource_code scan_cleanup_work = 3
resource_code association_spinlock = 4
resource_code association_cleanup_work = 5
resource_code bss_cache_rwlock = 6

abbrev pub is_ok : Result Station → Bool
is_ok (ok s) = true
is_ok (err status) = false

-- A registration frees what it allocates on each of its error paths, whichever allocation fails, and
-- nothing twice; where it succeeds it holds each of its seven resources, and unregistering any device
-- that is left then, whatever happened to it, frees every one of them exactly once.
pub register_device-live :
    (available : Resource → Bool) (refcount : ℕ → ℕ) (mac_address : MacAddress) (later : Station)
    (r : Resource)
    → let (result, calls) = register_device available refcount mac_address in
      (live_after resource_code r false calls ≡ some (is_ok result))
      × (live_after resource_code r
            (is_ok result)
            (if is_ok result then (unregister_device later).calls else [])
          ≡ some false)
unfolding register_device unregister_device live_after key_state_init key_state_deinit
    bss_cache_init
register_device-live available refcount mac_address later r = ground arith
