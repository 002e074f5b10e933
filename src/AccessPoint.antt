-- ===== src/AccessPoint.antt =====
-- The allocation of access points, src/ap.c, with the reference count of include/u80211/ap.h.
use u.Common.{
  ℕ, ◌≡◌, Bool, false, not, Option, none, some, List, [], ◌∷◌, ◌++◌, ◌==◌, if◌then◌else◌, length,
  arith, ResourceCall, allocated, freed, live_after,
}
use u.Packet.{MacAddress}
use u.Management.Dispatch.{BeaconData}
use u.Scan.Session.{rsn_bytes}

pub data Resource : Type 0 where
  access_point rsn_element : Resource

-- `u80211_ap_t`, but for the node of the cache. `rsn` is `none` for a null pointer.
pub record AccessPoint : Type 0 where
  pub refcount : ℕ
  pub mac_address : MacAddress
  pub interval : ℕ
  pub capabilities : ℕ
  pub channel : ℕ
  pub rate_bitmap : List ℕ
  pub ssid : List ℕ
  pub rsn : Option (List ℕ)

abbrev pub filled_in : BeaconData → Option (List ℕ) → AccessPoint
filled_in b rsn = record {
  refcount = 1;
  mac_address = b.mac_address;
  interval = b.interval;
  capabilities = b.capabilities;
  channel = b.elements.channel;
  rate_bitmap = b.elements.rate_bitmap;
  ssid = b.elements.ssid;
  rsn = rsn;
}

-- `available` says of each allocation whether the kernel has the memory for it.
unfoldable pub ap_allocate :
    (Resource → Bool) → BeaconData → Option AccessPoint × List (ResourceCall Resource)
ap_allocate available b =
    if not (available access_point)
    then (none, [])
    else (if length (rsn_bytes b) == 0
        then (some (filled_in b none), allocated access_point ∷ [])
        else (if not (available rsn_element)
            then (none, allocated access_point ∷ freed access_point ∷ [])
            else (
              some (filled_in b (some (rsn_bytes b))),
              allocated access_point ∷ allocated rsn_element ∷ [],
            )))

unfoldable pub ap_inactive : AccessPoint → List (ResourceCall Resource)
ap_inactive a = elim a.rsn [
  | none ↦ freed access_point ∷ []
  | some bytes ↦ freed rsn_element ∷ freed access_point ∷ []
]

abbrev pub resource_code : Resource → ℕ
resource_code access_point = 0
resource_code rsn_element = 1

-- What the destruction of an access point frees, if there is one.
abbrev pub inactive_calls : Option AccessPoint → List (ResourceCall Resource)
inactive_calls none = []
inactive_calls (some a) = ap_inactive a

-- An access point that is allocated and destroyed leaves no memory behind, and neither does an
-- allocation that fails, whichever of its two parts does.
pub ap_allocate-inactive :
    (available : Resource → Bool) (b : BeaconData) (r : Resource)
    → let (made, calls) = ap_allocate available b in
      live_after resource_code r false (calls ++ inactive_calls made) ≡ some false
unfolding ap_allocate ap_inactive live_after
ap_allocate-inactive available b r = ground arith
