-- ===== src/Key/Identity.antt =====
-- The list of keys holds one key for an identity at most.
use u.Common.{
  ℕ, suc, ◌+◌, ◌-◌, ◌≤◌, ◌≡◌, ◌≢◌, refl, ◌⊎◌, inl, inr, Bool, true, false, Option, none, some, List,
  [], ◌∷◌, if◌then◌else◌, Bool-cases, length, status_success, arith,
}
use u.Packet.{MacAddress, mac_address_equal_iff}
use u.Key.{Key, KeyMetadata, KeyDevice}
use u.Key.Table.{
  key_identity_equal, remove_first, new_metadata, destroy_if_found, set_key, del_key, find_first,
}

-- How many keys of the list have an identity.
unfoldable pub identity_count : ℕ → MacAddress → ℕ → List KeyMetadata → ℕ
identity_count index peer flags [] = 0
identity_count index peer flags (m ∷ keys) =
    (if key_identity_equal m index peer flags then 1 else 0) + identity_count index peer flags keys

-- No identity has two keys.
abbrev pub IsUnique : List KeyMetadata → Type 0
IsUnique keys =
    (index : ℕ) (peer : MacAddress) (flags : ℕ) → identity_count index peer flags keys ≤ 1

identity_of :
    (m : KeyMetadata) (i : ℕ) (p : MacAddress) (f : ℕ)
    → key_identity_equal m i p f ≡ true
    → (m.index ≡ i) × (m.peer ≡ p) × (m.flags ≡ f)
unfolding key_identity_equal
identity_of m i p f e = ground (arith, mac_address_equal_iff m.peer p)

pub key_identity_equal_self : (m : KeyMetadata) → key_identity_equal m m.index m.peer m.flags ≡ true
unfolding key_identity_equal
key_identity_equal_self m = ground (arith, mac_address_equal_iff m.peer m.peer)

module _ (i : ℕ) (p : MacAddress) (f : ℕ) where
  abbrev has_identity : KeyMetadata → Bool
  has_identity m = key_identity_equal m i p f

  count-remove_first_self :
      (keys : List KeyMetadata)
      → identity_count i p f (remove_first has_identity keys).1 ≡ identity_count i p f keys - 1
  unfolding identity_count remove_first
  count-remove_first_self [] = omega arith
  count-remove_first_self (m ∷ keys) = ground (arith, count-remove_first_self keys)

  count-remove_first_le :
      (j : ℕ) (q : MacAddress) (g : ℕ) (keys : List KeyMetadata)
      → identity_count j q g (remove_first has_identity keys).1 ≤ identity_count j q g keys
  unfolding identity_count remove_first
  count-remove_first_le j q g [] = omega arith
  count-remove_first_le j q g (m ∷ keys) = ground (arith, count-remove_first_le j q g keys)

-- The list that `u80211_set_key` leaves when it succeeds.
module _ (new : KeyMetadata) (keys : List KeyMetadata) where
  abbrev replaced : List KeyMetadata
  replaced = new ∷ (remove_first (has_identity new.index new.peer new.flags) keys).1

  count-replaced_self : IsUnique keys → identity_count new.index new.peer new.flags replaced ≡ 1
  unfolding identity_count
  count-replaced_self u = rw (key_identity_equal_self new) (
      omega (
        arith,
        count-remove_first_self new.index new.peer new.flags keys,
        u new.index new.peer new.flags,
      ))

  count-replaced_same :
      {j : ℕ} {q : MacAddress} {g : ℕ}
      → IsUnique keys
      → (new.index ≡ j) × (new.peer ≡ q) × (new.flags ≡ g)
      → identity_count j q g replaced ≤ 1
  count-replaced_same u (a, b, c) = rw (← a, ← b, ← c) (omega (arith, count-replaced_self u))

  count-replaced_other :
      (j : ℕ) (q : MacAddress) (g : ℕ)
      → key_identity_equal new j q g ≡ false
      → identity_count j q g replaced ≤ identity_count j q g keys
  unfolding identity_count
  count-replaced_other j q g e =
      rw e (omega (arith, count-remove_first_le new.index new.peer new.flags j q g keys))

  replaced-IsUnique :
      IsUnique keys → (j : ℕ) (q : MacAddress) (g : ℕ) → identity_count j q g replaced ≤ 1
  replaced-IsUnique u j q g = elim (Bool-cases (key_identity_equal new j q g)) [
    | inl e ↦ count-replaced_same u (identity_of new j q g e)
    | inr e ↦ omega (arith, count-replaced_other j q g e, u j q g)
  ]

remove_first-account :
    (test : KeyMetadata → Bool) (keys : List KeyMetadata)
    → length (destroy_if_found (remove_first test keys).0) + length (remove_first test keys).1
      ≡ length keys
unfolding remove_first
remove_first-account test [] = omega arith
remove_first-account test (m ∷ keys) = ground (arith, remove_first-account test keys)

-- Installing a key never gives an identity (index, peer and flags) two keys, whatever the driver
-- and the allocator answer.
pub set_key-IsUnique :
    (op : Option (Key → ℕ)) (allocated : Bool) (device : KeyDevice) (key : Key)
    → IsUnique device.keys
    → IsUnique (set_key op allocated device key).device.keys
unfolding set_key new_metadata
set_key-IsUnique none allocated device key u j q g = u j q g
set_key-IsUnique (some op) allocated device key u j q g =
    ground (arith, u j q g, replaced-IsUnique (new_metadata key) device.keys u j q g)

-- Deleting a key never gives an identity two keys either.
pub del_key-IsUnique :
    (op : Option (ℕ → MacAddress → ℕ → ℕ)) (device : KeyDevice) (i : ℕ) (p : MacAddress) (f : ℕ)
    → IsUnique device.keys
    → IsUnique (del_key op device i p f).device.keys
unfolding del_key
del_key-IsUnique none device i p f u j q g = u j q g
del_key-IsUnique (some op) device i p f u j q g =
    ground (arith, u j q g, count-remove_first_le i p f j q g device.keys)

-- A call that reports success has made the given key the one key of its identity and the first of
-- the list, with a transmit packet number of zero, and it has destroyed as many records as the
-- list lost; a call that fails leaves the device as it was. The list holds one key for an identity
-- at most when the call starts.
pub set_key_lem :
    (op : Option (Key → ℕ)) (allocated : Bool) (device : KeyDevice) (key : Key)
    → IsUnique device.keys
    → let out = set_key op allocated device key in
      ((out.status ≡ status_success)
        × (find_first (λ m. key_identity_equal m key.index key.peer key.flags) out.device.keys
            ≡ some (new_metadata key))
        × (identity_count key.index key.peer key.flags out.device.keys ≡ 1)
        × (length out.destroyed + length out.device.keys ≡ suc (length device.keys)))
      ⊎ ((out.status ≢ status_success) × (out.device ≡ device))
unfolding set_key new_metadata find_first
set_key_lem none allocated device key u = inr (omega arith, refl)
set_key_lem (some op) allocated device key u = ground (
  arith,
  key_identity_equal_self (new_metadata key),
  count-replaced_self (new_metadata key) device.keys u,
  remove_first-account (λ m. key_identity_equal m key.index key.peer key.flags) device.keys,
)

-- After a deletion that reports success, no key has the identity, and the driver and the list
-- agree on it; a call that fails leaves the device as it was. The list holds one key for an
-- identity at most when the call starts.
pub del_key_lem :
    (op : Option (ℕ → MacAddress → ℕ → ℕ)) (device : KeyDevice) (i : ℕ) (p : MacAddress) (f : ℕ)
    → IsUnique device.keys
    → let out = del_key op device i p f in
      ((out.status ≡ status_success)
        × (identity_count i p f out.device.keys ≡ 0)
        × (length out.destroyed + length out.device.keys ≡ length device.keys))
      ⊎ ((out.status ≢ status_success) × (out.device ≡ device) × (out.destroyed ≡ []))
unfolding del_key
del_key_lem none device i p f u = inr (omega arith, refl, refl)
del_key_lem (some op) device i p f u = ground (
  arith,
  u i p f,
  count-remove_first_self i p f device.keys,
  remove_first-account (has_identity i p f) device.keys,
)
