-- ===== src/BssCache.antt =====
-- The cache of access points, src/bss_cache.c with include/u80211/bss_cache.h: a red-black tree of
-- access points by address, with a reference for each of its entries (include/u80211/ap.h). An access
-- point is the address of its structure, whose MAC address never changes: `mac_of` reads it. `none`
-- stands for an access through a null pointer or to freed memory, and for a lock that is taken twice.
pub mod Compare
pub mod Entries
pub mod Access
pub mod Inserting
pub mod Removing
pub mod Finding
pub mod Pointers
pub mod Scanned
pub mod Listing
pub mod Purge
use u.Common.{
  ℕ, zero, suc, ◌+◌, ◌-◌, ◌^◌, Bool, true, Option, none, some, List, [], ◌∷◌, ◌++◌, ltb, ◌==◌,
  if◌then◌else◌,
}
use u.Packet.{MacAddress, mac_bytes}
use u.Rbtree.{
  ◌>>=◌, Tree, nil, node, Comparison, less, equal, greater, Side, left, right, Frame, frame, Node,
  first, successor, lookup,
}
use u.Rbtree.Insert
use u.Rbtree.Remove

-- The loop over the bytes of two addresses.
unfoldable pub compare_bytes : List ℕ → List ℕ → Comparison
compare_bytes [] bs = equal
compare_bytes (a ∷ rest_a) [] = equal
compare_bytes (a ∷ rest_a) (b ∷ bs) =
    let rest = compare_bytes rest_a bs in
    if ltb a b then less else (if ltb b a then greater else rest)

unfoldable pub mac_compare : MacAddress → MacAddress → Comparison
unfolding compare_bytes
mac_compare a b = compare_bytes (mac_bytes a) (mac_bytes b)

-- `no_lock` is the null pointer, after the lock was freed. A null lock is never acquired.
pub data Lock : Type 0 where
  unlocked shared exclusive no_lock : Lock

-- `bss_cache_t`, with the reference counts of the access points and those that were destroyed.
pub record Cache : Type 0 where
  pub root : Tree ℕ
  pub entry_count : ℕ
  pub rwlock : Lock
  pub refcount : ℕ → ℕ
  pub destroyed : List ℕ

abbrev pub acquire_shared : Cache → Option Cache
acquire_shared c = elim c.rwlock [
  | unlocked ↦ some (record c { rwlock = shared })
  | shared ↦ none
  | exclusive ↦ none
  | no_lock ↦ none
]

abbrev pub acquire_exclusive : Cache → Option Cache
acquire_exclusive c = elim c.rwlock [
  | unlocked ↦ some (record c { rwlock = exclusive })
  | shared ↦ none
  | exclusive ↦ none
  | no_lock ↦ none
]

abbrev pub release_lock : Cache → Cache
release_lock c = record c { rwlock = unlocked }

abbrev pub set_count : (ℕ → ℕ) → ℕ → ℕ → ℕ → ℕ
set_count refcount a n b = if b == a then n else refcount b

-- A structure whose count has come to 0 is freed, and may not be accessed.
abbrev pub hold_ap : ℕ → Cache → Option Cache
hold_ap a c =
    if c.refcount a == 0
    then none
    else some (record c { refcount = set_count c.refcount a (c.refcount a + 1) })

abbrev pub release_ap : ℕ → Cache → Option Cache
release_ap a c =
    if c.refcount a == 0
    then none
    else (let c' = record c { refcount = set_count c.refcount a (c.refcount a - 1) } in
        if c.refcount a == 1
        then some (record c' { destroyed = c.destroyed ++ (a ∷ []) })
        else some c')

-- `--cache->entry_count` on a `size_t`.
abbrev pub decrement : ℕ → ℕ
decrement n = if n == 0 then 2 ^ 64 - 1 else n - 1

-- The node of an access point, where a pointer to it leads.
unfoldable pub node_of : ℕ → Tree ℕ → List (Frame ℕ) → Option (Node ℕ)
node_of a nil p = none
node_of a (node c l x r) p = elim (node_of a l (frame left c x r ∷ p)) [
  | some n ↦ some n
  | none ↦
      (let further = node_of a r (frame right c x l ∷ p) in
        if x == a
        then some (record { colour = c; left_child = l; value = x; right_child = r; parents = p })
        else further)
]

-- `container_of` on a node pointer that may be null.
abbrev pub ap_of : Option (Node ℕ) → Option ℕ
ap_of none = none
ap_of (some n) = some n.value

-- The removal of an entry by its node, and the release of its reference.
unfoldable pub drop_entry : Node ℕ → Cache → Option Cache
drop_entry n c = do
  root ← Remove.remove n
  release_ap n.value (record c { root = root; entry_count = decrement c.entry_count })

module _ (mac_of : ℕ → MacAddress) where
  abbrev pub ap_compare : ℕ → ℕ → Comparison
  ap_compare a b = mac_compare (mac_of a) (mac_of b)

  abbrev pub value_compare : MacAddress → ℕ → Comparison
  value_compare mac b = mac_compare mac (mac_of b)

  -- The count is a `size_t`, which is not cut at 2 ^ 64 here: there are fewer entries in memory.
  unfoldable pub insert : ℕ → Cache → Option Cache
  insert ap c = do
    c ← acquire_exclusive c
    elim (lookup (value_compare (mac_of ap)) c.root) [
      | some n ↦ some (release_lock c)
      | none ↦ (do
        root ← Insert.insert ap_compare ap c.root
        c ← hold_ap ap (record c { root = root })
        some (release_lock (record c { entry_count = c.entry_count + 1 })))
    ]

  unfoldable pub remove : MacAddress → Cache → Option Cache
  unfolding drop_entry
  remove mac c = do
    c ← acquire_exclusive c
    elim (lookup (value_compare mac) c.root) [
      | none ↦ some (release_lock c)
      | some n ↦ (do c ← drop_entry n c; some (release_lock c))
    ]

  -- The access point that is found, with a reference for the caller.
  unfoldable pub find : MacAddress → Cache → Option (Option ℕ × Cache)
  find mac c = do
    c ← acquire_shared c
    elim (lookup (value_compare mac) c.root) [
      | none ↦ some (none, release_lock c)
      | some n ↦ (do c ← hold_ap n.value c; some (some n.value, release_lock c))
    ]

-- The loop that fills the caller's buffer, with the room that is left.
unfoldable pub collect : ℕ → Option (Node ℕ) → Cache → Option (List ℕ × Cache)
collect zero iterator c = some ([], c)
collect (suc room) none c = some ([], c)
collect (suc room) (some n) c = do
  c ← hold_ap n.value c
  (aps, c) ← collect room (successor n) c
  some (n.value ∷ aps, c)

unfoldable pub get_aps : ℕ → Cache → Option (List ℕ × Cache)
unfolding collect
get_aps capacity c = do
  c ← acquire_shared c
  (aps, c) ← collect capacity (first c.root) c
  some (aps, release_lock c)

unfoldable pub get_count : Cache → Option (ℕ × Cache)
get_count c = do c ← acquire_shared c; some (c.entry_count, release_lock c)

-- The loops over all entries, which read the next node before they remove one. The fuel counts the
-- rounds; `none` also stands for its end.
unfoldable pub drop_where : (ℕ → Bool) → ℕ → Option ℕ → Cache → Option Cache
unfolding drop_entry
drop_where test rounds none c = some c
drop_where test zero (some ap) c = none
drop_where test (suc rounds) (some ap) c = do
  n ← node_of ap c.root []
  let next = ap_of (successor n)
  c ← (if test (c.refcount ap) then drop_entry n c else some c)
  drop_where test rounds next c

unfoldable pub purge : ℕ → Cache → Option Cache
unfolding drop_where
purge rounds c = do
  c ← acquire_exclusive c
  c ← drop_where (λ count. count == 1) rounds (ap_of (first c.root)) c
  some (release_lock c)

-- The lock is freed and the root cleared at the end.
unfoldable pub deinit : ℕ → Cache → Option Cache
unfolding drop_where
deinit rounds c = do
  c ← acquire_exclusive c
  c ← drop_where (λ count. true) rounds (ap_of (first c.root)) c
  some (record c { rwlock = no_lock; root = nil })
