-- ===== src/Tests/BssCache.antt =====
-- The cache of access points, run.
use u.Common.{
  ℕ, ◌+◌, ◌-◌, ◌≡◌, ◌≢◌, not, true, false, ◌==◌, refl, Option, some, none, List, [], ◌∷◌, ◌++◌,
  take, arith,
}
use u.Packet.{MacAddress}
use u.Rbtree.{black, red, nil, node, first, leftmost, successor, leave_left}
use u.Rbtree.Remove
use u.Rbtree.Sequence.{to_list}
use u.BssCache.{
  Cache, unlocked, node_of, insert, remove, find, get_aps, purge, deinit, ap_compare, mac_compare,
  compare_bytes,
}
use u.BssCache.Entries.{find_entry}
use u.BssCache.Access.{IsReady}
use u.BssCache.Inserting.{Inserts, entries_with, insert_refines}
use u.BssCache.Removing.{Removes, remove_refines}
use u.BssCache.Listing.{count, get_aps_lem}
use u.BssCache.Purge.{select, purge_lem, deinit_lem}
use u.BssCache.Scanned.{found_after, find-insert, add_scanned, add_scanned_lem}

-- The access points have their addresses for their MAC addresses' last bytes.
abbrev mac_number : ℕ → MacAddress
mac_number a = record { byte0 = 2; byte1 = 0; byte2 = 0; byte3 = 0; byte4 = 0; byte5 = a }

abbrev counts : ℕ → ℕ
counts a = elim (a == 20) [ true ↦ 2 | false ↦ 1 ]

-- Two entries, of which the second is in use elsewhere.
abbrev two_aps : Cache
two_aps = record {
  root = node black nil 10 (node red nil 20 nil);
  entry_count = 2;
  rwlock = unlocked;
  refcount = counts;
  destroyed = [];
}

abbrev entries_of : Option Cache → List ℕ
entries_of none = []
entries_of (some c) = to_list c.root

two_aps-IsReady : IsReady mac_number two_aps
unfolding mac_compare compare_bytes
two_aps-IsReady = record {
  cache = record {
    tree = record { valid = ground arith; sorted = ground arith };
    distinct = ground arith;
    counted = refl;
    held = ground arith;
  };
  free = refl;
}

insert_refines_example : Inserts mac_number 15 two_aps (insert mac_number 15 two_aps)
insert_refines_example = insert_refines mac_number 15 two_aps two_aps-IsReady (omega arith)

remove_refines_example :
    Removes mac_number (mac_number 10) two_aps (remove mac_number (mac_number 10) two_aps)
remove_refines_example = remove_refines mac_number (mac_number 10) two_aps two_aps-IsReady

get_aps_lem_example :
    (c' : Cache) × (get_aps 1 two_aps ≡ some (take 1 (to_list two_aps.root), c'))
    × IsReady mac_number c'
    × (c'.root ≡ two_aps.root)
    × (c'.destroyed ≡ two_aps.destroyed)
    × ((a : ℕ) → c'.refcount a ≡ two_aps.refcount a + count a (take 1 (to_list two_aps.root)))
get_aps_lem_example = get_aps_lem mac_number 1 two_aps two_aps-IsReady

purge_lem_example :
    (c' : Cache) × (purge 2 two_aps ≡ some c')
    × IsReady mac_number c'
    × (to_list c'.root ≡ select (λ n. not (n == 1)) two_aps.refcount (to_list two_aps.root))
    × ((a : ℕ)
        → c'.refcount a
          ≡ two_aps.refcount a
            - count a (select (λ n. n == 1) two_aps.refcount (to_list two_aps.root)))
    × (c'.destroyed
        ≡ two_aps.destroyed ++ select (λ n. n == 1) two_aps.refcount (to_list two_aps.root))
purge_lem_example = purge_lem mac_number 2 two_aps (omega arith) two_aps-IsReady

deinit_lem_example :
    (c' : Cache) × (deinit 2 two_aps ≡ some c')
    × (c'.root ≡ nil)
    × (c'.entry_count ≡ 0)
    × ((a : ℕ) → c'.refcount a ≡ two_aps.refcount a - count a (to_list two_aps.root))
    × (c'.destroyed
        ≡ two_aps.destroyed ++ select (λ n. n == 1) two_aps.refcount (to_list two_aps.root))
deinit_lem_example = deinit_lem mac_number 2 two_aps (omega arith) two_aps-IsReady

find-insert_example :
    (c1 c2 : Cache) × (insert mac_number 15 two_aps ≡ some c1)
    × (find mac_number (mac_number 15) c1
        ≡ some (found_after mac_number 15 (mac_number 15) (to_list two_aps.root), c2))
find-insert_example =
    find-insert mac_number 15 (mac_number 15) two_aps two_aps-IsReady (omega arith)

add_scanned_lem_example :
    (c' : Cache) × (add_scanned mac_number 15 two_aps ≡ some c')
    × (to_list c'.root ≡ entries_with mac_number 15 (to_list two_aps.root))
    × (c'.refcount 15 ≡ (elim (find_entry (ap_compare mac_number 15) (to_list two_aps.root)) [
      | some b ↦ 0
      | none ↦ 1
    ]))
    × ((b : ℕ) → b ≢ 15 → c'.refcount b ≡ two_aps.refcount b)
    × (c'.destroyed ≡ (elim (find_entry (ap_compare mac_number 15) (to_list two_aps.root)) [
      | some b ↦ two_aps.destroyed ++ 15 ∷ []
      | none ↦ two_aps.destroyed
    ]))
add_scanned_lem_example = add_scanned_lem mac_number 15 two_aps two_aps-IsReady refl

-- A purge keeps the entry that is in use.
purge_run : entries_of (purge 2 two_aps) ≡ 20 ∷ []
unfolding purge node_of first leftmost successor leave_left Remove.remove
purge_run = refl
