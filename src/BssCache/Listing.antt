-- ===== src/BssCache/Listing.antt =====
-- The listing of the cache of src/bss_cache.c into a caller's buffer, and its number of entries.
use u.Common.{
  ℕ, zero, suc, ◌+◌, ◌≡◌, refl, sym, subst, Option, none, some, List, [], ◌∷◌, ◌++◌, ◌==◌,
  if◌then◌else◌, length, take, arith,
}
use u.Packet.{MacAddress}
use u.Rbtree.{Tree, Node, tree_of, first, successor}
use u.Rbtree.Sequence.{to_list, values_before, values_after}
use u.Rbtree.Sequence.Neighbours.{IsNext, first-IsNext, successor-IsNext}
use u.BssCache.{unlocked, shared, Cache, set_count, collect, get_aps, get_count}
use u.BssCache.Entries.{AllHeld, AllHeld-up}
use u.BssCache.Access.{IsReady}

-- How often an access point stands in a list.
unfoldable pub count : ℕ → List ℕ → ℕ
count a [] = 0
count a (x ∷ xs) = (if a == x then 1 else 0) + count a xs

-- The counts after a reference is taken to each of the access points.
hold_all : List ℕ → (ℕ → ℕ) → ℕ → ℕ
hold_all [] refcount = refcount
hold_all (x ∷ xs) refcount = hold_all xs (set_count refcount x (refcount x + 1))

hold_all_lem :
    (xs : List ℕ) (refcount : ℕ → ℕ) (a : ℕ) → hold_all xs refcount a ≡ refcount a + count a xs
unfolding hold_all count
hold_all_lem [] refcount a = omega arith
hold_all_lem (x ∷ xs) refcount a =
    ground (arith, hold_all_lem xs (set_count refcount x (refcount x + 1)) a)

AllHeld-hold_all :
    (xs : List ℕ) (refcount : ℕ → ℕ) (ys : List ℕ)
    → AllHeld refcount ys
    → AllHeld (hold_all xs refcount) ys
unfolding hold_all
AllHeld-hold_all [] refcount ys h = h
AllHeld-hold_all (x ∷ xs) refcount ys h =
    AllHeld-hold_all xs (set_count refcount x (refcount x + 1)) ys
      (AllHeld-up refcount x (refcount x + 1) ys (omega arith) h)

collect_lem :
    (room : ℕ) (t : Tree ℕ) (xs ys : List ℕ) (o : Option (Node ℕ)) (c : Cache)
    → IsNext t xs ys o
    → AllHeld c.refcount ys
    → collect room o c
      ≡ some (take room ys, record c { refcount = hold_all (take room ys) c.refcount })
unfolding collect hold_all
collect_lem zero t xs ys o c n h = refl
collect_lem (suc room) t xs ys none c n h = rw n refl
collect_lem (suc room) t xs ys (some m) c n h =
    let held = subst (AllHeld c.refcount) (sym n.2) h in
    let c' : Cache = record c {
      refcount = set_count c.refcount m.value (c.refcount m.value + 1);
    } in
    let rest =
      collect_lem room (tree_of m) (values_before m ++ m.value ∷ []) (values_after m) (successor m)
        c' (successor-IsNext m)
        (AllHeld-up c.refcount m.value (c.refcount m.value + 1) (values_after m) (omega arith)
          held.1) in
    rw (← n.2) (ground (arith, held.0, rest))

module _ (mac_of : ℕ → MacAddress) where
  -- u80211_bss_cache_get_aps on a well-formed cache hands out the access points in the order of
  -- their addresses, as many as there is room for, each with one reference more for the caller,
  -- and changes nothing else. The cache stays well-formed.
  pub get_aps_lem :
      (capacity : ℕ) (c : Cache)
      → IsReady mac_of c
      → (c' : Cache) × (get_aps capacity c ≡ some (take capacity (to_list c.root), c'))
        × IsReady mac_of c'
        × (c'.root ≡ c.root)
        × (c'.destroyed ≡ c.destroyed)
        × ((a : ℕ) → c'.refcount a ≡ c.refcount a + count a (take capacity (to_list c.root)))
  unfolding get_aps
  get_aps_lem capacity c h =
      let aps = take capacity (to_list c.root) in
      let loop =
        collect_lem capacity c.root [] (to_list c.root) (first c.root)
          (record c { rwlock = shared }) (first-IsNext c.root) h.cache.held in
      (
        record c { rwlock = unlocked; refcount = hold_all aps c.refcount },
        ground (arith, h.free, loop),
        record {
          cache = record {
            tree = h.cache.tree;
            distinct = h.cache.distinct;
            counted = h.cache.counted;
            held = AllHeld-hold_all aps c.refcount (to_list c.root) h.cache.held;
          };
          free = refl;
        },
        refl,
        refl,
        λ a. hold_all_lem aps c.refcount a,
      )

  -- The number of entries is reported, and nothing changes.
  pub get_count_lem :
      (c : Cache) → IsReady mac_of c → get_count c ≡ some (length (to_list c.root), c)
  unfolding get_count
  get_count_lem c h = ground (arith, h.free, h.cache.counted)
