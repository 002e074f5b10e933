-- ===== src/BssCache/Inserting.antt =====
-- u80211_bss_cache_insert of src/bss_cache.c refines the insertion into a map from addresses to access
-- points, with a reference for each entry.
use u.Common.{
  ℕ, ◌+◌, ◌<◌, ◌≡◌, inl, inr, refl, sym, ap, subst, ◌∙◌, Option, none, some, List, length, arith,
}
use u.Packet.{MacAddress}
use u.Rbtree.Order.{insert_sorted}
use u.Rbtree.Order.Laws.{insert-IsSearchTree}
use u.Rbtree.Sequence.{to_list}
use u.BssCache.{unlocked, Cache, ap_compare, set_count, insert}
use u.BssCache.Compare.{ap_compare-IsOrder}
use u.BssCache.Entries.{
  find_entry, find_entry-none, AllHeld, AllHeld-up, AllHeld-insert, Distinct, Distinct-insert,
  length-insert_sorted,
}
use u.BssCache.Access.{IsReady, Hit, Miss, lookup_cases, hit_entry}

module _ (mac_of : ℕ → MacAddress) where
  -- The map's operations on the entries and on the reference counts.
  abbrev pub entries_with : ℕ → List ℕ → List ℕ
  entries_with a xs = elim (find_entry (ap_compare mac_of a) xs) [
    | some b ↦ xs
    | none ↦ insert_sorted (ap_compare mac_of a) a xs
  ]

  abbrev pub counts_with : ℕ → List ℕ → (ℕ → ℕ) → ℕ → ℕ
  counts_with a xs refcount = elim (find_entry (ap_compare mac_of a) xs) [
    | some b ↦ refcount
    | none ↦ set_count refcount a (refcount a + 1)
  ]

  -- An insertion adds the access point in its place and takes a reference, unless there is an entry with
  -- its address already: then nothing changes.
  abbrev pub Inserts : ℕ → Cache → Option Cache → Type 0
  Inserts a c result =
      (c' : Cache) × (result ≡ some c')
      × IsReady mac_of c'
      × (to_list c'.root ≡ entries_with a (to_list c.root))
      × (c'.refcount ≡ counts_with a (to_list c.root) c.refcount)
      × (c'.destroyed ≡ c.destroyed)

  insert-present :
      (a : ℕ) (c : Cache)
      → IsReady mac_of c
      → Hit mac_of (mac_of a) c.root
      → Inserts a c (insert mac_of a c)
  unfolding insert
  insert-present a c h (n, e, t, m) =
      let found = (hit_entry mac_of (mac_of a) c.root n h.cache t m).0 in
      (
        record c { rwlock = unlocked },
        ground (arith, h.free, e),
        record { cache = h.cache; free = refl },
        ground (arith, found),
        ground (arith, found),
        refl,
      )

  insert-absent :
      (a : ℕ) (c : Cache)
      → IsReady mac_of c
      → 0 < c.refcount a
      → Miss mac_of (mac_of a) c.root
      → Inserts a c (insert mac_of a c)
  unfolding insert
  insert-absent a c h alive (e, absent) =
      let (root, inserted, search, values) =
        insert-IsSearchTree (ap_compare mac_of) (ap_compare-IsOrder mac_of) a c.root h.cache.tree in
      let missing = find_entry-none (ap_compare mac_of a) (to_list c.root) absent in
      let counts = set_count c.refcount a (c.refcount a + 1) in
      (
        record {
          root = root;
          entry_count = c.entry_count + 1;
          rwlock = unlocked;
          refcount = counts;
          destroyed = c.destroyed;
        },
        ground (arith, h.free, e, inserted),
        record {
          cache = record {
            tree = search;
            distinct =
                subst (Distinct mac_of) (sym values)
                  (Distinct-insert mac_of a (to_list c.root) absent h.cache.distinct);
            counted = ground (
              arith,
              h.cache.counted,
              ap length values,
              length-insert_sorted (ap_compare mac_of a) a (to_list c.root),
            );
            held = subst (AllHeld counts) (sym values) (
                AllHeld-insert counts (ap_compare mac_of a) a (to_list c.root) (ground arith) (
                  AllHeld-up c.refcount a (c.refcount a + 1) (to_list c.root) (omega arith)
                    h.cache.held));
          };
          free = refl;
        },
        values ∙ ground (arith, missing),
        ground (arith, missing),
        refl,
      )

  -- u80211_bss_cache_insert on a well-formed cache, with a live access point, takes and releases
  -- the lock and succeeds; where there is an entry with the same address nothing changes, and
  -- otherwise the access point is a new entry in its place among those in the order of their
  -- addresses and has one reference more, no other count changes, and the number of entries stays
  -- right. The cache stays well-formed and no access point is destroyed.
  pub insert_refines :
      (a : ℕ) (c : Cache) → IsReady mac_of c → 0 < c.refcount a → Inserts a c (insert mac_of a c)
  insert_refines a c h alive = elim (lookup_cases mac_of (mac_of a) c.root h.cache) [
    | inl miss ↦ insert-absent a c h alive miss
    | inr hit ↦ insert-present a c h hit
  ]
