-- ===== src/BssCache/Finding.antt =====
-- u80211_bss_cache_find of src/bss_cache.c refines the lookup in a map.
use u.Common.{ℕ, ◌+◌, ◌≡◌, inl, inr, Option, none, some, arith}
use u.Packet.{MacAddress}
use u.Rbtree.Sequence.{to_list}
use u.BssCache.{Cache, value_compare, set_count, find}
use u.BssCache.Entries.{find_entry, find_entry-none, AllHeld-up}
use u.BssCache.Access.{IsReady, Hit, Miss, lookup_cases, hit_entry}

module _ (mac_of : ℕ → MacAddress) where
  abbrev pub counts_for : Option ℕ → (ℕ → ℕ) → ℕ → ℕ
  counts_for none refcount = refcount
  counts_for (some a) refcount = set_count refcount a (refcount a + 1)

  -- A lookup returns the entry with the address, with a reference for the caller, and changes
  -- nothing else.
  abbrev pub Looks : MacAddress → Cache → Option (Option ℕ × Cache) → Type 0
  Looks mac c result =
      let entry = find_entry (value_compare mac_of mac) (to_list c.root) in
      let c' : Cache = record c { refcount = counts_for entry c.refcount } in
      (result ≡ some (entry, c')) × IsReady mac_of c'

  find-present :
      (mac : MacAddress) (c : Cache)
      → IsReady mac_of c
      → Hit mac_of mac c.root
      → Looks mac c (find mac_of mac c)
  unfolding find
  find-present mac c h (n, e, t, m) =
      let (found, erased, alive) = hit_entry mac_of mac c.root n h.cache t m in
      let counts = set_count c.refcount n.value (c.refcount n.value + 1) in
      (
        ground (arith, h.free, e, found, alive),
        record {
          cache = record {
            tree = h.cache.tree;
            distinct = h.cache.distinct;
            counted = h.cache.counted;
            held = rw found (
                AllHeld-up c.refcount n.value (c.refcount n.value + 1) (to_list c.root)
                  (omega arith) h.cache.held);
          };
          free = h.free;
        },
      )

  find-absent :
      (mac : MacAddress) (c : Cache)
      → IsReady mac_of c
      → Miss mac_of mac c.root
      → Looks mac c (find mac_of mac c)
  unfolding find
  find-absent mac c h (e, absent) =
      let missing = find_entry-none (value_compare mac_of mac) (to_list c.root) absent in
      (
        ground (arith, h.free, e, missing),
        record {
          cache = record {
            tree = h.cache.tree;
            distinct = h.cache.distinct;
            counted = h.cache.counted;
            held = rw missing h.cache.held;
          };
          free = h.free;
        },
      )

  -- A lookup refines that of the map.
  pub find_refines :
      (mac : MacAddress) (c : Cache) → IsReady mac_of c → Looks mac c (find mac_of mac c)
  find_refines mac c h = elim (lookup_cases mac_of mac c.root h.cache) [
    | inl miss ↦ find-absent mac c h miss
    | inr hit ↦ find-present mac c h hit
  ]
