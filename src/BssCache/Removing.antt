-- ===== src/BssCache/Removing.antt =====
-- u80211_bss_cache_remove of src/bss_cache.c refines the removal from a map.
use u.Common.{
  ℕ, ◌-◌, ◌≡◌, inl, inr, refl, sym, ◌∙◌, Option, none, some, List, [], ◌∷◌, ◌++◌, ◌==◌,
  if◌then◌else◌, arith,
}
use u.Packet.{MacAddress}
use u.Rbtree.Sequence.{to_list}
use u.BssCache.{unlocked, exclusive, Cache, value_compare, set_count, remove}
use u.BssCache.Entries.{find_entry, erase_entry, find_entry-none, erase_entry-none}
use u.BssCache.Access.{IsReady, Hit, Miss, lookup_cases, hit_entry, drop_entry-Dropped}

module _ (mac_of : ℕ → MacAddress) where
  abbrev pub counts_without : Option ℕ → (ℕ → ℕ) → ℕ → ℕ
  counts_without none refcount = refcount
  counts_without (some a) refcount = set_count refcount a (refcount a - 1)

  -- The last reference to an access point destroys it.
  abbrev pub destroyed_with : Option ℕ → (ℕ → ℕ) → List ℕ → List ℕ
  destroyed_with none refcount destroyed = destroyed
  destroyed_with (some a) refcount destroyed =
      if refcount a == 1 then destroyed ++ a ∷ [] else destroyed

  -- A removal takes the entry with the address out, if there is one, and releases its reference.
  abbrev pub Removes : MacAddress → Cache → Option Cache → Type 0
  Removes mac c result =
      let entry = find_entry (value_compare mac_of mac) (to_list c.root) in
      (c' : Cache) × (result ≡ some c')
      × IsReady mac_of c'
      × (to_list c'.root ≡ erase_entry (value_compare mac_of mac) (to_list c.root))
      × (c'.refcount ≡ counts_without entry c.refcount)
      × (c'.destroyed ≡ destroyed_with entry c.refcount c.destroyed)

  remove-absent :
      (mac : MacAddress) (c : Cache)
      → IsReady mac_of c
      → Miss mac_of mac c.root
      → Removes mac c (remove mac_of mac c)
  unfolding remove
  remove-absent mac c h (e, absent) =
      let k = value_compare mac_of mac in
      let missing = find_entry-none k (to_list c.root) absent in
      (
        record c { rwlock = unlocked },
        ground (arith, h.free, e),
        record { cache = h.cache; free = refl },
        sym (erase_entry-none k (to_list c.root) absent),
        rw missing refl,
        rw missing refl,
      )

  remove-present :
      (mac : MacAddress) (c : Cache)
      → IsReady mac_of c
      → Hit mac_of mac c.root
      → Removes mac c (remove mac_of mac c)
  unfolding remove
  remove-present mac c h (n, e, t, m) =
      let (found, erased, alive) = hit_entry mac_of mac c.root n h.cache t m in
      let (c', dropped, (cache, values, counts, gone, lock)) =
        drop_entry-Dropped mac_of n (record c { rwlock = exclusive }) t h.cache in
      (
        record c' { rwlock = unlocked },
        ground (arith, h.free, e, dropped),
        record { cache = cache; free = refl },
        values ∙ sym erased,
        rw found counts,
        rw found gone,
      )

  -- u80211_bss_cache_remove on a well-formed cache takes and releases the lock and succeeds; it
  -- takes out the entry with the address, if there is one, and releases its reference, which
  -- destroys the access point if it was the last one; all else stays. The cache stays well-formed.
  pub remove_refines :
      (mac : MacAddress) (c : Cache) → IsReady mac_of c → Removes mac c (remove mac_of mac c)
  remove_refines mac c h = elim (lookup_cases mac_of mac c.root h.cache) [
    | inl miss ↦ remove-absent mac c h miss
    | inr hit ↦ remove-present mac c h hit
  ]
