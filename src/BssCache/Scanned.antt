-- ===== src/BssCache/Scanned.antt =====
-- The cache of src/bss_cache.c as the scan of src/scan.c uses it: an access point that a beacon
-- describes is inserted and released, and is found afterwards.
use u.Common.{
  ℕ, ◌-◌, ◌<◌, ◌≡◌, ◌≢◌, refl, ap, ◌∙◌, Option, none, some, List, [], ◌∷◌, ◌++◌, ◌==◌,
  if◌then◌else◌, arith,
}
use u.Packet.{MacAddress}
use u.Rbtree.{◌>>=◌, Comparison, less, equal, greater}
use u.Rbtree.Order.{insert_sorted}
use u.Rbtree.Sequence.{to_list}
use u.Rbtree.Search.{NoneEqual}
use u.BssCache.{Cache, ap_compare, value_compare, set_count, release_ap, insert, find}
use u.BssCache.Compare.{mac_compare-eq}
use u.BssCache.Entries.{find_entry}
use u.BssCache.Access.{IsReady}
use u.BssCache.Inserting.{entries_with, insert_refines}
use u.BssCache.Finding.{counts_for, find_refines}

-- An insertion before the first entry that is not smaller is found at its own key only.
find_entry-insert_sorted :
    (k p : ℕ → Comparison) (a : ℕ) (xs : List ℕ)
    → (k a ≡ equal → NoneEqual k xs)
    → find_entry k (insert_sorted p a xs)
      ≡ elim (k a) [ equal ↦ some a | less ↦ find_entry k xs | greater ↦ find_entry k xs ]
unfolding find_entry insert_sorted
find_entry-insert_sorted k p a [] h = ground arith
find_entry-insert_sorted k p a (x ∷ xs) h =
    ground (arith, find_entry-insert_sorted k p a xs (λ e. (h e).1), λ (e : k a ≡ equal). (h e).0)

find_entry-missing : (k : ℕ → Comparison) (xs : List ℕ) → find_entry k xs ≡ none → NoneEqual k xs
unfolding find_entry
find_entry-missing k [] e = tt
find_entry-missing k (x ∷ xs) e = (ground (arith, e), find_entry-missing k xs (ground (arith, e)))

module _ (mac_of : ℕ → MacAddress) where
  -- What a lookup finds once an access point was inserted: at its own address the entry that was there
  -- before, or else the access point; at any other address what was found before.
  abbrev pub found_after : ℕ → MacAddress → List ℕ → Option ℕ
  found_after a mac xs = elim (value_compare mac_of mac a) [
    | equal ↦ (elim (find_entry (ap_compare mac_of a) xs) [ some b ↦ some b | none ↦ some a ])
    | less ↦ find_entry (value_compare mac_of mac) xs
    | greater ↦ find_entry (value_compare mac_of mac) xs
  ]

  same_key : (a : ℕ) (mac : MacAddress) → value_compare mac_of mac a ≡ equal → mac ≡ mac_of a
  same_key a mac = (mac_compare-eq mac (mac_of a)).0

  find_entry-same :
      (a : ℕ) (mac : MacAddress) (xs : List ℕ)
      → value_compare mac_of mac a ≡ equal
      → find_entry (value_compare mac_of mac) xs ≡ find_entry (ap_compare mac_of a) xs
  find_entry-same a mac xs e = ap (λ m. find_entry (value_compare mac_of m) xs) (same_key a mac e)

  found_in :
      (a : ℕ) (mac : MacAddress) (xs : List ℕ) (o : Option ℕ)
      → find_entry (ap_compare mac_of a) xs ≡ o
      → find_entry
          (value_compare mac_of mac)
          (elim o [ some b ↦ xs | none ↦ insert_sorted (ap_compare mac_of a) a xs ])
        ≡ elim (value_compare mac_of mac a) [
          | equal ↦ (elim o [ some b ↦ some b | none ↦ some a ])
          | less ↦ find_entry (value_compare mac_of mac) xs
          | greater ↦ find_entry (value_compare mac_of mac) xs
        ]
  found_in a mac xs none f =
      find_entry-insert_sorted (value_compare mac_of mac) (ap_compare mac_of a) a xs
        (λ e. find_entry-missing (value_compare mac_of mac) xs (find_entry-same a mac xs e ∙ f))
  found_in a mac xs (some b) f = ground (arith, f, find_entry-same a mac xs)

  -- In a well-formed cache to which a live access point is inserted, u80211_bss_cache_find finds
  -- it at its address, or the entry that was there before with that address, and finds at any
  -- other address what it found before the insertion.
  pub find-insert :
      (a : ℕ) (mac : MacAddress) (c : Cache)
      → IsReady mac_of c
      → 0 < c.refcount a
      → (c1 c2 : Cache) × (insert mac_of a c ≡ some c1)
        × (find mac_of mac c1 ≡ some (found_after a mac (to_list c.root), c2))
  find-insert a mac c h alive =
      let (c1, inserted, ready, entries, counts, gone) = insert_refines mac_of a c h alive in
      let (found, later) = find_refines mac_of mac c1 ready in
      let value =
        ap (find_entry (value_compare mac_of mac)) entries
        ∙ found_in a mac (to_list c.root) (find_entry (ap_compare mac_of a) (to_list c.root))
            refl in
      let c2 : Cache = record c1 {
        refcount =
            counts_for mac_of (find_entry (value_compare mac_of mac) (to_list c1.root)) c1.refcount;
      } in
      (c1, c2, inserted, found ∙ ap (λ o. some (o, c2)) value)

  -- `u80211_bss_cache_insert` and `u80211_ap_release` on an access point that was just allocated.
  unfoldable pub add_scanned : ℕ → Cache → Option Cache
  add_scanned a c = do c ← insert mac_of a c; release_ap a c

  -- The scan work keeps no reference to an access point and leaks none: one that was just
  -- allocated, with one reference, is inserted and released; then it is an entry with one
  -- reference if no entry had its address, and is destroyed otherwise. No other count changes. For
  -- a well-formed cache.
  pub add_scanned_lem :
      (a : ℕ) (c : Cache)
      → IsReady mac_of c
      → c.refcount a ≡ 1
      → (c' : Cache) × (add_scanned a c ≡ some c')
        × (to_list c'.root ≡ entries_with mac_of a (to_list c.root))
        × (c'.refcount a
            ≡ (elim (find_entry (ap_compare mac_of a) (to_list c.root)) [ some b ↦ 0 | none ↦ 1 ]))
        × ((b : ℕ) → b ≢ a → c'.refcount b ≡ c.refcount b)
        × (c'.destroyed ≡ (elim (find_entry (ap_compare mac_of a) (to_list c.root)) [
          | some b ↦ c.destroyed ++ a ∷ []
          | none ↦ c.destroyed
        ]))
  unfolding add_scanned
  add_scanned_lem a c h one =
      let (c1, inserted, ready, entries, counts, gone) =
        insert_refines mac_of a c h (omega arith) in
      let at = ap (λ (g : ℕ → ℕ). g a) counts in
      let others = λ (b : ℕ). ap (λ (g : ℕ → ℕ). g b) counts in
      (
        record c1 {
          refcount = set_count c1.refcount a (c1.refcount a - 1);
          destroyed = if c1.refcount a == 1 then c1.destroyed ++ a ∷ [] else c1.destroyed;
        },
        rw inserted (ground (arith, one, at)),
        entries,
        ground (arith, one, at),
        λ b differs. ground (arith, differs, others b),
        ground (arith, one, at, gone),
      )
