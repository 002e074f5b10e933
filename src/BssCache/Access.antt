-- ===== src/BssCache/Access.antt =====
-- How the operations of src/bss_cache.c come to an entry: the lookup in the tree, and the removal by a
-- node.
use u.Common.{
  ℕ, ◌-◌, ◌<◌, ◌≡◌, ◌⊎◌, inl, inr, refl, sym, ap, subst, ◌∙◌, Option, none, some, List, [], ◌∷◌,
  ◌++◌, ◌==◌, if◌then◌else◌, length, length-append, arith,
}
use u.Packet.{MacAddress}
use u.Rbtree.{Tree, Node, tree_of, lookup}
use u.Rbtree.Order.Laws.{at_most-Follows, probe-Sweeps, remove-IsSearchTree}
use u.Rbtree.Sequence.{to_list, to_list-tree_of, values_before, values_after}
use u.Rbtree.Search.{NoneEqual, Finds, lookup-Finds}
use u.BssCache.{
  unlocked, Cache, mac_compare, ap_compare, value_compare, set_count, decrement, drop_entry,
}
use u.BssCache.Compare.{mac_compare-eq, mac_compare-IsOrder}
use u.BssCache.Entries.{
  find_entry, erase_entry, find_entry-some, erase_entry-some, AllHeld, AllHeld-split, Distinct,
  Distinct-others, without_entry, IsCache,
}

counted_less :
    {count : ℕ} {all : List ℕ} (left xs : List ℕ) (y : ℕ) (ys : List ℕ)
    → count ≡ length all
    → all ≡ xs ++ y ∷ ys
    → left ≡ xs ++ ys
    → decrement count ≡ length left
counted_less left xs y ys h e v =
    ground (arith, ap length e, ap length v, length-append xs (y ∷ ys), length-append xs ys)

module _ (mac_of : ℕ → MacAddress) where
  -- The cache between two operations.
  pub record IsReady (c : Cache) : Type 0 where
    pub cache : IsCache mac_of c.root c.entry_count c.refcount
    pub free : c.rwlock ≡ unlocked

  -- A node of the tree with the address that is looked for, or no entry with it.
  abbrev pub Hit : MacAddress → Tree ℕ → Type 0
  Hit mac root =
      (n : Node ℕ) × (lookup (value_compare mac_of mac) root ≡ some n)
      × (tree_of n ≡ root)
      × (mac ≡ mac_of n.value)

  abbrev pub Miss : MacAddress → Tree ℕ → Type 0
  Miss mac root =
      (lookup (value_compare mac_of mac) root ≡ none)
      × NoneEqual (value_compare mac_of mac) (to_list root)

  lookup_result :
      (mac : MacAddress) (root : Tree ℕ) (o : Option (Node ℕ))
      → lookup (value_compare mac_of mac) root ≡ o
      → Finds (value_compare mac_of mac) root (to_list root) o
      → Miss mac root ⊎ Hit mac root
  lookup_result mac root none e f = inl (e, f)
  lookup_result mac root (some n) e f = inr (n, e, f.0, (mac_compare-eq mac (mac_of n.value)).0 f.1)

  pub lookup_cases :
      (mac : MacAddress) (root : Tree ℕ) {count : ℕ} {refcount : ℕ → ℕ}
      → IsCache mac_of root count refcount
      → Miss mac root ⊎ Hit mac root
  lookup_cases mac root h = lookup_result mac root (lookup (value_compare mac_of mac) root) refl (
      lookup-Finds (value_compare mac_of mac) root (
        probe-Sweeps (ap_compare mac_of) (value_compare mac_of mac)
          (λ x y. at_most-Follows mac_compare mac_compare-IsOrder mac (mac_of x) (mac_of y))
          (to_list root) h.tree.sorted))

  -- The removal of an entry by its node: the entry's reference is released and the others stay.
  abbrev pub Dropped : Node ℕ → Cache → Cache → Type 0
  Dropped n c c' =
      IsCache mac_of c'.root c'.entry_count c'.refcount
      × (to_list c'.root ≡ values_before n ++ values_after n)
      × (c'.refcount ≡ set_count c.refcount n.value (c.refcount n.value - 1))
      × (c'.destroyed
          ≡ (if c.refcount n.value == 1 then c.destroyed ++ n.value ∷ [] else c.destroyed))
      × (c'.rwlock ≡ c.rwlock)

  pub drop_entry-Dropped :
      (n : Node ℕ) (c : Cache)
      → tree_of n ≡ c.root
      → IsCache mac_of c.root c.entry_count c.refcount
      → (c' : Cache) × (drop_entry n c ≡ some c') × Dropped n c c'
  unfolding drop_entry
  drop_entry-Dropped n c e h =
      let (root, removed, search, values) =
        remove-IsSearchTree (ap_compare mac_of) n (rw e h.tree) in
      let all = ap to_list (sym e) ∙ to_list-tree_of n in
      let (distinct, held) =
        without_entry mac_of c.refcount (c.refcount n.value - 1) (values_before n) n.value
          (values_after n) (subst (Distinct mac_of) all h.distinct)
          (subst (AllHeld c.refcount) all h.held) in
      let alive =
        (AllHeld-split c.refcount (values_before n) n.value (values_after n)
          (subst (AllHeld c.refcount) all h.held)).1 in
      (
        record {
          root = root;
          entry_count = decrement c.entry_count;
          rwlock = c.rwlock;
          refcount = set_count c.refcount n.value (c.refcount n.value - 1);
          destroyed = if c.refcount n.value == 1 then c.destroyed ++ n.value ∷ [] else c.destroyed;
        },
        rw removed (ground (arith, alive)),
        (
          record {
            tree = search;
            distinct = subst (Distinct mac_of) (sym values) distinct;
            counted =
                counted_less (to_list root) (values_before n) n.value (values_after n) h.counted all
                  values;
            held =
                subst (AllHeld (set_count c.refcount n.value (c.refcount n.value - 1))) (sym values)
                  held;
          },
          values,
          refl,
          refl,
          refl,
        ),
      )

  -- The entry that a lookup finds is the first one, and the only one, with the address.
  pub hit_entry :
      (mac : MacAddress) (root : Tree ℕ) {count : ℕ} {refcount : ℕ → ℕ} (n : Node ℕ)
      → IsCache mac_of root count refcount
      → tree_of n ≡ root
      → mac ≡ mac_of n.value
      → (find_entry (value_compare mac_of mac) (to_list root) ≡ some n.value)
        × (erase_entry (value_compare mac_of mac) (to_list root)
            ≡ values_before n ++ values_after n)
        × (0 < refcount n.value)
  hit_entry mac root {count} {refcount} n h e m =
      let all = ap to_list (sym e) ∙ to_list-tree_of n in
      let k = value_compare mac_of mac in
      let others =
        (Distinct-others mac_of (values_before n) n.value (values_after n)
          (subst (Distinct mac_of) all h.distinct)).0 in
      let none_before =
        subst (λ a. NoneEqual (value_compare mac_of a) (values_before n)) (sym m) others in
      let same = (mac_compare-eq mac (mac_of n.value)).1 m in
      (
        rw all (find_entry-some k (values_before n) n.value (values_after n) none_before same),
        rw all (erase_entry-some k (values_before n) n.value (values_after n) none_before same),
        (AllHeld-split refcount (values_before n) n.value (values_after n)
            (subst (AllHeld refcount) all h.held)).1,
      )
