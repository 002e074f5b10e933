-- ===== src/BssCache/Purge.antt =====
-- The loops over all entries of src/bss_cache.c that remove some of them.
use u.Common.{
  ℕ, zero, suc, ◌-◌, ◌≤◌, ◌≡◌, refl, sym, ap, ap₂, subst, ◌∙◌, Bool, true, false, not, ◌&&◌,
  Bool-cases, inl, inr, Option, none, some, List, [], ◌∷◌, ◌++◌, ◌==◌, if◌then◌else◌, length, arith,
}
use mathlib.Core.List.{append-nil, append_assoc}
use u.Packet.{MacAddress}
use u.Rbtree.{Tree, nil, Node, tree_of, first, successor}
use u.Rbtree.Sequence.{to_list, values_before, values_after}
use u.Rbtree.Sequence.Neighbours.{IsNext, first-IsNext, successor-IsNext}
use u.Rbtree.Search.{NoneEqual}
use u.BssCache.{
  unlocked, no_lock, exclusive, Cache, ap_compare, set_count, node_of, ap_of, drop_entry,
  drop_where, purge, deinit,
}
use u.BssCache.Entries.{Distinct, Distinct-others, IsCache}
use u.BssCache.Access.{IsReady, drop_entry-Dropped}
use u.BssCache.Listing.{count}
use u.BssCache.Pointers.{differ, node_of_lem}

-- The access points whose count passes the test.
unfoldable pub select : (ℕ → Bool) → (ℕ → ℕ) → List ℕ → List ℕ
select test refcount [] = []
select test refcount (x ∷ xs) =
    let rest = select test refcount xs in if test (refcount x) then x ∷ rest else rest

select-all : (r : ℕ → ℕ) (xs : List ℕ) → select (λ n. true) r xs ≡ xs
unfolding select
select-all r [] = refl
select-all r (x ∷ xs) = ap (λ z. x ∷ z) (select-all r xs)

select-nothing : (r : ℕ → ℕ) (xs : List ℕ) → select (λ n. false) r xs ≡ []
unfolding select
select-nothing r [] = refl
select-nothing r (x ∷ xs) = select-nothing r xs

select-twice :
    (test : ℕ → Bool) (r : ℕ → ℕ) (xs : List ℕ)
    → select (λ n. test n && test n) r xs ≡ select test r xs
unfolding select
select-twice test r [] = refl
select-twice test r (x ∷ xs) = ground (arith, select-twice test r xs)

abbrev head : List ℕ → Option ℕ
head [] = none
head (x ∷ xs) = some x

module _ (mac_of : ℕ → MacAddress) where
  -- The counts of the later entries are not touched by the removal of one.
  select-other :
      (test : ℕ → Bool) (r : ℕ → ℕ) (y n : ℕ) (ys : List ℕ)
      → NoneEqual (ap_compare mac_of y) ys
      → select test (set_count r y n) ys ≡ select test r ys
  unfolding select
  select-other test r y n [] h = refl
  select-other test r y n (x ∷ ys) h =
      ground (arith, differ mac_of y x h.0, select-other test r y n ys h.1)

  -- What the loop leaves: the entries that fail the test, and the others released.
  abbrev Drops : (ℕ → Bool) → List ℕ → List ℕ → Cache → Option Cache → Type 0
  Drops test xs ys c result =
      (c' : Cache) × (result ≡ some c')
      × IsCache mac_of c'.root c'.entry_count c'.refcount
      × (to_list c'.root ≡ xs ++ select (λ n. not (test n)) c.refcount ys)
      × ((a : ℕ) → c'.refcount a ≡ c.refcount a - count a (select test c.refcount ys))
      × (c'.destroyed ≡ c.destroyed ++ select (λ n. test n && n == 1) c.refcount ys)
      × (c'.rwlock ≡ c.rwlock)

  next_head :
      (t : Tree ℕ) (xs ys : List ℕ) (o : Option (Node ℕ)) → IsNext t xs ys o → ap_of o ≡ head ys
  next_head t xs ys none h = rw h refl
  next_head t xs ys (some n) h = rw (← h.2) refl

  Drops-keep :
      (test : ℕ → Bool) (xs : List ℕ) (y : ℕ) (ys : List ℕ) (c : Cache) (result : Option Cache)
      → test (c.refcount y) ≡ false
      → Drops test (xs ++ y ∷ []) ys c result
      → Drops test xs (y ∷ ys) c result
  unfolding select
  Drops-keep test xs y ys c result k (c', e, ready, values, counts, gone, lock) = (
    c',
    e,
    ready,
    values ∙ rw k (simp append_assoc),
    λ a. counts a ∙ rw k refl,
    gone ∙ rw k refl,
    lock,
  )

  Drops-drop :
      (test : ℕ → Bool) (xs : List ℕ) (y : ℕ) (ys : List ℕ) (c c1 : Cache) (result : Option Cache)
      → test (c.refcount y) ≡ true
      → NoneEqual (ap_compare mac_of y) ys
      → c1.refcount ≡ set_count c.refcount y (c.refcount y - 1)
      → c1.destroyed ≡ (if c.refcount y == 1 then c.destroyed ++ y ∷ [] else c.destroyed)
      → c1.rwlock ≡ c.rwlock
      → Drops test xs ys c1 result
      → Drops test xs (y ∷ ys) c result
  unfolding select count
  Drops-drop test xs y ys c c1 result k others r d l (c', e, ready, values, counts, gone, lock) =
      let same = λ (f : ℕ → Bool).
        ap (λ g. select f g ys) r ∙ select-other f c.refcount y (c.refcount y - 1) ys others in
      (
        c',
        e,
        ready,
        values ∙ rw k (ap (λ z. xs ++ z) (same (λ n. not (test n)))),
        λ a. counts a ∙ ground (arith, k, same test, ap (λ (g : ℕ → ℕ). g a) r),
        gone
            ∙ ground (
              arith,
              k,
              d,
              same (λ n. test n && n == 1),
              append_assoc c.destroyed (y ∷ []) (select (λ n. test n && n == 1) c.refcount ys),
            ),
        lock ∙ l,
      )

  drop_where-end :
      (test : ℕ → Bool) (rounds : ℕ) (c : Cache) → drop_where test rounds none c ≡ some c
  unfolding drop_where
  drop_where-end test rounds c = refl

  step_keep :
      (test : ℕ → Bool) (rounds y : ℕ) (c : Cache) (n : Node ℕ) (next : Option ℕ)
      → node_of y c.root [] ≡ some n
      → ap_of (successor n) ≡ next
      → test (c.refcount y) ≡ false
      → drop_where test (suc rounds) (some y) c ≡ drop_where test rounds next c
  unfolding drop_where
  step_keep test rounds y c n next at e k = rw at (rw k (rw e refl))

  step_drop :
      (test : ℕ → Bool) (rounds y : ℕ) (c : Cache) (n : Node ℕ) (next : Option ℕ) (c1 : Cache)
      → node_of y c.root [] ≡ some n
      → ap_of (successor n) ≡ next
      → test (c.refcount y) ≡ true
      → drop_entry n c ≡ some c1
      → drop_where test (suc rounds) (some y) c ≡ drop_where test rounds next c1
  unfolding drop_where
  step_drop test rounds y c n next c1 at e k d = rw at (rw k (rw d (rw e refl)))

  nothing-Drops :
      (test : ℕ → Bool) (xs : List ℕ) (c : Cache)
      → IsCache mac_of c.root c.entry_count c.refcount
      → to_list c.root ≡ xs ++ []
      → Drops test xs [] c (some c)
  unfolding select count
  nothing-Drops test xs c h e =
      (c, refl, h, e, λ a. omega arith, sym (append-nil c.destroyed), refl)

  -- The loop visits each entry once, in as many rounds as there are entries.
  drop_where-Drops :
      (test : ℕ → Bool) (xs ys : List ℕ) (rounds : ℕ) (c : Cache)
      → length ys ≤ rounds
      → IsCache mac_of c.root c.entry_count c.refcount
      → to_list c.root ≡ xs ++ ys
      → Drops test xs ys c (drop_where test rounds (head ys) c)
  drop_where-Drops test xs [] rounds c enough h e =
      subst (Drops test xs [] c) (sym (drop_where-end test rounds c)) (nothing-Drops test xs c h e)
  drop_where-Drops test xs (y ∷ ys) zero c enough h e = absurd (omega arith)
  drop_where-Drops test xs (y ∷ ys) (suc rounds) c enough h e =
      let (n, at, t, v, b, a) = node_of_lem mac_of c.root xs y ys h.distinct e in
      let next =
        next_head (tree_of n) (values_before n ++ n.value ∷ []) (values_after n) (successor n)
          (successor-IsNext n)
        ∙ ap head a in
      elim (Bool-cases (test (c.refcount y))) [
        | inl k ↦
            let (c1, dropped, (cache, values, r, d, l)) = drop_entry-Dropped mac_of n c t h in
            let rest =
              drop_where-Drops test xs ys rounds c1 (omega arith) cache
                (values ∙ ap₂ (λ p q. p ++ q) b a) in
            subst (Drops test xs (y ∷ ys) c)
              (sym (step_drop test rounds y c n (head ys) c1 at next k dropped))
              (Drops-drop test xs y ys c c1 (drop_where test rounds (head ys) c1) k
                (Distinct-others mac_of xs y ys (subst (Distinct mac_of) e h.distinct)).1
                (r ∙ ap (λ z. set_count c.refcount z (c.refcount z - 1)) v)
                (d ∙ ap (λ z. if c.refcount z == 1 then c.destroyed ++ z ∷ [] else c.destroyed) v) l
                rest)
        | inr k ↦
            let rest =
              drop_where-Drops test (xs ++ y ∷ []) ys rounds c (omega arith) h
                (e ∙ simp append_assoc) in
            subst (Drops test xs (y ∷ ys) c) (sym (step_keep test rounds y c n (head ys) at next k))
              (Drops-keep test xs y ys c (drop_where test rounds (head ys) c) k rest)
      ]

  first-head : (root : Tree ℕ) → ap_of (first root) ≡ head (to_list root)
  first-head root = next_head root [] (to_list root) (first root) (first-IsNext root)

  -- u80211_bss_cache_purge on a well-formed cache ends, in no more rounds than there are entries:
  -- it removes exactly the entries whose count is 1, destroys these access points in their order,
  -- and keeps the others in theirs with their counts. The cache stays well-formed.
  pub purge_lem :
      (rounds : ℕ) (c : Cache)
      → length (to_list c.root) ≤ rounds
      → IsReady mac_of c
      → (c' : Cache) × (purge rounds c ≡ some c')
        × IsReady mac_of c'
        × (to_list c'.root ≡ select (λ n. not (n == 1)) c.refcount (to_list c.root))
        × ((a : ℕ)
            → c'.refcount a
              ≡ c.refcount a - count a (select (λ n. n == 1) c.refcount (to_list c.root)))
        × (c'.destroyed ≡ c.destroyed ++ select (λ n. n == 1) c.refcount (to_list c.root))
  unfolding purge
  purge_lem rounds c enough h =
      let (c', e, cache, values, counts, gone, lock) =
        drop_where-Drops (λ n. n == 1) [] (to_list c.root) rounds (record c { rwlock = exclusive })
          enough h.cache refl in
      (
        record c' { rwlock = unlocked },
        ground (arith, h.free, first-head c.root, e),
        record { cache = cache; free = refl },
        values,
        counts,
        gone ∙ ap (λ z. c.destroyed ++ z) (select-twice (λ n. n == 1) c.refcount (to_list c.root)),
      )

  -- u80211_bss_cache_deinit on a well-formed cache ends, in no more rounds than there are entries:
  -- it releases the reference of each entry once, destroys in their order the access points that
  -- nothing else refers to, and leaves no entry and a count of 0.
  pub deinit_lem :
      (rounds : ℕ) (c : Cache)
      → length (to_list c.root) ≤ rounds
      → IsReady mac_of c
      → (c' : Cache) × (deinit rounds c ≡ some c')
        × (c'.root ≡ nil)
        × (c'.entry_count ≡ 0)
        × ((a : ℕ) → c'.refcount a ≡ c.refcount a - count a (to_list c.root))
        × (c'.destroyed ≡ c.destroyed ++ select (λ n. n == 1) c.refcount (to_list c.root))
  unfolding deinit
  deinit_lem rounds c enough h =
      let (c', e, cache, values, counts, gone, lock) =
        drop_where-Drops (λ n. true) [] (to_list c.root) rounds (record c { rwlock = exclusive })
          enough h.cache refl in
      (
        record c' { rwlock = no_lock; root = nil },
        ground (arith, h.free, first-head c.root, e),
        refl,
        cache.counted ∙ ap length (values ∙ select-nothing c.refcount (to_list c.root)),
        λ a. counts a ∙ ap (λ z. c.refcount a - count a z) (select-all c.refcount (to_list c.root)),
        gone,
      )
