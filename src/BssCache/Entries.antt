-- ===== src/BssCache/Entries.antt =====
-- The entries of the cache of src/bss_cache.c as a sequence of access points with distinct addresses.
use u.Common.{ℕ, suc, ◌<◌, ◌≡◌, ◌≢◌, refl, Option, none, some, List, [], ◌∷◌, ◌++◌, length, arith}
use u.Packet.{MacAddress}
use u.Rbtree.{Tree, Comparison, less, equal, greater}
use u.Rbtree.Order.{insert_sorted}
use u.Rbtree.Order.Laws.{IsSearchTree}
use u.Rbtree.Sequence.{to_list}
use u.Rbtree.Search.{NoneEqual}
use u.BssCache.{ap_compare, set_count}
use u.BssCache.Compare.{mac_compare-eq, ap_compare-IsOrder}

-- The first entry that a probe is equal to.
unfoldable pub find_entry : (ℕ → Comparison) → List ℕ → Option ℕ
find_entry k [] = none
find_entry k (x ∷ xs) = elim (k x) [
  | equal ↦ some x
  | less ↦ find_entry k xs
  | greater ↦ find_entry k xs
]

-- The entries without the first one that a probe is equal to.
unfoldable pub erase_entry : (ℕ → Comparison) → List ℕ → List ℕ
erase_entry k [] = []
erase_entry k (x ∷ xs) = elim (k x) [
  | equal ↦ xs
  | less ↦ x ∷ erase_entry k xs
  | greater ↦ x ∷ erase_entry k xs
]

-- Each entry has a reference.
abbrev pub AllHeld : (ℕ → ℕ) → List ℕ → Type 0
AllHeld refcount [] = Unit
AllHeld refcount (x ∷ xs) = (0 < refcount x) × AllHeld refcount xs

pub find_entry-none : (k : ℕ → Comparison) (xs : List ℕ) → NoneEqual k xs → find_entry k xs ≡ none
unfolding find_entry
find_entry-none k [] h = refl
find_entry-none k (x ∷ xs) h = ground (arith, find_entry-none k xs h.1)

pub find_entry-some :
    (k : ℕ → Comparison) (xs : List ℕ) (y : ℕ) (ys : List ℕ)
    → NoneEqual k xs
    → k y ≡ equal
    → find_entry k (xs ++ y ∷ ys) ≡ some y
unfolding find_entry
find_entry-some k [] y ys h e = rw e
find_entry-some k (x ∷ xs) y ys h e = ground (arith, find_entry-some k xs y ys h.1 e)

pub erase_entry-none : (k : ℕ → Comparison) (xs : List ℕ) → NoneEqual k xs → erase_entry k xs ≡ xs
unfolding erase_entry
erase_entry-none k [] h = refl
erase_entry-none k (x ∷ xs) h = ground (arith, erase_entry-none k xs h.1)

pub erase_entry-some :
    (k : ℕ → Comparison) (xs : List ℕ) (y : ℕ) (ys : List ℕ)
    → NoneEqual k xs
    → k y ≡ equal
    → erase_entry k (xs ++ y ∷ ys) ≡ xs ++ ys
unfolding erase_entry
erase_entry-some k [] y ys h e = rw e
erase_entry-some k (x ∷ xs) y ys h e = ground (arith, erase_entry-some k xs y ys h.1 e)

NoneEqual-split :
    (k : ℕ → Comparison) (xs : List ℕ) (y : ℕ) (ys : List ℕ)
    → NoneEqual k (xs ++ y ∷ ys)
    → NoneEqual k xs × (k y ≢ equal) × NoneEqual k ys
NoneEqual-split k [] y ys h = (tt, h.0, h.1)
NoneEqual-split k (x ∷ xs) y ys h =
    let (a, b, c) = NoneEqual-split k xs y ys h.1 in ((h.0, a), b, c)

NoneEqual-remove :
    (k : ℕ → Comparison) (xs : List ℕ) (y : ℕ) (ys : List ℕ)
    → NoneEqual k (xs ++ y ∷ ys)
    → NoneEqual k (xs ++ ys)
NoneEqual-remove k [] y ys h = h.1
NoneEqual-remove k (x ∷ xs) y ys h = (h.0, NoneEqual-remove k xs y ys h.1)

NoneEqual-insert :
    (k p : ℕ → Comparison) (v : ℕ) (xs : List ℕ)
    → k v ≢ equal
    → NoneEqual k xs
    → NoneEqual k (insert_sorted p v xs)
unfolding insert_sorted
NoneEqual-insert k p v [] h a = (h, tt)
NoneEqual-insert k p v (x ∷ xs) h a =
    elim (p x)
      as (λ c.
        NoneEqual k (elim c [
          | greater ↦ x ∷ insert_sorted p v xs
          | equal ↦ v ∷ x ∷ xs
          | less ↦ v ∷ x ∷ xs
        ])) [ greater ↦ (a.0, NoneEqual-insert k p v xs h a.1) | equal ↦ (h, a) | less ↦ (h, a) ]

pub length-insert_sorted :
    (p : ℕ → Comparison) (v : ℕ) (xs : List ℕ) → length (insert_sorted p v xs) ≡ suc (length xs)
unfolding insert_sorted
length-insert_sorted p v [] = refl
length-insert_sorted p v (x ∷ xs) = ground (arith, length-insert_sorted p v xs)

pub AllHeld-insert :
    (r : ℕ → ℕ) (p : ℕ → Comparison) (v : ℕ) (xs : List ℕ)
    → 0 < r v
    → AllHeld r xs
    → AllHeld r (insert_sorted p v xs)
unfolding insert_sorted
AllHeld-insert r p v [] h a = (h, tt)
AllHeld-insert r p v (x ∷ xs) h a =
    elim (p x)
      as (λ c.
        AllHeld r (elim c [
          | greater ↦ x ∷ insert_sorted p v xs
          | equal ↦ v ∷ x ∷ xs
          | less ↦ v ∷ x ∷ xs
        ])) [ greater ↦ (a.0, AllHeld-insert r p v xs h a.1) | equal ↦ (h, a) | less ↦ (h, a) ]

-- A count that goes up keeps what is held.
pub AllHeld-up :
    (r : ℕ → ℕ) (a n : ℕ) (xs : List ℕ) → 0 < n → AllHeld r xs → AllHeld (set_count r a n) xs
AllHeld-up r a n [] h all = tt
AllHeld-up r a n (x ∷ xs) h all = (ground arith, AllHeld-up r a n xs h all.1)

pub AllHeld-split :
    (r : ℕ → ℕ) (xs : List ℕ) (y : ℕ) (ys : List ℕ)
    → AllHeld r (xs ++ y ∷ ys)
    → AllHeld r (xs ++ ys) × (0 < r y)
AllHeld-split r [] y ys h = (h.1, h.0)
AllHeld-split r (x ∷ xs) y ys h = let (a, b) = AllHeld-split r xs y ys h.1 in ((h.0, a), b)

module _ (mac_of : ℕ → MacAddress) where
  -- No two entries have the same address.
  abbrev pub Distinct : List ℕ → Type 0
  Distinct [] = Unit
  Distinct (x ∷ xs) = NoneEqual (ap_compare mac_of x) xs × Distinct xs

  -- The well-formedness of the cache: a search tree of access points with distinct addresses, their
  -- number, and a reference for each.
  pub record IsCache (root : Tree ℕ) (entry_count : ℕ) (refcount : ℕ → ℕ) : Type 0 where
    pub tree : IsSearchTree (ap_compare mac_of) root
    pub distinct : Distinct (to_list root)
    pub counted : entry_count ≡ length (to_list root)
    pub held : AllHeld refcount (to_list root)

  equal_flip : (a b : ℕ) → ap_compare mac_of a b ≢ equal → ap_compare mac_of b a ≢ equal
  equal_flip a b h = ground (arith, (ap_compare-IsOrder mac_of).flips a b)

  pub equal_self : (a : ℕ) → ap_compare mac_of a a ≡ equal
  equal_self a = (mac_compare-eq (mac_of a) (mac_of a)).1 refl

  -- The other entries differ from each entry.
  pub Distinct-others :
      (xs : List ℕ) (y : ℕ) (ys : List ℕ)
      → Distinct (xs ++ y ∷ ys)
      → NoneEqual (ap_compare mac_of y) xs
        × NoneEqual (ap_compare mac_of y) ys
        × Distinct (xs ++ ys)
  Distinct-others [] y ys d = (tt, d.0, d.1)
  Distinct-others (x ∷ xs) y ys d =
      let (a, b, c) = Distinct-others xs y ys d.1 in
      let (e, f, g) = NoneEqual-split (ap_compare mac_of x) xs y ys d.0 in
      ((equal_flip x y f, a), b, (NoneEqual-remove (ap_compare mac_of x) xs y ys d.0, c))

  pub Distinct-insert :
      (v : ℕ) (xs : List ℕ)
      → NoneEqual (ap_compare mac_of v) xs
      → Distinct xs
      → Distinct (insert_sorted (ap_compare mac_of v) v xs)
  unfolding insert_sorted
  Distinct-insert v [] h d = (tt, tt)
  Distinct-insert v (x ∷ xs) h d =
      elim (ap_compare mac_of v x)
        as (λ c. Distinct (elim c [
          | greater ↦ x ∷ insert_sorted (ap_compare mac_of v) v xs
          | equal ↦ v ∷ x ∷ xs
          | less ↦ v ∷ x ∷ xs
        ])) [
          | greater ↦ (
            NoneEqual-insert (ap_compare mac_of x) (ap_compare mac_of v) v xs (equal_flip v x h.0)
                d.0,
            Distinct-insert v xs h.1 d.1,
          )
          | equal ↦ (h, d)
          | less ↦ (h, d)
        ]

  NoneEqual-join :
      (k : ℕ → Comparison) (xs ys : List ℕ)
      → NoneEqual k xs
      → NoneEqual k ys
      → NoneEqual k (xs ++ ys)
  NoneEqual-join k [] ys a b = b
  NoneEqual-join k (x ∷ xs) ys a b = (a.0, NoneEqual-join k xs ys a.1 b)

  other_ap : (a x : ℕ) → ap_compare mac_of a x ≢ equal → x ≢ a
  other_ap a x h e = h (rw e (equal_self a))

  -- The counts of the other entries stay.
  pub AllHeld-other :
      (r : ℕ → ℕ) (a n : ℕ) (xs : List ℕ)
      → NoneEqual (ap_compare mac_of a) xs
      → AllHeld r xs
      → AllHeld (set_count r a n) xs
  AllHeld-other r a n [] h all = tt
  AllHeld-other r a n (x ∷ xs) h all =
      (ground (arith, other_ap a x h.0, all.0), AllHeld-other r a n xs h.1 all.1)

  -- What is left of the cache's facts without one entry, whose reference is released.
  pub without_entry :
      (r : ℕ → ℕ) (n : ℕ) (xs : List ℕ) (y : ℕ) (ys : List ℕ)
      → Distinct (xs ++ y ∷ ys)
      → AllHeld r (xs ++ y ∷ ys)
      → Distinct (xs ++ ys) × AllHeld (set_count r y n) (xs ++ ys)
  without_entry r n xs y ys d h =
      let (a, b, c) = Distinct-others xs y ys d in
      (
        c,
        AllHeld-other r y n (xs ++ ys) (NoneEqual-join (ap_compare mac_of y) xs ys a b)
            (AllHeld-split r xs y ys h).0,
      )
