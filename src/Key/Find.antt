-- ===== src/Key/Find.antt =====
-- Finding a key again after a write to the record of a key.
use u.Common.{
  ℕ, ◌≤◌, ◌≡◌, refl, Bool, true, some, List, [], ◌∷◌, length, AllBytes, arith, inl, inr, Bool-cases,
}
use mathlib.Core.Option
use u.Key.{KeyMetadata, sequence_size}
use u.Key.Table.{find_first, update_first}

-- The packet numbers of a record are six bytes each.
pub record KeyMetadataIsValid (m : KeyMetadata) : Type 0 where
  pub rx_bytes : AllBytes m.rx_sequence
  pub rx_length : length m.rx_sequence ≡ sequence_size
  pub tx_bytes : AllBytes m.tx_sequence
  pub tx_length : length m.tx_sequence ≡ sequence_size

abbrev pub AllValid : List KeyMetadata → Type 0
AllValid [] = Unit
AllValid (m ∷ keys) = KeyMetadataIsValid m × AllValid keys

find_first_hit :
    (test : KeyMetadata → Bool) (x m : KeyMetadata) (keys : List KeyMetadata)
    → test x ≡ true
    → find_first test (x ∷ keys) ≡ some m
    → x ≡ m
unfolding find_first
find_first_hit test x m keys t e = ground arith

pub find_first-KeyMetadataIsValid :
    (test : KeyMetadata → Bool) (keys : List KeyMetadata) {m : KeyMetadata}
    → AllValid keys
    → find_first test keys ≡ some m
    → KeyMetadataIsValid m
unfolding find_first
find_first-KeyMetadataIsValid test [] v e = cc
find_first-KeyMetadataIsValid test (x ∷ keys) {m} v e = elim (Bool-cases (test x)) [
  | inl t ↦ let e' : x ≡ m = find_first_hit test x m keys t e in rw (← e') v.0
  | inr t ↦ find_first-KeyMetadataIsValid test keys v.1 (rw t at e)
]

module _ (test : KeyMetadata → Bool) (f : KeyMetadata → KeyMetadata) where
  pub update_first-AllValid :
      ((m : KeyMetadata) → KeyMetadataIsValid m → KeyMetadataIsValid (f m))
      → (keys : List KeyMetadata) → AllValid keys
      → AllValid (update_first test f keys)
  unfolding update_first
  update_first-AllValid keep [] v = tt
  update_first-AllValid keep (x ∷ keys) v = elim (Bool-cases (test x)) [
    | inl t ↦ rw t (keep x v.0, v.1)
    | inr t ↦ rw t (v.0, update_first-AllValid keep keys v.1)
  ]

  -- The write leaves the test alone: the record that was found is found with the write done.
  pub find_first-update_first_self :
      ((m : KeyMetadata) → test (f m) ≡ test m)
      → (keys : List KeyMetadata)
      → find_first test (update_first test f keys) ≡ Option.map f (find_first test keys)
  unfolding find_first update_first
  find_first-update_first_self keep [] = refl
  find_first-update_first_self keep (x ∷ keys) =
      ground (arith, keep x, find_first-update_first_self keep keys)

module _ (number : KeyMetadata → ℕ) (t t2 : KeyMetadata → Bool) (f : KeyMetadata → KeyMetadata)
    (keep : (m : KeyMetadata) → t (f m) ≡ t m) where
  -- What one search finds has a number that a write to what another search finds does not lower.
  pub find_first-update_first :
      (keys : List KeyMetadata) (m m2 : KeyMetadata)
      → find_first t2 keys ≡ some m2
      → number m2 ≤ number (f m2)
      → find_first t keys ≡ some m
      → (m' : KeyMetadata) × (find_first t (update_first t2 f keys) ≡ some m')
        × (number m ≤ number m')
  unfolding find_first update_first
  find_first-update_first [] m m2 e2 le e = cc
  find_first-update_first (x ∷ keys) m m2 e2 le e = elim (Bool-cases (t2 x)) [
    | inl hit2 ↦ elim (Bool-cases (t x)) [
      | inl hit ↦
          let e' : x ≡ m = find_first_hit t x m keys hit e in
          let e2' : x ≡ m2 = find_first_hit t2 x m2 keys hit2 e2 in
          rw (hit2, keep x, hit) (f x, refl, rw (← e') (rw (← e2') at le))
      | inr miss ↦ rw (hit2, keep x, miss) (m, rw miss at e, omega arith)
    ]
    | inr miss2 ↦ elim (Bool-cases (t x)) [
      | inl hit ↦
          let e' : x ≡ m = find_first_hit t x m keys hit e in
          rw (miss2, hit) (x, refl, rw e' (omega arith))
      | inr miss ↦
          rw (miss2, miss) (find_first-update_first keys m m2 (rw miss2 at e2) le (rw miss at e))
    ]
  ]
