-- ===== src/Scan/Queue.antt =====
-- The ring of src/scan.c as a queue of beacon records.
use mathlib.Core.List.{append_assoc}
use u.Common.{
  ℕ, zero, suc, ◌≤◌, ◌<◌, ◌≡◌, sym, ap, ap₂, ◌∙◌, true, false, not, Option, none, some,
  if◌then◌else◌, refl, List, [], ◌∷◌, ◌++◌, ltb, ◌==◌, take, drop, length, length-append,
  take-append_all, drop-append, arith, if_false, if_true,
}
use u.Management.Dispatch.{BeaconData}
use u.Ringbuffer.{Ringbuffer, data_count, read}
use u.Ringbuffer.Refine.{IsValid, queue, read_refines, data_count-queue}
use u.Scan.Session.{beacon_data_size, rsn_bytes, beacon_bytes, beacon_at, with_rsn, take_records}
use u.Scan.Records.{BeaconIsValid, beacon_bytes-length, beacon_at-beacon_bytes}

-- A record as it is stored: what its padding and its pointer held, and its fields.
pub record StoredRecord : Type 0 where
  pub filler : List ℕ
  pub beacon : BeaconData

pub record StoredIsValid (x : StoredRecord) : Type 0 where
  pub filler_size : length x.filler ≡ 12
  pub beacon_IsValid : BeaconIsValid x.beacon

abbrev pub AllStored : List StoredRecord → Type 0
AllStored [] = Unit
AllStored (x ∷ xs) = StoredIsValid x × AllStored xs

abbrev pub record_bytes : StoredRecord → List ℕ
record_bytes x = beacon_bytes x.filler x.beacon ++ rsn_bytes x.beacon

abbrev pub records_bytes : List StoredRecord → List ℕ
records_bytes [] = []
records_bytes (x ∷ xs) = record_bytes x ++ records_bytes xs

-- An RSN element without bytes is none.
abbrev pub without_empty : Option (List ℕ) → Option (List ℕ)
without_empty none = none
without_empty (some []) = none
without_empty (some (x ∷ xs)) = some (x ∷ xs)

-- A record as it was stored, all its fields and its RSN element.
abbrev pub as_stored : BeaconData → BeaconData
as_stored b = record b { elements = record b.elements { rsn = without_empty b.elements.rsn } }

abbrev pub read_all : List StoredRecord → List BeaconData
read_all [] = []
read_all (x ∷ xs) = as_stored x.beacon ∷ read_all xs

-- what the loop makes of the fields and the bytes of the RSN element
abbrev read_back : BeaconData → BeaconData
read_back b = with_rsn (record b { elements = record b.elements { rsn = none } }) (rsn_bytes b)

without_empty_lem :
    (rsn : Option (List ℕ))
    → let bytes : List ℕ = elim rsn [ none ↦ [] | some bytes ↦ bytes ] in
      (if length bytes == 0 then none else some bytes) ≡ without_empty rsn
without_empty_lem none = refl
without_empty_lem (some []) = refl
without_empty_lem (some (x ∷ xs)) =
    let more : (length (x ∷ xs) == 0) ≡ false = ground arith in if_false _ _ more

read_back-as_stored : (b : BeaconData) → read_back b ≡ as_stored b
read_back-as_stored b =
    ap (λ rsn. record b { elements = record b.elements { rsn = rsn } })
      (without_empty_lem b.elements.rsn)

module _ (r : Ringbuffer) where
  abbrev first : List ℕ × ℕ × Ringbuffer
  first = read r beacon_data_size

  abbrev rsn_size : ℕ
  rsn_size = (beacon_at first.0).1

  abbrev second : List ℕ × ℕ × Ringbuffer
  second = read first.2 rsn_size

  -- one round of the loop, where neither read comes short
  take_records_round :
      (fuel : ℕ)
      → beacon_data_size ≤ data_count r
      → first.1 ≡ beacon_data_size
      → second.1 ≡ rsn_size
      → take_records (suc fuel) r ≡ (
        with_rsn (beacon_at first.0).0 second.0 ∷ (take_records fuel second.2).0,
        (take_records fuel second.2).1,
      )
  unfolding take_records
  take_records_round fuel enough whole whole_rsn =
      let h0 : ltb (data_count r) beacon_data_size ≡ false = ground arith in
      let h1 : not (first.1 == beacon_data_size) ≡ false = ground arith in
      let h2 : not (second.1 == rsn_size) ≡ false = ground arith in
      if_false _ _ h0 ∙ if_false _ _ h1 ∙ if_false _ _ h2

  take_records_end :
      (fuel : ℕ) → data_count r < beacon_data_size → take_records (suc fuel) r ≡ ([], r)
  unfolding take_records
  take_records_end fuel few =
      let h0 : ltb (data_count r) beacon_data_size ≡ true = ground arith in if_true _ _ h0

-- A round on a ring whose queue starts with a record takes exactly that record.
take_records-record :
    (r : Ringbuffer) (x : StoredRecord) (rest : List ℕ)
    → IsValid r
    → StoredIsValid x
    → queue r ≡ record_bytes x ++ rest
    → (r' : Ringbuffer) × IsValid r'
      × (queue r' ≡ rest)
      × ((fuel : ℕ)
          → take_records (suc fuel) r
            ≡ (read_back x.beacon ∷ (take_records fuel r').0, (take_records fuel r').1))
take_records-record r x rest v w e =
    let b = x.beacon in
    let fields = beacon_bytes x.filler b in
    let n = beacon_bytes-length x.filler w.filler_size b w.beacon_IsValid in
    let e1 : queue r ≡ fields ++ (rsn_bytes b ++ rest) =
      e ∙ append_assoc fields (rsn_bytes b) rest in
    let l1 = length-append fields (rsn_bytes b ++ rest) in
    let l2 = length-append (rsn_bytes b) rest in
    let l3 = ap length e1 in
    let (bytes, count, left, v1) = read_refines beacon_data_size v in
    let known : (first r).0 ≡ fields =
      bytes ∙ ap (take 80) e1 ∙ take-append_all fields (rsn_bytes b ++ rest) 80 (sym n) in
    let left1 : queue (first r).2 ≡ rsn_bytes b ++ rest =
      left ∙ ap (drop 80) e1 ∙ drop-append fields (rsn_bytes b ++ rest) 80 (sym n) in
    let parsed =
      ap beacon_at known ∙ beacon_at-beacon_bytes x.filler w.filler_size b w.beacon_IsValid in
    let size : rsn_size r ≡ length (rsn_bytes b) = ap (λ q. q.1) parsed in
    let (rsn, rsn_count, left2, v2) = read_refines (rsn_size r) v1 in
    let known_rsn : (second r).0 ≡ rsn_bytes b =
      rsn ∙ ap (take (rsn_size r)) left1 ∙ take-append_all (rsn_bytes b) rest (rsn_size r) size in
    (
      (second r).2,
      v2,
      left2 ∙ ap (drop (rsn_size r)) left1 ∙ drop-append (rsn_bytes b) rest (rsn_size r) size,
      λ fuel.
          take_records_round r fuel (omega (arith, data_count-queue v, l1, l3, n))
            (omega (arith, count, l1, l3, n)) (omega (arith, rsn_count, ap length left1, l2, size))
          ∙ ap₂
              (λ p q. (
                with_rsn p q ∷ (take_records fuel (second r).2).0,
                (take_records fuel (second r).2).1,
              ))
              (ap (λ q. q.0) parsed) known_rsn,
    )

-- With fuel for one round more than there are records, the loop of the scan work takes out all
-- records, in their order, each as it was stored, and leaves the ring empty.
pub take_records_refines :
    (fuel : ℕ) (r : Ringbuffer) (stored : List StoredRecord)
    → IsValid r
    → AllStored stored
    → queue r ≡ records_bytes stored
    → length stored < fuel
    → (r' : Ringbuffer) × (take_records fuel r ≡ (read_all stored, r'))
      × IsValid r'
      × (queue r' ≡ [])
take_records_refines zero r stored v w e h = absurd (omega arith)
take_records_refines (suc fuel) r [] v w e h =
    (r, take_records_end r fuel (omega (arith, data_count-queue v, ap length e)), v, e)
take_records_refines (suc fuel) r (x ∷ stored) v w e h =
    let (r1, v1, left, round) = take_records-record r x (records_bytes stored) v w.0 e in
    let (r', taken, v', done) = take_records_refines fuel r1 stored v1 w.1 left (omega arith) in
    (r', round fuel ∙ ap₂ (λ b q. (b ∷ q.0, q.1)) (read_back-as_stored x.beacon) taken, v', done)
