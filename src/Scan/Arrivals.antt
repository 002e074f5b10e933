-- ===== src/Scan/Arrivals.antt =====
-- The records that src/scan.c stores in its ring.
use mathlib.Core.List.{append_assoc, append-nil}
use u.Common.{
  Option, none, zero, suc, ◌-◌, ℕ, ◌+◌, ◌≤◌, ◌<◌, ◌^◌, ◌≡◌, refl, sym, ap, ap₂, ◌∙◌, subst, Bool,
  true, false, not, ◌&&◌, ◌||◌, some, List, [], ◌∷◌, ◌++◌, ltb, ◌==◌, if◌then◌else◌, take, length,
  length-append, take-append_all, arith, if_false, if_true, if_case, Bool-cases, inl, inr,
}
use u.Management.Dispatch.{BeaconData}
use u.Ringbuffer.{Ringbuffer, free_space, write}
use u.Ringbuffer.Refine.{IsValid, queue, write_refines, free_space-queue}
use u.Scan.Session.{
  beacon_data_size, max_rsn_size, rsn_bytes, beacon_bytes, ScanState, on_channel, process_response,
}
use u.Scan.Records.{BeaconFits, BeaconIsValid, beacon_bytes-length}
use u.Scan.Queue.{StoredRecord, StoredIsValid, AllStored, record_bytes, records_bytes}

on_channel-BeaconFits :
    (channel : ℕ) (b : BeaconData) → BeaconFits b → BeaconFits (on_channel channel b)
on_channel-BeaconFits channel b v =
    if_case BeaconFits (b.elements.channel == 0) _ _
      (λ _. record {
        interval_fits = v.interval_fits;
        capabilities_fit = v.capabilities_fit;
        rate_bitmap_size = v.rate_bitmap_size;
        ssid_size = v.ssid_size;
      })
      (λ _. v)

on_channel-rsn_bytes :
    (channel : ℕ) (b : BeaconData) → rsn_bytes (on_channel channel b) ≡ rsn_bytes b
on_channel-rsn_bytes channel b =
    if_case (λ q. rsn_bytes q ≡ rsn_bytes b) (b.elements.channel == 0) _ _ (λ _. refl) (λ _. refl)

-- All of a buffer that there is room for is written.
write-all :
    (r : Ringbuffer) (bytes : List ℕ) (n : ℕ)
    → IsValid r
    → length bytes ≡ n
    → n ≤ free_space r
    → r.write + n < 2 ^ 64
    → IsValid (write r bytes n).1
      × (queue (write r bytes n).1 ≡ queue r ++ bytes)
      × ((write r bytes n).1.write ≡ r.write + n)
      × ((write r bytes n).1.size ≡ r.size)
unfolding write
write-all r bytes n v e room counter =
    let (count, stored, v1) = write_refines bytes n v (omega arith) counter in
    (
      v1,
      stored
          ∙ ap (λ q. queue r ++ q)
              (ap (take (write r bytes n).0) (sym (append-nil bytes))
                ∙ take-append_all bytes [] (write r bytes n).0 (omega arith)),
      omega arith,
      refl,
    )

records_bytes-append :
    (xs : List StoredRecord) (x : StoredRecord)
    → records_bytes xs ++ record_bytes x ≡ records_bytes (xs ++ (x ∷ []))
records_bytes-append [] x = sym (append-nil (record_bytes x))
records_bytes-append (y ∷ xs) x =
    append_assoc (record_bytes y) (records_bytes xs) (record_bytes x)
    ∙ ap (λ q. record_bytes y ++ q) (records_bytes-append xs x)

AllStored-append :
    (xs : List StoredRecord) (x : StoredRecord)
    → AllStored xs
    → StoredIsValid x
    → AllStored (xs ++ (x ∷ []))
AllStored-append [] x v w = (w, tt)
AllStored-append (y ∷ xs) x v w = (v.0, AllStored-append xs x v.1 w)

-- The channel that a record is stored with: the one it names, or the scan's own.
abbrev pub named_channel : ℕ → ℕ → ℕ
named_channel own zero = own
named_channel own (suc c) = suc c

abbrev pub heard_on : ℕ → BeaconData → BeaconData
heard_on own b = record b {
  elements = record b.elements { channel = named_channel own b.elements.channel };
}

named_channel_lem : (own c : ℕ) → (if c == 0 then own else c) ≡ named_channel own c
named_channel_lem own zero = refl
named_channel_lem own (suc c) = let more : (suc c == 0) ≡ false = ground arith in if_false _ _ more

on_channel-heard_on : (own : ℕ) (b : BeaconData) → on_channel own b ≡ heard_on own b
on_channel-heard_on own b =
    if_apart (b.elements.channel == 0)
    ∙ ap (λ c. record b { elements = record b.elements { channel = c } })
        (named_channel_lem own b.elements.channel)
  where
    if_apart :
        (x : Bool)
        → (if x then record b { elements = record b.elements { channel = own } } else b)
          ≡ record b {
            elements = record b.elements { channel = if x then own else b.elements.channel };
          }
    if_apart true = refl
    if_apart false = refl

-- The number of bytes of the RSN element.
abbrev pub rsn_size : Option (List ℕ) → ℕ
rsn_size none = 0
rsn_size (some bytes) = length bytes

rsn_size_lem :
    (rsn : Option (List ℕ))
    → let bytes : List ℕ = elim rsn [ none ↦ [] | some bytes ↦ bytes ] in
      length bytes ≡ rsn_size rsn
rsn_size_lem none = refl
rsn_size_lem (some bytes) = refl

-- The scan listens, the RSN element is not too large, and there is room for the record behind those
-- that are stored.
abbrev pub is_stored : ScanState → BeaconData → Bool
is_stored s b =
    let n = rsn_size b.elements.rsn in
    s.receiving && not (ltb 255 n) && not (ltb s.buffer.size (length (queue s.buffer) + 80 + n))

abbrev pub stored_after : ScanState → List ℕ → BeaconData → List StoredRecord → List StoredRecord
stored_after s filler b stored =
    if is_stored s b
    then stored ++ (record { filler = filler; beacon = heard_on s.current_channel b } ∷ [])
    else stored

-- The tests of the code.
abbrev code_stores : ScanState → BeaconData → Bool
code_stores s b =
    not (not s.receiving || ltb max_rsn_size (length (rsn_bytes b)))
    && not (ltb (free_space s.buffer) (beacon_data_size + length (rsn_bytes b)))

both_tests : (x y z : Bool) → (not (not x || y) && z) ≡ (x && not y && z)
both_tests true y z = refl
both_tests false y z = refl

same_room : (size used n : ℕ) → ltb (size - used) (80 + n) ≡ ltb size (used + 80 + n)
same_room size used n = ground arith

module _ (s : ScanState) (filler : List ℕ) (b : BeaconData) (stored : List StoredRecord)
    (v : IsValid s.buffer) where
  code_stores-is_stored : code_stores s b ≡ is_stored s b
  code_stores-is_stored =
      let n = rsn_size_lem b.elements.rsn in
      both_tests s.receiving _ _
      ∙ ap₂ (λ x y. s.receiving && not x && not y) (ap (ltb 255) n)
          (ap₂ (λ f k. ltb f (80 + k)) (free_space-queue v) n
            ∙ same_room s.buffer.size (length (queue s.buffer)) (rsn_size b.elements.rsn))

  unchanged : code_stores s b ≡ false → stored_after s filler b stored ≡ stored
  unchanged e = if_false _ _ (sym code_stores-is_stored ∙ e)

  added :
      code_stores s b ≡ true
      → stored_after s filler b stored
        ≡ stored ++ (record { filler = filler; beacon = on_channel s.current_channel b } ∷ [])
  added e =
      if_true _ _ (sym code_stores-is_stored ∙ e)
      ∙ ap (λ h. stored ++ (record { filler = filler; beacon = h } ∷ []))
          (sym (on_channel-heard_on s.current_channel b))

-- The two writes of a record that there is room for.
store_record :
    (s : ScanState) (filler : List ℕ) (b : BeaconData)
    → IsValid s.buffer
    → length filler ≡ 12
    → BeaconIsValid b
    → s.buffer.write + 335 < 2 ^ 64
    → beacon_data_size + length (rsn_bytes b) ≤ free_space s.buffer
    → let b1 = on_channel s.current_channel b in
      let buffer1 = (write s.buffer (beacon_bytes filler b1) beacon_data_size).1 in
      let buffer2 = (write buffer1 (rsn_bytes b1) (length (rsn_bytes b))).1 in
      StoredIsValid (record { filler = filler; beacon = b1 })
      × IsValid buffer2
      × (queue buffer2 ≡ queue s.buffer ++ record_bytes (record { filler = filler; beacon = b1 }))
      × (buffer2.size ≡ s.buffer.size)
store_record s filler b v twelve w counter room =
    let b1 = on_channel s.current_channel b in
    let same = ap length (on_channel-rsn_bytes s.current_channel b) in
    let w1 : BeaconIsValid b1 = record {
      fits = on_channel-BeaconFits s.current_channel b w.fits;
      rsn_fits = omega (arith, same, w.rsn_fits);
    } in
    let fields = beacon_bytes filler b1 in
    let (v1, q1, c1, n1) =
      write-all s.buffer fields beacon_data_size v (beacon_bytes-length filler twelve b1 w1)
        (omega arith) (omega arith) in
    let r1 = (write s.buffer fields beacon_data_size).1 in
    let (v2, q2, c2, n2) =
      write-all r1 (rsn_bytes b1) (length (rsn_bytes b)) v1 same
        (omega (
          arith,
          free_space-queue v,
          free_space-queue v1,
          ap length q1,
          length-append (queue s.buffer) fields,
          beacon_bytes-length filler twelve b1 w1,
          n1,
        ))
        (omega (arith, c1, w.rsn_fits)) in
    (
      record { filler_size = twelve; beacon_IsValid = w1 },
      v2,
      q2 ∙ ap (λ q. q ++ rsn_bytes b1) q1 ∙ append_assoc (queue s.buffer) fields (rsn_bytes b1),
      n2 ∙ n1,
    )

-- A response adds one record to those in the ring, with the channel that it names or the scan's
-- where it names none, if the scan listens, its RSN element has 255 bytes at most and there is room
-- for all of it; and it adds none otherwise. The ring stays valid and keeps its size. For fields of
-- the sizes of their C types, where the count of all bytes stays below 2 ^ 64.
pub process_response_refines :
    (s : ScanState) (filler : List ℕ) (b : BeaconData) (stored : List StoredRecord)
    → IsValid s.buffer
    → AllStored stored
    → queue s.buffer ≡ records_bytes stored
    → length filler ≡ 12
    → BeaconFits b
    → s.buffer.write + 335 < 2 ^ 64
    → (s1 : ScanState) × (process_response (some s) filler b ≡ some s1)
      × IsValid s1.buffer
      × AllStored (stored_after s filler b stored)
      × (queue s1.buffer ≡ records_bytes (stored_after s filler b stored))
      × (s1.buffer.size ≡ s.buffer.size)
unfolding process_response
process_response_refines s filler b stored v w e twelve fits counter =
    elim (Bool-cases (not s.receiving || ltb max_rsn_size (length (rsn_bytes b)))) [
      | inl closed ↦
          let none_stored =
            unchanged s filler b stored v
              (ap₂ (λ p q. not p && not q) closed (refl {a = no_room})) in
          (
            s,
            if_true _ _ closed,
            v,
            subst AllStored (sym none_stored) w,
            e ∙ ap records_bytes (sym none_stored),
            refl,
          )
      | inr listening ↦ elim (Bool-cases no_room) [
        | inl full ↦
            let none_stored =
              unchanged s filler b stored v (ap₂ (λ p q. not p && not q) listening full) in
            (
              s,
              if_false _ _ listening ∙ if_true _ _ full,
              v,
              subst AllStored (sym none_stored) w,
              e ∙ ap records_bytes (sym none_stored),
              refl,
            )
        | inr room ↦
            let one_stored =
              added s filler b stored v (ap₂ (λ p q. not p && not q) listening room) in
            let small : length (rsn_bytes b) ≤ 255 = ground arith in
            let enough : beacon_data_size + length (rsn_bytes b) ≤ free_space s.buffer =
              ground arith in
            let (x, v2, q2, same_size) =
              store_record s filler b v twelve (record { fits = fits; rsn_fits = small }) counter
                enough in
            (
              _,
              if_false _ _ listening ∙ if_false _ _ room,
              v2,
              subst AllStored (sym one_stored) (AllStored-append stored _ w x),
              q2
                  ∙ ap
                      (λ q.
                        q
                        ++ record_bytes
                            (record { filler = filler; beacon = on_channel s.current_channel b }))
                      e
                  ∙ records_bytes-append stored _
                  ∙ ap records_bytes (sym one_stored),
              same_size,
            )
      ]
    ]
  where
    no_room : Bool
    no_room = ltb (free_space s.buffer) (beacon_data_size + length (rsn_bytes b))
