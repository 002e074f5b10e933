-- ===== src/Key/Nonce.antt =====
-- No packet number is used twice: what the functions of `Key/Tx` hand out.
use u.Common.{
  ℕ, suc, ◌≤◌, ◌<◌, ◌≡◌, refl, ap, ◌∙◌, ◌⊎◌, inl, inr, Bool, true, Option, none, some, List, [],
  ◌∷◌, ◌==◌, length, AllBytes, arith, Option-cases, Bool-cases,
}
use mathlib.Core.Option
use mathlib.Core.Path.{subst}
use u.Packet.{MacAddress, HeaderDescription}
use u.Key.{Cipher, KeyMetadata, KeyDevice, TkipData, sequence_size, increment_sequence}
use u.Key.Sequence.{value, Incremented, increment_sequence-Incremented}
use u.Key.Table.{
  find_first, update_first, key_matches_header, index_matches, find_key, find_key_by_index,
}
use u.Key.Find.{
  KeyMetadataIsValid, AllValid, find_first-KeyMetadataIsValid, update_first-AllValid,
  find_first-update_first_self, find_first-update_first,
}
use u.Key.Tx.{store_tx_sequence, next_tx_sequence, prepare_tkip_tx}

-- A frame to protect: the header and the index of the key, with CCMP, or the structure that holds
-- them, with TKIP.
pub data TxRequest : Type 0 where
  ccmp_request : HeaderDescription → ℕ → Cipher → TxRequest
  tkip_request : TkipData → TxRequest

abbrev pub tx_header : TxRequest → HeaderDescription
tx_header (ccmp_request h i c) = h
tx_header (tkip_request t) = t.header

abbrev pub tx_index : TxRequest → ℕ
tx_index (ccmp_request h i c) = i
tx_index (tkip_request t) = t.key_index

-- The packet number handed out, if any.
unfoldable pub issue : KeyDevice → TxRequest → Option (List ℕ) × KeyDevice
issue device (ccmp_request h i c) = next_tx_sequence device h i c sequence_size
issue device (tkip_request t) =
    let (prepared, device') = prepare_tkip_tx device t in
    (Option.map (λ (p : TkipData). p.sequence) prepared, device')

unfoldable pub issue_all : KeyDevice → List TxRequest → KeyDevice
issue_all device [] = device
issue_all device (r ∷ rs) = issue_all (issue device r).1 rs

-- The test by which a request's key is searched: CCMP looks at the header alone.
abbrev searched : MacAddress → TxRequest → KeyMetadata → Bool
searched mac (ccmp_request h i c) m = key_matches_header m mac h
searched mac (tkip_request t) m = index_matches mac t.header t.key_index m

abbrev selected : MacAddress → TxRequest → KeyMetadata → Bool
selected mac r = index_matches mac (tx_header r) (tx_index r)

-- What a request does: nothing, or it increments the number of the key that it finds.
data Issued (device : KeyDevice) (r : TxRequest) (out : Option (List ℕ) × KeyDevice) : Type 0 where
  refused : out ≡ (none, device) → Issued device r out
  issued :
      (m : KeyMetadata) (s : List ℕ)
      → find_first (searched device.mac_address r) device.keys ≡ some m
      → (m.index == tx_index r) ≡ true
      → increment_sequence m.tx_sequence sequence_size ≡ some s
      → out ≡ (
        some s,
        record device {
          keys = update_first (searched device.mac_address r) (store_tx_sequence s) device.keys;
        },
      )
      → Issued device r out

find_first-test :
    (test : KeyMetadata → Bool) (keys : List KeyMetadata) {m : KeyMetadata}
    → find_first test keys ≡ some m
    → test m ≡ true
unfolding find_first
find_first-test test [] e = cc
find_first-test test (x ∷ keys) {m} e = elim (Bool-cases (test x)) [
  | inl t ↦ ground arith
  | inr t ↦ find_first-test test keys (rw t at e)
]

abbrev hit : KeyDevice → TxRequest → Option KeyMetadata
hit device r = find_first (searched device.mac_address r) device.keys

abbrev stored : KeyDevice → TxRequest → List ℕ → KeyDevice
stored device r s = record device {
  keys = update_first (searched device.mac_address r) (store_tx_sequence s) device.keys;
}

issue_not_found :
    (device : KeyDevice) (r : TxRequest) → hit device r ≡ none → issue device r ≡ (none, device)
unfolding issue next_tx_sequence prepare_tkip_tx find_key find_key_by_index
issue_not_found device (ccmp_request h i c) e = ground arith
issue_not_found device (tkip_request t) e = ground arith

issue_exhausted :
    (device : KeyDevice) (r : TxRequest) (m : KeyMetadata)
    → hit device r ≡ some m
    → increment_sequence m.tx_sequence sequence_size ≡ none
    → issue device r ≡ (none, device)
unfolding issue next_tx_sequence prepare_tkip_tx find_key find_key_by_index
issue_exhausted device (ccmp_request h i c) m e x = ground arith
issue_exhausted device (tkip_request t) m e x = ground arith

searched-index :
    (mac : MacAddress) (t : TkipData) (m : KeyMetadata)
    → index_matches mac t.header t.key_index m ≡ true
    → (m.index == t.key_index) ≡ true
unfolding index_matches
searched-index mac t m e = ground arith

issue_found :
    (device : KeyDevice) (r : TxRequest) (m : KeyMetadata) (s : List ℕ)
    → hit device r ≡ some m
    → increment_sequence m.tx_sequence sequence_size ≡ some s
    → (issue device r ≡ (none, device))
      ⊎ (((m.index == tx_index r) ≡ true) × (issue device r ≡ (some s, stored device r s)))
unfolding issue next_tx_sequence prepare_tkip_tx find_key find_key_by_index
issue_found device (ccmp_request h i c) m s e x = ground arith
issue_found device (tkip_request t) m s e x = ground (
  arith,
  searched-index device.mac_address t m
      (find_first-test (index_matches device.mac_address t.header t.key_index) device.keys e),
)

issue-Issued : (device : KeyDevice) (r : TxRequest) → Issued device r (issue device r)
issue-Issued device r = elim (Option-cases (hit device r)) [
  | inl e ↦ refused (issue_not_found device r e)
  | inr (m, e) ↦ elim (Option-cases (increment_sequence m.tx_sequence sequence_size)) [
    | inl x ↦ refused (issue_exhausted device r m e x)
    | inr (s, x) ↦ elim (issue_found device r m s e x) [
      | inl out ↦ refused out
      | inr (i, out) ↦ issued m s e i x out
    ]
  ]
]

-- The number that a key has handed out last.
abbrev last : KeyMetadata → ℕ
last m = value m.tx_sequence

-- The search does not look at packet numbers.
searched_stored :
    (mac : MacAddress) (r : TxRequest) (s : List ℕ) (m : KeyMetadata)
    → searched mac r (store_tx_sequence s m) ≡ searched mac r m
unfolding index_matches key_matches_header
searched_stored mac (ccmp_request h i c) s m = refl
searched_stored mac (tkip_request t) s m = refl

selected_stored :
    (mac : MacAddress) (r : TxRequest) (s : List ℕ) (m : KeyMetadata)
    → selected mac r (store_tx_sequence s m) ≡ selected mac r m
unfolding index_matches key_matches_header
selected_stored mac r s m = refl

-- A key that is issued from is the first with the request's index too.
selected_of_searched :
    (mac : MacAddress) (r : TxRequest) (keys : List KeyMetadata) {m : KeyMetadata}
    → find_first (searched mac r) keys ≡ some m
    → (m.index == tx_index r) ≡ true
    → find_first (selected mac r) keys ≡ some m
unfolding find_first index_matches
selected_of_searched mac (tkip_request t) keys e i = e
selected_of_searched mac (ccmp_request h i c) [] e x = cc
selected_of_searched mac (ccmp_request h i c) (k ∷ keys) {m} e x =
    ground (arith, selected_of_searched mac (ccmp_request h i c) keys {m = m})

-- An increment yields six bytes that stand for the next number.
increment_six :
    (m : KeyMetadata) (s : List ℕ)
    → KeyMetadataIsValid m
    → increment_sequence m.tx_sequence sequence_size ≡ some s
    → (value s ≡ suc (last m)) × (length s ≡ sequence_size) × AllBytes s
increment_six m s v e =
    let known : Incremented m.tx_sequence (some s) =
      subst (λ o. Incremented m.tx_sequence o)
        (ap (increment_sequence m.tx_sequence) v.tx_length ∙ e)
        (increment_sequence-Incremented m.tx_sequence v.tx_bytes) in
    (known.0, known.1 ∙ v.tx_length, known.2)

hit-KeyMetadataIsValid :
    (device : KeyDevice) (r : TxRequest) {m : KeyMetadata}
    → AllValid device.keys
    → hit device r ≡ some m
    → KeyMetadataIsValid m
hit-KeyMetadataIsValid device r d e =
    find_first-KeyMetadataIsValid (searched device.mac_address r) device.keys d e

-- Issuing keeps every packet number six bytes long.
issue-AllValid :
    (device : KeyDevice) (r : TxRequest) → AllValid device.keys → AllValid (issue device r).1.keys
issue-AllValid device r d = elim (issue-Issued device r) [
  | refused out ↦ rw out d
  | issued m s e i x out ↦
      let six = increment_six m s (hit-KeyMetadataIsValid device r d e) x in
      rw out (
        update_first-AllValid (searched device.mac_address r) (store_tx_sequence s)
          (λ k kv. record {
            rx_bytes = kv.rx_bytes;
            rx_length = kv.rx_length;
            tx_bytes = six.2;
            tx_length = six.1;
          })
          device.keys d)
]

abbrev chosen : KeyDevice → TxRequest → Option KeyMetadata
chosen device r = find_first (selected device.mac_address r) device.keys

-- Whatever is issued, the key of a request keeps a number at least as great.
issue-last :
    (device : KeyDevice) (r other : TxRequest) (m : KeyMetadata)
    → AllValid device.keys
    → chosen device other ≡ some m
    → (m' : KeyMetadata) × (chosen (issue device r).1 other ≡ some m') × (last m ≤ last m')
issue-last device r other m d e = elim (issue-Issued device r) [
  | refused out ↦ rw out (m, e, omega arith)
  | issued k s ek i x out ↦
      let six = increment_six k s (hit-KeyMetadataIsValid device r d ek) x in
      rw out (
        find_first-update_first last (selected device.mac_address other)
          (searched device.mac_address r) (store_tx_sequence s)
          (selected_stored device.mac_address other s) device.keys m k ek (omega (arith, six.0)) e)
]

issue_all-AllValid :
    (device : KeyDevice) (rs : List TxRequest)
    → AllValid device.keys
    → AllValid (issue_all device rs).keys
unfolding issue_all
issue_all-AllValid device [] d = d
issue_all-AllValid device (r ∷ rs) d =
    issue_all-AllValid (issue device r).1 rs (issue-AllValid device r d)

issue_all-last :
    (device : KeyDevice) (rs : List TxRequest) (other : TxRequest) (m : KeyMetadata)
    → AllValid device.keys
    → chosen device other ≡ some m
    → (m' : KeyMetadata) × (chosen (issue_all device rs) other ≡ some m') × (last m ≤ last m')
unfolding issue_all
issue_all-last device [] other m d e = (m, e, omega arith)
issue_all-last device (r ∷ rs) other m d e =
    let (k, ek, le) = issue-last device r other m d e in
    let (m', em, le') =
      issue_all-last (issue device r).1 rs other k (issue-AllValid device r d) ek in
    (m', em, omega (arith, le, le'))

-- A number that is handed out stays in the key of the request.
issued_last :
    (device : KeyDevice) (r : TxRequest) (s : List ℕ)
    → (issue device r).0 ≡ some s
    → (m : KeyMetadata) × (chosen (issue device r).1 r ≡ some m) × (last m ≡ value s)
issued_last device r s e = elim (issue-Issued device r) [
  | refused out ↦ cc
  | issued m n em i x out ↦
      let same : n ≡ s = cc in
      let again =
        find_first-update_first_self (searched device.mac_address r) (store_tx_sequence n)
          (searched_stored device.mac_address r n) device.keys
        ∙ ap (Option.map (store_tx_sequence n)) em in
      rw out (
        store_tx_sequence n m,
        selected_of_searched device.mac_address r
            (update_first (searched device.mac_address r) (store_tx_sequence n) device.keys) again
            i,
        ap value same,
      )
]

-- A number that is handed out is above the one of the key of the request.
issued_above :
    (device : KeyDevice) (r : TxRequest) (s : List ℕ) {m : KeyMetadata}
    → AllValid device.keys
    → chosen device r ≡ some m
    → (issue device r).0 ≡ some s
    → last m < value s
issued_above device r s {m} d e first = elim (issue-Issued device r) [
  | refused out ↦ cc
  | issued k n ek i x out ↦
      let same : n ≡ s = cc in
      let known = selected_of_searched device.mac_address r device.keys ek i in
      let key : k ≡ m = cc in
      rw (← same, ← key) (omega (arith, increment_six k n (hit-KeyMetadataIsValid device r d ek) x))
]

-- No packet number is used twice with a key: of two numbers that are handed out for one header and
-- key index, the later one is greater, whatever CCMP and TKIP frames are protected between the two.
-- The packet numbers of the keys have six bytes.
pub issue_increasing :
    (device : KeyDevice) (r : TxRequest) (between : List TxRequest) (later : TxRequest)
    (s s' : List ℕ)
    → AllValid device.keys
    → tx_header later ≡ tx_header r
    → tx_index later ≡ tx_index r
    → (issue device r).0 ≡ some s
    → (issue (issue_all (issue device r).1 between) later).0 ≡ some s'
    → value s < value s'
issue_increasing device r between later s s' d h i first second =
    let (m, em, number) = issued_last device r s first in
    let d1 = issue-AllValid device r d in
    let device2 = issue_all (issue device r).1 between in
    let (m', em', le) = issue_all-last (issue device r).1 between r m d1 em in
    let found_later : chosen device2 later ≡ some m' = rw (h, i) em' in
    let above =
      issued_above device2 later s' (issue_all-AllValid (issue device r).1 between d1) found_later
        second in
    omega (arith, number, le, above)
