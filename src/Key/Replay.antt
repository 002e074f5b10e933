-- ===== src/Key/Replay.antt =====
-- Replay protection: what the checks of `Key/Rx` accept.
use u.Common.{
  ℕ, ◌≤◌, ◌<◌, ◌≡◌, refl, sym, ap, ◌∙◌, ◌⊎◌, inl, inr, Bool, true, false, Option, none, some, List,
  [], ◌∷◌, length, AllBytes, arith, Option-cases,
}
use mathlib.Core.Option
use u.Packet.{MacAddress, HeaderDescription}
use u.Key.{Cipher, KeyMetadata, KeyDevice, TkipData, sequence_size, sequence_is_newer}
use u.Key.Sequence.{value, sequence_is_newer_iff}
use u.Key.Table.{find_first, index_matches, find_key_by_index}
use u.Key.Find.{
  AllValid, find_first-KeyMetadataIsValid, update_first-AllValid, find_first-update_first_self,
  find_first-update_first,
}
use u.Key.Rx.{store_rx_sequence, accept, update_rx_sequence, validate_tkip_rx}

-- A protected frame as the two functions see it: with CCMP, the header, the key's index, the cipher
-- and the packet number; with TKIP, the structure that holds them.
pub data RxFrame : Type 0 where
  ccmp_frame : HeaderDescription → ℕ → Cipher → List ℕ → RxFrame
  tkip_frame : TkipData → RxFrame

abbrev pub rx_header : RxFrame → HeaderDescription
rx_header (ccmp_frame h i c s) = h
rx_header (tkip_frame t) = t.header

abbrev pub rx_index : RxFrame → ℕ
rx_index (ccmp_frame h i c s) = i
rx_index (tkip_frame t) = t.key_index

abbrev pub rx_number : RxFrame → List ℕ
rx_number (ccmp_frame h i c s) = s
rx_number (tkip_frame t) = t.sequence

-- The packet number has six bytes, as both callers build it.
abbrev pub RxFrameIsValid : RxFrame → Type 0
RxFrameIsValid r = AllBytes (rx_number r) × (length (rx_number r) ≡ sequence_size)

unfoldable pub receive : KeyDevice → RxFrame → Bool × KeyDevice
receive device (ccmp_frame h i c s) = update_rx_sequence device h i c s (length s)
receive device (tkip_frame t) = validate_tkip_rx device t

-- Frames received one after the other.
unfoldable pub receive_all : KeyDevice → List RxFrame → KeyDevice
receive_all device [] = device
receive_all device (r ∷ rs) = receive_all (receive device r).1 rs

abbrev pub AllRxValid : List RxFrame → Type 0
AllRxValid [] = Unit
AllRxValid (r ∷ rs) = RxFrameIsValid r × AllRxValid rs

abbrev found : KeyDevice → RxFrame → Option KeyMetadata
found device r =
    find_first (index_matches device.mac_address (rx_header r) (rx_index r)) device.keys

-- What a frame does: nothing, or it stores a newer number in the key that its header selects.
data Received (device : KeyDevice) (r : RxFrame) (out : Bool × KeyDevice) : Type 0 where
  refused : out ≡ (false, device) → Received device r out
  accepted :
      (m : KeyMetadata)
      → found device r ≡ some m
      → sequence_is_newer (rx_number r) m.rx_sequence sequence_size ≡ true
      → out ≡ accept device (rx_header r) (rx_index r) (rx_number r)
      → Received device r out

abbrev Outcomes : KeyDevice → RxFrame → KeyMetadata → Type 0
Outcomes device r m =
    (receive device r ≡ (false, device))
    ⊎ ((sequence_is_newer (rx_number r) m.rx_sequence sequence_size ≡ true)
        × (receive device r ≡ accept device (rx_header r) (rx_index r) (rx_number r)))

receive_found :
    (device : KeyDevice) (r : RxFrame) (m : KeyMetadata)
    → RxFrameIsValid r
    → found device r ≡ some m
    → Outcomes device r m
unfolding receive update_rx_sequence validate_tkip_rx find_key_by_index
receive_found device (ccmp_frame h i c s) m v e = ground arith
receive_found device (tkip_frame t) m v e = ground arith

receive_not_found :
    (device : KeyDevice) (r : RxFrame) → found device r ≡ none → receive device r ≡ (false, device)
unfolding receive update_rx_sequence validate_tkip_rx find_key_by_index
receive_not_found device (ccmp_frame h i c s) e = ground arith
receive_not_found device (tkip_frame t) e = ground arith

receive-Received :
    (device : KeyDevice) (r : RxFrame) → RxFrameIsValid r → Received device r (receive device r)
receive-Received device r v = elim (Option-cases (found device r)) [
  | inl e ↦ refused (receive_not_found device r e)
  | inr (m, e) ↦ elim (receive_found device r m v e) [
    | inl out ↦ refused out
    | inr (newer, out) ↦ accepted m e newer out
  ]
]

-- The number that a key has accepted last.
abbrev last : KeyMetadata → ℕ
last m = value m.rx_sequence

index_matches_stored :
    (mac : MacAddress) (h : HeaderDescription) (i : ℕ) (s : List ℕ) (m : KeyMetadata)
    → index_matches mac h i (store_rx_sequence s m) ≡ index_matches mac h i m
unfolding index_matches
index_matches_stored mac h i s m = refl

newer_value :
    (device : KeyDevice) (r : RxFrame) {m : KeyMetadata}
    → AllValid device.keys
    → RxFrameIsValid r
    → found device r ≡ some m
    → sequence_is_newer (rx_number r) m.rx_sequence sequence_size ≡ true
    → last m < value (rx_number r)
newer_value device r {m} d v e newer =
    let valid =
      find_first-KeyMetadataIsValid (index_matches device.mac_address (rx_header r) (rx_index r))
        device.keys d e in
    (sequence_is_newer_iff (rx_number r) m.rx_sequence v.0 valid.rx_bytes
        (valid.rx_length ∙ sym v.1)).0
      (rw v.1 newer)

-- Receiving keeps every packet number six bytes long.
receive-AllValid :
    (device : KeyDevice) (r : RxFrame)
    → RxFrameIsValid r
    → AllValid device.keys
    → AllValid (receive device r).1.keys
receive-AllValid device r v d = elim (receive-Received device r v) [
  | refused out ↦ rw out d
  | accepted m e newer out ↦ rw out (
      update_first-AllValid (index_matches device.mac_address (rx_header r) (rx_index r))
        (store_rx_sequence (rx_number r))
        (λ k kv. record {
          rx_bytes = v.0;
          rx_length = v.1;
          tx_bytes = kv.tx_bytes;
          tx_length = kv.tx_length;
        })
        device.keys d)
]

receive-mac_address :
    (device : KeyDevice) (r : RxFrame)
    → RxFrameIsValid r
    → (receive device r).1.mac_address ≡ device.mac_address
receive-mac_address device r v = elim (receive-Received device r v) [
  | refused out ↦ rw out
  | accepted m e newer out ↦ rw out
]

-- Whatever is received, the key that a frame selects keeps a number at least as great.
receive-last :
    (device : KeyDevice) (r other : RxFrame) (m : KeyMetadata)
    → RxFrameIsValid r
    → AllValid device.keys
    → found device other ≡ some m
    → (m' : KeyMetadata) × (found (receive device r).1 other ≡ some m') × (last m ≤ last m')
receive-last device r other m v d e = elim (receive-Received device r v) [
  | refused out ↦ rw out (m, e, omega arith)
  | accepted k ek newer out ↦ rw out (
      find_first-update_first last
        (index_matches device.mac_address (rx_header other) (rx_index other))
        (index_matches device.mac_address (rx_header r) (rx_index r))
        (store_rx_sequence (rx_number r))
        (index_matches_stored device.mac_address (rx_header other) (rx_index other) (rx_number r))
        device.keys m k ek (omega (arith, newer_value device r d v ek newer)) e)
]

receive_all-last :
    (device : KeyDevice) (rs : List RxFrame) (other : RxFrame) (m : KeyMetadata)
    → AllRxValid rs
    → AllValid device.keys
    → found device other ≡ some m
    → (m' : KeyMetadata) × (found (receive_all device rs) other ≡ some m') × (last m ≤ last m')
unfolding receive_all
receive_all-last device [] other m v d e = (m, e, omega arith)
receive_all-last device (r ∷ rs) other m v d e =
    let (k, ek, le) = receive-last device r other m v.0 d e in
    let (m', em, le') =
      receive_all-last (receive device r).1 rs other k v.1 (receive-AllValid device r v.0 d) ek in
    (m', em, omega (arith, le, le'))

receive_all-AllValid :
    (device : KeyDevice) (rs : List RxFrame)
    → AllRxValid rs
    → AllValid device.keys
    → AllValid (receive_all device rs).keys
unfolding receive_all
receive_all-AllValid device [] v d = d
receive_all-AllValid device (r ∷ rs) v d =
    receive_all-AllValid (receive device r).1 rs v.1 (receive-AllValid device r v.0 d)

-- A frame that is accepted leaves its number in the key that it selects.
accepted_last :
    (device : KeyDevice) (r : RxFrame)
    → RxFrameIsValid r
    → (receive device r).0 ≡ true
    → (m : KeyMetadata) × (found (receive device r).1 r ≡ some m) × (last m ≡ value (rx_number r))
accepted_last device r v yes_ = elim (receive-Received device r v) [
  | refused out ↦ cc
  | accepted m e newer out ↦ rw out (
    store_rx_sequence (rx_number r) m,
    find_first-update_first_self (index_matches device.mac_address (rx_header r) (rx_index r))
          (store_rx_sequence (rx_number r))
          (index_matches_stored device.mac_address (rx_header r) (rx_index r) (rx_number r))
          device.keys
        ∙ ap (Option.map (store_rx_sequence (rx_number r))) e,
    refl,
  )
]

-- A frame that is accepted has a number above that of the key that it selects.
accepted_newer :
    (device : KeyDevice) (r : RxFrame) {m : KeyMetadata}
    → AllValid device.keys
    → RxFrameIsValid r
    → found device r ≡ some m
    → (receive device r).0 ≡ true
    → last m < value (rx_number r)
accepted_newer device r {m} d v e yes_ = elim (receive-Received device r v) [
  | refused out ↦ cc
  | accepted k ek newer out ↦
      let same : k ≡ m = cc in rw (← same) (newer_value device r d v ek newer)
]

-- No replay: of two frames with the same header and key index that a device accepts, the later one
-- has the greater packet number, whatever CCMP and TKIP frames it receives between the two. The
-- packet numbers of the frames and of the keys have six bytes.
pub receive_increasing :
    (device : KeyDevice) (r : RxFrame) (between : List RxFrame) (later : RxFrame)
    → AllValid device.keys
    → RxFrameIsValid r
    → AllRxValid between
    → RxFrameIsValid later
    → rx_header later ≡ rx_header r
    → rx_index later ≡ rx_index r
    → (receive device r).0 ≡ true
    → (receive (receive_all (receive device r).1 between) later).0 ≡ true
    → value (rx_number r) < value (rx_number later)
receive_increasing device r between later d v vs v' h i first second =
    let (m, em, number) = accepted_last device r v first in
    let d1 = receive-AllValid device r v d in
    let device2 = receive_all (receive device r).1 between in
    let (m', em', le) = receive_all-last (receive device r).1 between r m vs d1 em in
    let found_later : found device2 later ≡ some m' = rw (h, i) em' in
    let above =
      accepted_newer device2 later (receive_all-AllValid (receive device r).1 between vs d1) v'
        found_later second in
    omega (arith, number, le, above)
