-- ===== src/Receive/Safe.antt =====
-- What a received frame, whatever its bytes, cannot break.
use mathlib.Core.List.{map}
use u.Common.{
  ◌/◌, ℕ, suc, ◌-◌, ◌≡◌, refl, sym, ap, ◌∙◌, Bool, true, false, not, ◌||◌, Option, none, some, List,
  [], ◌∷◌, ltb, ◌==◌, if◌then◌else◌, length, take, drop, byte_at, has_flag, set_flag, ◌%◌, ok, err,
  Result, u64, arith,
}
use u.Packet.{
  HeaderDescription, get_type, get_subtype, type_data, type_management, subtype_data, is_protected,
}
use u.Packet.Header.{deserialize_header}
use u.Key.{Cipher, ccmp, tkip, wep40, wep104, KeyDevice, TkipData}
use u.Key.Rx.{update_rx_sequence, validate_tkip_rx}
use u.Key.Table.{select_cipher_by_index}
use u.Key.Replay.{RxFrame, ccmp_frame, tkip_frame, rx_header, rx_index, rx_number, receive}
use u.Association.{associated}
use u.Association.Duplicate.{is_duplicate}
use u.Association.System.{CleanupWork, System}
use u.Association.Invariant.{Inv}
use u.Management.Safe.{is_duplicate-Inv, process_management_packet-Inv}
use u.Receive.{
  deserialize_cipher_key_index, data_packet_for_device, data_packet_addresses, process_ccmp_rx,
  process_tkip_rx, Station, Outcome, dropped, remove_protection, dispatch, process_packet,
}

-- Where the packet number stands in a protected frame, its lowest byte first.
abbrev pub number_positions : Cipher → List ℕ
number_positions ccmp = 0 ∷ 1 ∷ 4 ∷ 5 ∷ 6 ∷ 7 ∷ []
number_positions tkip = 2 ∷ 0 ∷ 4 ∷ 5 ∷ 6 ∷ 7 ∷ []
number_positions wep40 = []
number_positions wep104 = []

-- The bytes that the protection adds: the header of eight bytes, and the code, with the check value
-- of TKIP.
abbrev pub overhead : Cipher → ℕ
overhead ccmp = 16
overhead tkip = 20
overhead wep40 = 0
overhead wep104 = 0

abbrev pub rx_cipher : RxFrame → Cipher
rx_cipher (ccmp_frame h i c sequence) = c
rx_cipher (tkip_frame t) = tkip

-- A protected frame is refused and the keys stay as they are, or the replay check accepts the packet
-- number that stands in it, for the key whose index stands in its fourth byte, and the payload is what
-- stands between what the protection adds.
pub data Opened (keys : KeyDevice) (header : HeaderDescription) (bytes : List ℕ)
    (out : Option (List ℕ) × KeyDevice) : Type 0 where
  refused : out ≡ (none, keys) → Opened keys header bytes out
  opened :
      (r : RxFrame)
      → rx_header r ≡ header
      → rx_index r ≡ byte_at bytes 3 / 64
      → select_cipher_by_index keys header (byte_at bytes 3 / 64) ≡ some (rx_cipher r)
      → rx_number r ≡ map (byte_at bytes) (number_positions (rx_cipher r))
      → receive keys r ≡ (true, out.1)
      → out.0 ≡ some (take (length bytes - overhead (rx_cipher r)) (drop 8 bytes))
      → Opened keys header bytes out

module _ (keys : KeyDevice) (header : HeaderDescription) (bytes : List ℕ) where
  guarded :
      (b : Bool) (y : Option (List ℕ) × KeyDevice)
      → Opened keys header bytes y
      → Opened keys header bytes (if b then (none, keys) else y)
  guarded true y h = refused refl
  guarded false y h = h

  not_accepted : (r : RxFrame) → (receive keys r).0 ≡ false → (receive keys r).1 ≡ keys
  unfolding receive update_rx_sequence validate_tkip_rx
  not_accepted (ccmp_frame h i c sequence) e = ground arith
  not_accepted (tkip_frame t) e = ground arith

  checked :
      (r : RxFrame) (payload : List ℕ) (out : Bool × KeyDevice)
      → rx_header r ≡ header
      → rx_index r ≡ byte_at bytes 3 / 64
      → select_cipher_by_index keys header (byte_at bytes 3 / 64) ≡ some (rx_cipher r)
      → rx_number r ≡ map (byte_at bytes) (number_positions (rx_cipher r))
      → payload ≡ take (length bytes - overhead (rx_cipher r)) (drop 8 bytes)
      → receive keys r ≡ out
      → Opened keys header bytes (if out.0 then (some payload, out.1) else (none, out.1))
  checked r payload (true, keys1) h i c n p e = opened r h i c n e (ap some p)
  checked r payload (false, keys1) h i c n p e =
      refused (ap (λ k. (none, k)) (sym (ap (λ o. o.1) e) ∙ not_accepted r (ap (λ o. o.0) e)))

  abbrev index : ℕ
  index = byte_at bytes 3 / 64

  ccmp-Opened :
      select_cipher_by_index keys header index ≡ some ccmp
      → Opened keys header bytes (process_ccmp_rx keys header index bytes)
  unfolding process_ccmp_rx receive
  ccmp-Opened c =
      let sequence =
        byte_at bytes 0
        ∷ byte_at bytes 1
        ∷ byte_at bytes 4
        ∷ byte_at bytes 5
        ∷ byte_at bytes 6
        ∷ byte_at bytes 7
        ∷ [] in
      let r = ccmp_frame header index ccmp sequence in
      guarded (ltb (length bytes) 16) _ (
        guarded (not (has_flag (byte_at bytes 3) 5)) _ (
          checked r (take (length bytes - 16) (drop 8 bytes)) (receive keys r) refl refl c refl refl
            refl))

  tkip-Opened :
      select_cipher_by_index keys header index ≡ some tkip
      → Opened keys header bytes (process_tkip_rx keys header index bytes)
  unfolding process_tkip_rx receive
  tkip-Opened c =
      let payload_size = length bytes - 8 - 8 - 4 in
      let payload = take payload_size (drop 8 bytes) in
      let t : TkipData = record {
        header = header;
        key_index = index;
        destination = (data_packet_addresses header).0;
        source = (data_packet_addresses header).1;
        priority = 0;
        payload = payload;
        sequence =
            byte_at bytes 2
            ∷ byte_at bytes 0
            ∷ byte_at bytes 4
            ∷ byte_at bytes 5
            ∷ byte_at bytes 6
            ∷ byte_at bytes 7
            ∷ [];
        mic = take 8 (drop payload_size (drop 8 bytes));
      } in
      guarded (not (get_type header.frame_control == type_data)) _ (
        guarded (not (get_subtype header.frame_control == subtype_data)) _ (
          guarded (ltb (length bytes) 20) _ (
            guarded
              (not (has_flag (byte_at bytes 3) 5)
                || not (byte_at bytes 1 == set_flag (byte_at bytes 0) 5 % 128))
              _
              (checked (tkip_frame t) payload (receive keys (tkip_frame t)) refl refl c refl
                (ap (λ n. take n (drop 8 bytes)) (omega arith)) refl))))

  by_cipher :
      (cipher : Option Cipher)
      → select_cipher_by_index keys header index ≡ cipher
      → Opened keys header bytes (elim cipher [
        | none ↦ (none, keys)
        | some ccmp ↦ process_ccmp_rx keys header index bytes
        | some tkip ↦ process_tkip_rx keys header index bytes
        | some wep40 ↦ (none, keys)
        | some wep104 ↦ (none, keys)
      ])
  by_cipher none e = refused refl
  by_cipher (some ccmp) e = ccmp-Opened e
  by_cipher (some tkip) e = tkip-Opened e
  by_cipher (some wep40) e = refused refl
  by_cipher (some wep104) e = refused refl

  by_size :
      (f : ℕ → Option (List ℕ) × KeyDevice) (short : Bool)
      → Opened keys header bytes (f index)
      → Opened keys header bytes
          (elim (if short then none else some index) [ none ↦ (none, keys) | some i ↦ f i ])
  by_size f true h = refused refl
  by_size f false h = h

-- Removing the protection of a frame refuses it and leaves the keys as they are, or the cipher is
-- that of the key whose index stands in the fourth byte, the replay check accepts the packet number
-- that stands in the frame, in the bytes of that cipher, and the payload is what stands between the
-- cipher's header and the code.
pub remove_protection-Opened :
    (keys : KeyDevice) (header : HeaderDescription) (bytes : List ℕ)
    → Opened keys header bytes (remove_protection keys header bytes)
unfolding remove_protection deserialize_cipher_key_index
remove_protection-Opened keys header bytes =
    by_size keys header bytes _ (ltb (length bytes) 4)
      (by_cipher keys header bytes (select_cipher_by_index keys header (byte_at bytes 3 / 64)) refl)

abbrev pub system_of : CleanupWork → Station → System
system_of work s = record { device = s.association; cleanup = work }

record KeepsInv (work : CleanupWork) (o : Outcome) : Type 0 where
  kept : Inv (system_of work o.station)

module _ (work : CleanupWork) where
  either :
      (b : Bool) (x y : Outcome)
      → KeepsInv work x
      → KeepsInv work y
      → KeepsInv work (if b then x else y)
  either true x y hx hy = hx
  either false x y hx hy = hy

  dispatch-KeepsInv :
      (s : Station) (header : HeaderDescription) (bytes : List ℕ)
      → Inv (system_of work s)
      → KeepsInv work (dispatch s header bytes)
  unfolding dispatch
  dispatch-KeepsInv s header bytes v =
      let v1 = is_duplicate-Inv (system_of work s) header associated v in
      either (get_type header.frame_control == type_management) _ _
        (record {
          kept = process_management_packet-Inv (system_of work s) s.keys.mac_address header bytes v;
        })
        (either
          (not (get_type header.frame_control == type_data)
            || not (data_packet_for_device s.keys.mac_address header))
          _ _ (record { kept = v })
          (either (is_duplicate s.association header associated).0 _ _ (record { kept = v1 })
            (record { kept = v1 })))

  opened-KeepsInv :
      (s : Station) (f : List ℕ → Outcome) (payload : Option (List ℕ))
      → Inv (system_of work s)
      → ((bytes : List ℕ) → KeepsInv work (f bytes))
      → KeepsInv work (elim payload [ none ↦ dropped s | some bytes ↦ f bytes ])
  opened-KeepsInv s f none v h = record { kept = v }
  opened-KeepsInv s f (some bytes) v h = h bytes

  parsed-KeepsInv :
      (s : Station) (f : HeaderDescription × List ℕ → Outcome)
      (r : Result (HeaderDescription × List ℕ))
      → Inv (system_of work s)
      → ((p : HeaderDescription × List ℕ) → KeepsInv work (f p))
      → KeepsInv work (elim r [ err status ↦ dropped s | ok p ↦ f p ])
  parsed-KeepsInv s f (err status) v h = record { kept = v }
  parsed-KeepsInv s f (ok p) v h = h p

-- Every packet, whatever its bytes, keeps the invariant of the association.
pub process_packet-Inv :
    (work : CleanupWork) (s : Station) (u : HeaderDescription) (packet : List ℕ)
    → Inv (system_of work s)
    → Inv (system_of work (process_packet s u packet).station)
unfolding process_packet
process_packet-Inv work s0 u packet v =
    let s = record s0 { packet_count = u64 (suc s0.packet_count) } in
    (parsed-KeepsInv work s _ (deserialize_header packet u) v (λ p.
      either work (is_protected p.0.frame_control) _ _
        (opened-KeepsInv work (record s { keys = (remove_protection s.keys p.0 p.1).1 }) _
          (remove_protection s.keys p.0 p.1).0 v
          (λ bytes.
            dispatch-KeepsInv work (record s { keys = (remove_protection s.keys p.0 p.1).1 }) p.0
              bytes v))
        (dispatch-KeepsInv work s p.0 p.1 v))).kept
