-- ===== src/Transmit/TkipKeys.antt =====
-- The two ends of a TKIP key: src/packet_data.c takes a number and a code from it, src/packet.c has
-- them checked.
use u.Common.{
  ℕ, ◌≤◌, ◌<◌, ◌≡◌, refl, sym, ap, ◌∙◌, Bool, true, false, ◌&&◌, Option, none, some, List, ◌++◌,
  if◌then◌else◌, ltb, ◌==◌, length, drop, take, replicate, arith, if_true, if_false, option_some,
  status_success,
}
use u.Packet.{HeaderDescription, TxBufferDescriptor, frame, mac_bytes}
use u.Michael.{michael_mic}
use u.Key.{
  Cipher, tkip, cipher_equal, KeyMetadata, KeyDevice, TkipData, sequence_size, tkip_key_size,
  increment_sequence, sequence_is_newer,
}
use u.Key.Table.{select_key, select_cipher_by_index, find_key_by_index}
use u.Key.Tx.{prepare_tkip_tx, calculated_tx_mic}
use u.Key.Rx.{accept, validate_tkip_rx, calculated_rx_mic}
use u.Key.Mic.{mic_equal_iff}
use u.Receive.{Station}
use u.Transmit.{tkip_header, protect, prepare_tkip_frame, transmit_prepared, protect_and_transmit}
use u.Transmit.Encrypted.{allocated, with_cipher_header}
use u.Transmit.Tailroom.{with_mic}
use u.Michael.Half.{michael_mic-take}

-- The code that a key's half at an offset gives for a payload behind a header.
abbrev pub code_of : ℕ → KeyMetadata → HeaderDescription → List ℕ → List ℕ
code_of offset m h payload =
    michael_mic (take 8 (drop offset m.key)) (mac_bytes h.addresses_2) (mac_bytes h.addresses_1) 0
      payload

-- A key that TKIP uses.
abbrev pub is_tkip_key : KeyMetadata → Bool
is_tkip_key m = cipher_equal m.cipher tkip && m.key_len == tkip_key_size

abbrev pub tkip_request : HeaderDescription → ℕ → List ℕ → TkipData
tkip_request h key payload = record {
  header = h;
  key_index = key;
  destination = h.addresses_2;
  source = h.addresses_1;
  priority = 0;
  payload = payload;
  sequence = replicate 6 0;
  mic = replicate 8 0;
}

prepare_tkip_tx_lem :
    (keys : KeyDevice) (t : TkipData) (m : KeyMetadata) (sequence : List ℕ)
    → find_key_by_index keys t.header t.key_index ≡ some m
    → is_tkip_key m ≡ true
    → increment_sequence m.tx_sequence sequence_size ≡ some sequence
    → (prepare_tkip_tx keys t).0
      ≡ some (record t {
        sequence = sequence;
        mic =
            michael_mic
              (take 8 (drop 16 m.key))
              (mac_bytes t.destination)
              (mac_bytes t.source)
              t.priority
              t.payload;
      })
unfolding prepare_tkip_tx calculated_tx_mic
prepare_tkip_tx_lem keys t m sequence found good next =
    ap (λ (r : Option TkipData × KeyDevice). r.0)
      (option_some _ _ found ∙ if_true _ _ good ∙ option_some _ _ next)
    ∙ ap (λ w. some (record t { sequence = sequence; mic = w }))
        (sym (
          michael_mic-take (drop 16 m.key) (mac_bytes t.destination) (mac_bytes t.source) t.priority
            t.payload))

pub prepare_tkip_frame_lem :
    (keys : KeyDevice) (h : HeaderDescription) (key : ℕ) (d : TxBufferDescriptor) (m : KeyMetadata)
    (sequence : List ℕ)
    → 8 ≤ d.current_offset
    → find_key_by_index keys h key ≡ some m
    → is_tkip_key m ≡ true
    → increment_sequence m.tx_sequence sequence_size ≡ some sequence
    → prepare_tkip_frame keys h key d ≡ record {
      status = status_success;
      header = protect h;
      descriptor =
          with_mic (with_cipher_header d (tkip_header sequence key)) (code_of 16 m h (frame d));
      keys = (prepare_tkip_tx keys (tkip_request h key (frame d))).1;
    }
unfolding prepare_tkip_frame
prepare_tkip_frame_lem keys h key d m sequence room found good next =
    option_some _ _ (allocated d room)
    ∙ option_some _ _
        (prepare_tkip_tx_lem keys (tkip_request h key (frame d)) m sequence found good next)

pub protect_and_transmit-tkip :
    (driver : TxBufferDescriptor → ℕ) (s : Station) (h : HeaderDescription) (d : TxBufferDescriptor)
    (key : ℕ)
    → select_key s.keys h ≡ some key
    → key < 4
    → select_cipher_by_index s.keys h key ≡ some tkip
    → protect_and_transmit driver s h d
      ≡ transmit_prepared driver s (prepare_tkip_frame s.keys h key d) key tkip
unfolding protect_and_transmit
protect_and_transmit-tkip driver s h d key e k c =
    let low : ltb 3 key ≡ false = ground arith in option_some _ _ e ∙ if_false _ _ low ∙ rw c refl

-- A receiver whose key's receive half is the sender's transmit half finds the code that it computes.
pub validate_tkip_rx_lem :
    (peer : KeyDevice) (h : HeaderDescription) (key : ℕ) (m pm : KeyMetadata)
    (sequence payload : List ℕ)
    → find_key_by_index peer h key ≡ some pm
    → is_tkip_key pm ≡ true
    → take 8 (drop 24 pm.key) ≡ take 8 (drop 16 m.key)
    → validate_tkip_rx peer (record {
      header = h;
      key_index = key;
      destination = h.addresses_2;
      source = h.addresses_1;
      priority = 0;
      payload = payload;
      sequence = sequence;
      mic = code_of 16 m h payload;
    })
      ≡ (if sequence_is_newer sequence pm.rx_sequence sequence_size
          then accept peer h key sequence
          else (false, peer))
unfolding validate_tkip_rx calculated_rx_mic
validate_tkip_rx_lem peer h key m pm sequence payload found good half =
    let same : michael_mic (drop 24 pm.key) (mac_bytes h.addresses_2) (mac_bytes h.addresses_1) 0
          payload
        ≡ code_of 16 m h payload =
      sym (
        michael_mic-take (drop 24 pm.key) (mac_bytes h.addresses_2) (mac_bytes h.addresses_1) 0
          payload)
      ∙ ap (λ k. michael_mic k (mac_bytes h.addresses_2) (mac_bytes h.addresses_1) 0 payload)
          half in
    option_some _ _ found
    ∙ if_true _ _ good
    ∙ rw
        ((mic_equal_iff
            (michael_mic (drop 24 pm.key) (mac_bytes h.addresses_2) (mac_bytes h.addresses_1) 0
              payload)
            (code_of 16 m h payload) (ap length same)).1
          same)
        refl

pub is_tkip_key-select :
    (keys : KeyDevice) (h : HeaderDescription) (key : ℕ) (m : KeyMetadata)
    → find_key_by_index keys h key ≡ some m
    → is_tkip_key m ≡ true
    → select_cipher_by_index keys h key ≡ some tkip
unfolding select_cipher_by_index
is_tkip_key-select keys h key m found good =
    option_some _ _ found ∙ ap some (by_cipher m.cipher m.key_len good)
  where
    by_cipher : (c : Cipher) (n : ℕ) → (cipher_equal c tkip && n == tkip_key_size) ≡ true → c ≡ tkip
    by_cipher c n e = ground arith

pub tkip_header-append :
    (sequence : List ℕ) (key : ℕ) (x y : List ℕ)
    → (tkip_header sequence key ++ x) ++ y ≡ tkip_header sequence key ++ (x ++ y)
unfolding tkip_header
tkip_header-append sequence key x y = refl

pub if_accepted :
    (newer : Bool) (payload : List ℕ) (keys1 keys : KeyDevice)
    → let checked : Bool × KeyDevice = if newer then (true, keys1) else (false, keys) in
      let opened : Option (List ℕ) × KeyDevice =
        if newer then (some payload, keys1) else (none, keys) in
      (if checked.0 then (some payload, checked.1) else (none, checked.1)) ≡ opened
if_accepted true payload keys1 keys = refl
if_accepted false payload keys1 keys = refl

pub tkip_header-length : (sequence : List ℕ) (key : ℕ) → length (tkip_header sequence key) ≡ 8
unfolding tkip_header
tkip_header-length sequence key = refl
