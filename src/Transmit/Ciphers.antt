-- ===== src/Transmit/Ciphers.antt =====
-- The CCMP and TKIP headers that src/packet_data.c writes, as src/packet.c reads them.
use u.Common.{
  take-append_all, drop-append, ℕ, zero, suc, ◌-◌, ◌%◌, ◌<◌, ◌≡◌, refl, sym, ap, ap₂, ◌∙◌, true,
  false, not, ◌||◌, Option, none, some, List, [], ◌∷◌, ◌++◌, if◌then◌else◌, ltb, ◌==◌, ==_self,
  length, length-append, drop, take, byte_at, has_flag, set_flag, arith, if_false,
}
use u.Packet.{HeaderDescription, get_type, get_subtype, type_data, subtype_data}
use u.Key.{ccmp, KeyDevice, sequence_size}
use u.Key.Rx.{update_rx_sequence, validate_tkip_rx}
use u.Receive.{
  deserialize_cipher_key_index, data_packet_addresses, process_ccmp_rx, process_tkip_rx,
}
use u.Transmit.{ccmp_header, tkip_header, tkip_check_byte, key_byte}

key_byte-has_flag : (key : ℕ) → key < 4 → has_flag (key_byte key) 5 ≡ true
key_byte-has_flag zero k = refl
key_byte-has_flag (suc zero) k = refl
key_byte-has_flag (suc (suc zero)) k = refl
key_byte-has_flag (suc (suc (suc zero))) k = refl
key_byte-has_flag (suc (suc (suc (suc key)))) k = absurd (omega arith)

six_bytes :
    (x : List ℕ)
    → length x ≡ 6
    → byte_at x 0 ∷ byte_at x 1 ∷ byte_at x 2 ∷ byte_at x 3 ∷ byte_at x 4 ∷ byte_at x 5 ∷ [] ≡ x
six_bytes (x0 ∷ x1 ∷ x2 ∷ x3 ∷ x4 ∷ x5 ∷ []) e = refl
six_bytes [] e = absurd (omega arith)
six_bytes (x0 ∷ []) e = absurd (omega arith)
six_bytes (x0 ∷ x1 ∷ []) e = absurd (omega arith)
six_bytes (x0 ∷ x1 ∷ x2 ∷ []) e = absurd (omega arith)
six_bytes (x0 ∷ x1 ∷ x2 ∷ x3 ∷ []) e = absurd (omega arith)
six_bytes (x0 ∷ x1 ∷ x2 ∷ x3 ∷ x4 ∷ []) e = absurd (omega arith)
six_bytes (x0 ∷ x1 ∷ x2 ∷ x3 ∷ x4 ∷ x5 ∷ x6 ∷ x) e = absurd (omega arith)

-- A CCMP header is read back: the key's index, the packet number and, between the header and the
-- eight bytes of code that the hardware puts behind it, the payload.
pub process_ccmp_rx-ccmp_header :
    (keys : KeyDevice) (h : HeaderDescription) (i key : ℕ) (sequence body code : List ℕ)
    → length sequence ≡ 6
    → length code ≡ 8
    → key < 4
    → let bytes = ccmp_header sequence key ++ (body ++ code) in
      (deserialize_cipher_key_index bytes ≡ some key)
      × (process_ccmp_rx keys h i bytes ≡ (
          let (accepted, keys1) = update_rx_sequence keys h i ccmp sequence sequence_size in
          if accepted then (some body, keys1) else (none, keys1)))
unfolding ccmp_header process_ccmp_rx deserialize_cipher_key_index
process_ccmp_rx-ccmp_header keys h i key sequence body code e c k =
    let n = length-append body code in
    let bytes = ccmp_header sequence key ++ (body ++ code) in
    let long : ltb (length bytes) 16 ≡ false = ground arith in
    (
      ground arith,
      if_false _ _ long
          ∙ if_false _ _ (ap not (key_byte-has_flag key k))
          ∙ ap₂
              (λ p q.
                let (accepted, keys1) = update_rx_sequence keys h i ccmp q sequence_size in
                if accepted then (some p, keys1) else (none, keys1))
              (take-append_all body code (length bytes - 16) (omega (arith, n, c)))
              (six_bytes sequence e),
    )

-- A TKIP header is read back: the key's index, the sequence counter, and the payload and its message
-- integrity code before the four bytes of check value that the hardware puts behind them.
pub process_tkip_rx-tkip_header :
    (keys : KeyDevice) (h : HeaderDescription) (i key : ℕ) (sequence body mic icv : List ℕ)
    → get_type h.frame_control ≡ type_data
    → get_subtype h.frame_control ≡ subtype_data
    → length sequence ≡ 6
    → length mic ≡ 8
    → length icv ≡ 4
    → key < 4
    → let bytes = tkip_header sequence key ++ (body ++ (mic ++ icv)) in
      (deserialize_cipher_key_index bytes ≡ some key)
      × (process_tkip_rx keys h i bytes ≡ (
          let (accepted, keys1) = validate_tkip_rx keys (record {
            header = h;
            key_index = i;
            destination = (data_packet_addresses h).0;
            source = (data_packet_addresses h).1;
            priority = 0;
            payload = body;
            sequence = sequence;
            mic = mic;
          }) in
          if accepted then (some body, keys1) else (none, keys1)))
unfolding tkip_header process_tkip_rx deserialize_cipher_key_index
process_tkip_rx-tkip_header keys h i key sequence body mic icv data_type data_subtype e m c k =
    let n = length-append body (mic ++ icv) in
    let n1 = length-append mic icv in
    let bytes = tkip_header sequence key ++ (body ++ (mic ++ icv)) in
    let size : length bytes - 8 - 8 - 4 ≡ length body = omega (arith, n, n1, m, c) in
    let indexed : deserialize_cipher_key_index bytes ≡ some key = ground arith in
    let not_data : not (get_type h.frame_control == type_data) ≡ false = ground arith in
    let not_plain : not (get_subtype h.frame_control == subtype_data) ≡ false = ground arith in
    let long : ltb (length bytes) 20 ≡ false = ground arith in
    let well_formed : not (has_flag (byte_at bytes 3) 5)
          || not (byte_at bytes 1 == set_flag (byte_at bytes 0) 5 % 128)
        ≡ false =
      ap₂ (λ p q. not p || not q) (key_byte-has_flag key k)
        (==_self (tkip_check_byte (byte_at sequence 1))) in
    let read : List ℕ → List ℕ → List ℕ → Option (List ℕ) × KeyDevice = λ p q w.
      let (accepted, keys1) = validate_tkip_rx keys (record {
        header = h;
        key_index = i;
        destination = (data_packet_addresses h).0;
        source = (data_packet_addresses h).1;
        priority = 0;
        payload = p;
        sequence = q;
        mic = w;
      }) in
      if accepted then (some p, keys1) else (none, keys1) in
    (
      indexed,
      if_false _ _ not_data
          ∙ if_false _ _ not_plain
          ∙ if_false _ _ long
          ∙ if_false _ _ well_formed
          ∙ ap₂ (λ p q. read p q (take 8 (drop (length bytes - 8 - 8 - 4) (body ++ (mic ++ icv)))))
              (take-append_all body (mic ++ icv) (length bytes - 8 - 8 - 4) size)
              (six_bytes sequence e)
          ∙ ap (read body sequence) (
              ap (take 8) (drop-append body (mic ++ icv) (length bytes - 8 - 8 - 4) size)
              ∙ take-append_all mic icv 8 (sym m)),
    )
