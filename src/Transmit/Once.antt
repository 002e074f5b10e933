-- ===== src/Transmit/Once.antt =====
-- What src/packet_data.c does with the descriptor that it is given, and with the references to the
-- access point.
use u.Common.{
  ℕ, ◌+◌, ◌≡◌, ◌≢◌, refl, not, Option, none, some, List, [], ◌∷◌, ltb, sub64, err, u64, arith,
  if_case, option_case, result_case, status_success, status_unsupported, status_not_permitted,
  status_not_associated, status_not_enough_space,
}
use u.Packet.{HeaderDescription, TxBufferDescriptor, allocate_space}
use u.Packet.Serialize.{serialize_header}
use u.Packet.RoundTrip.{serialize_header_lem}
use u.Key.{Cipher, ccmp, tkip, wep40, wep104}
use u.Key.Table.{select_key, select_cipher_by_index}
use u.Association.{associated, state_equal, Ap, one_at}
use u.Receive.{Station}
use u.Transmit.{
  ethernet_header_size, TxBuffer, with_headroom, Prepared, prepare_ccmp_frame, prepare_tkip_frame,
  DriverCall, free_and_return, free_tx_buffer, transmit, Transmitted, serialize_and_transmit,
  transmit_prepared, protect_and_transmit, hold, release, convert_and_transmit, transmit_buffer,
}

pub serialize_header-error :
    (h : HeaderDescription) (d : TxBufferDescriptor) {status : ℕ}
    → serialize_header h d ≡ err status
    → status ≢ status_success
serialize_header-error h d {status} e = λ z. ground (arith, serialize_header_lem h d)

module _ (driver : TxBufferDescriptor → ℕ) where
  -- The driver is called once: it frees the descriptor, and the status is not success, or it sends it,
  -- and the status is its own.
  abbrev pub IsSettled : List DriverCall → ℕ → Type 0
  IsSettled (free_tx_buffer d ∷ []) status = status ≢ status_success
  IsSettled (transmit d key cipher ∷ []) status = status ≡ driver d
  IsSettled _ status = ⊥

  -- The same, and the access point's reference counts are the given ones.
  record Settled (counts : ℕ → ℕ) (t : Transmitted) : Type 0 where
    settled : IsSettled t.calls t.status
    counted : (x : ℕ) → t.station.association.refcount x ≡ counts x

  module _ (counts : ℕ → ℕ) where
    abbrev Counted : Station → Type 0
    Counted s = (x : ℕ) → s.association.refcount x ≡ counts x

    freed :
        (s : Station) (d : TxBufferDescriptor) (status : ℕ)
        → Counted s
        → status ≢ status_success
        → Settled counts (free_and_return s d status)
    freed s d status c n = record { settled = n; counted = c }

    serialize_and_transmit-Settled :
        (s : Station) (h : HeaderDescription) (d : TxBufferDescriptor) (key : Option ℕ)
        (cipher : Option Cipher)
        → Counted s
        → Settled counts (serialize_and_transmit driver s h d key cipher)
    unfolding serialize_and_transmit
    serialize_and_transmit-Settled s h d key cipher c =
        result_case (Settled counts) (serialize_header h d) _ _
          (λ status e. freed s d status c (serialize_header-error h d e))
          (λ d1 e. record { settled = refl; counted = c })

    transmit_prepared-Settled :
        (s : Station) (p : Prepared) (key : ℕ) (cipher : Cipher)
        → Counted s
        → Settled counts (transmit_prepared driver s p key cipher)
    unfolding transmit_prepared
    transmit_prepared-Settled s p key cipher c =
        let s1 = record s { keys = p.keys } in
        if_case (Settled counts) (ltb 0 p.status) _ _
          (λ e. freed s1 p.descriptor p.status c (λ z. ground arith))
          (λ _. serialize_and_transmit-Settled s1 p.header p.descriptor (some key) (some cipher) c)

    by_cipher :
        (s : Station) (h : HeaderDescription) (d : TxBufferDescriptor) (key : ℕ) (cipher : Cipher)
        → Counted s
        → Settled counts (elim cipher [
          | ccmp ↦ transmit_prepared driver s (prepare_ccmp_frame s.keys h key d) key ccmp
          | tkip ↦ transmit_prepared driver s (prepare_tkip_frame s.keys h key d) key tkip
          | wep40 ↦ free_and_return s d status_unsupported
          | wep104 ↦ free_and_return s d status_unsupported
        ])
    by_cipher s h d key ccmp c =
        transmit_prepared-Settled s (prepare_ccmp_frame s.keys h key d) key ccmp c
    by_cipher s h d key tkip c =
        transmit_prepared-Settled s (prepare_tkip_frame s.keys h key d) key tkip c
    by_cipher s h d key wep40 c = freed s d status_unsupported c (λ e. omega arith)
    by_cipher s h d key wep104 c = freed s d status_unsupported c (λ e. omega arith)

    protect_and_transmit-Settled :
        (s : Station) (h : HeaderDescription) (d : TxBufferDescriptor)
        → Counted s
        → Settled counts (protect_and_transmit driver s h d)
    unfolding protect_and_transmit
    protect_and_transmit-Settled s h d c =
        option_case (Settled counts) (select_key s.keys h) _ _
          (λ _. serialize_and_transmit-Settled s h d none none c)
          (λ key _.
            if_case (Settled counts) (ltb 3 key) _ _
              (λ _. freed s d status_not_permitted c (λ z. omega arith))
              (λ _.
                option_case (Settled counts) (select_cipher_by_index s.keys h key) _ _
                  (λ _. freed s d status_unsupported c (λ z. omega arith))
                  (λ cipher _. by_cipher s h d key cipher c)))

    convert_and_transmit-Settled :
        (s : Station) (a : Ap) (d : TxBufferDescriptor)
        → ((x : ℕ) → s.association.refcount x ≡ counts x + one_at a x)
        → Settled counts (convert_and_transmit driver s a d)
    unfolding convert_and_transmit
    convert_and_transmit-Settled s a d c =
        let released : Counted (release s a) = λ x. omega (arith, c x) in
        if_case (Settled counts) (ltb (sub64 d.size d.current_offset) ethernet_header_size) _ _
          (λ _. freed (release s a) d status_not_enough_space released (λ z. omega arith))
          (λ _.
            option_case (Settled counts)
              (allocate_space
                (record d { current_offset = u64 (d.current_offset + ethernet_header_size) }) 8)
              _ _
              (λ _.
                freed (release s a)
                  (record d { current_offset = u64 (d.current_offset + ethernet_header_size) })
                  status_not_enough_space released (λ z. omega arith))
              (λ d2 _. protect_and_transmit-Settled _ _ _ released))

  transmit_buffer-SettledAt :
      (s : Station) (b : TxBuffer) → Settled s.association.refcount (transmit_buffer driver s b)
  unfolding transmit_buffer
  transmit_buffer-SettledAt s b =
      let same : (x : ℕ) → s.association.refcount x ≡ s.association.refcount x = λ x. refl in
      option_case (Settled s.association.refcount) s.association.ap _ _
        (λ _.
          freed s.association.refcount s (with_headroom b) status_not_associated same
            (λ z. omega arith))
        (λ a _.
          if_case (Settled s.association.refcount)
            (not (state_equal s.association.state associated)) _ _
            (λ _.
              freed s.association.refcount s (with_headroom b) status_not_associated same
                (λ z. omega arith))
            (λ _.
              convert_and_transmit-Settled s.association.refcount (hold s a) a (with_headroom b)
                (λ x. refl)))

-- Whatever the state, the keys, the buffer and the driver's answer, u80211_transmit_buffer gives
-- the descriptor to the driver exactly once: it has it freed and returns an error, or has it sent
-- and returns the driver's status. And it leaves every reference count as it was.
pub transmit_buffer-IsSettled :
    (driver : TxBufferDescriptor → ℕ) (s : Station) (b : TxBuffer)
    → IsSettled driver (transmit_buffer driver s b).calls (transmit_buffer driver s b).status
      × ((x : ℕ)
          → (transmit_buffer driver s b).station.association.refcount x ≡ s.association.refcount x)
transmit_buffer-IsSettled driver s b =
    let known = transmit_buffer-SettledAt driver s b in (known.settled, known.counted)
