-- ===== src/Transmit/Bounds.antt =====
-- The transmit path of src/packet_data.c stays within the buffer.
use u.Common.{
  refl, result_ok, length, ◌<◌, ◌^◌, Result, ℕ, ◌+◌, ◌≤◌, ◌≡◌, ◌⊎◌, inl, inr, true, not, Option,
  none, some, List, [], ◌∷◌, ltb, length-memcpy, sub64, drop, ok, arith, if_case, option_case,
  result_case, status_unsupported, status_not_permitted, status_not_associated,
  status_not_enough_space,
}
use u.Packet.{HeaderDescription, TxBufferDescriptor, DescriptorIsValid, allocate_space, mac_at}
use u.Packet.Serialize.{serialize_header}
use u.Packet.RoundTrip.{serialize_header_ok}
use u.Key.{Cipher, ccmp, tkip, wep40, wep104, KeyDevice}
use u.Key.Table.{select_key, select_cipher_by_index}
use u.Association.{associated, state_equal, Ap}
use u.Receive.{Station}
use u.Transmit.Frame.{
  BufferIsValid, HasTailroom, HasTailroom-valid, with_headroom-HasTailroom, with_snap,
  with_snap-HasTailroom, counted, convert_and_transmit_lem,
}
use u.Transmit.{
  allocate_tx_buffer, tx_buffer_headroom, ethernet_max_frame_size, ethernet_header_size, TxBuffer,
  with_headroom, Prepared, prepare_ccmp_frame, prepare_tkip_frame, DriverCall, free_and_return,
  free_tx_buffer, transmit, Transmitted, serialize_and_transmit, transmit_prepared,
  protect_and_transmit, header_to_ap, hold, release, convert_and_transmit, transmit_buffer,
}

-- Every descriptor that the driver gets has its offset in its size and its size in the memory.
abbrev pub CallsAreValid : List DriverCall → Type 0
CallsAreValid [] = Unit
CallsAreValid (free_tx_buffer d ∷ calls) = DescriptorIsValid d × CallsAreValid calls
CallsAreValid (transmit d key cipher ∷ calls) = DescriptorIsValid d × CallsAreValid calls

serialized-valid :
    (h : HeaderDescription) (d : TxBufferDescriptor) {d1 : TxBufferDescriptor}
    → DescriptorIsValid d
    → serialize_header h d ≡ ok d1
    → DescriptorIsValid d1
serialized-valid h d v e =
    let (supported, fits, built) = serialize_header_ok h d e in
    rw built (grind (arith, length-memcpy))

prepare_ccmp_frame-valid :
    (keys : KeyDevice) (h : HeaderDescription) (key : ℕ) (d : TxBufferDescriptor)
    → HasTailroom d
    → DescriptorIsValid (prepare_ccmp_frame keys h key d).descriptor
unfolding prepare_ccmp_frame allocate_space
prepare_ccmp_frame-valid keys h key d v = grind (arith, length-memcpy)

prepare_tkip_frame-valid :
    (keys : KeyDevice) (h : HeaderDescription) (key : ℕ) (d : TxBufferDescriptor)
    → HasTailroom d
    → DescriptorIsValid (prepare_tkip_frame keys h key d).descriptor
unfolding prepare_tkip_frame allocate_space
prepare_tkip_frame-valid keys h key d v = grind (arith, length-memcpy)

-- the same as a property of what the function leaves
record Valid (t : Transmitted) : Type 0 where
  valid : CallsAreValid t.calls

freed :
    (s : Station) (d : TxBufferDescriptor) (status : ℕ)
    → DescriptorIsValid d
    → Valid (free_and_return s d status)
freed s d status v = record { valid = (v, tt) }

sized :
    (d : TxBufferDescriptor)
    → HasTailroom d
    → (ltb (sub64 d.size d.current_offset) ethernet_header_size ≡ true)
      ⊎ (d.current_offset + 14 ≤ d.size)
sized d v = ground arith

module _ (driver : TxBufferDescriptor → ℕ) where
  serialize_and_transmit-Valid :
      (s : Station) (h : HeaderDescription) (d : TxBufferDescriptor) (key : Option ℕ)
      (cipher : Option Cipher)
      → DescriptorIsValid d
      → Valid (serialize_and_transmit driver s h d key cipher)
  unfolding serialize_and_transmit
  serialize_and_transmit-Valid s h d key cipher v =
      result_case Valid (serialize_header h d) _ _ (λ status e. freed s d status v)
        (λ d1 e. record { valid = (serialized-valid h d v e, tt) })

  transmit_prepared-Valid :
      (s : Station) (p : Prepared) (key : ℕ) (cipher : Cipher)
      → DescriptorIsValid p.descriptor
      → Valid (transmit_prepared driver s p key cipher)
  unfolding transmit_prepared
  transmit_prepared-Valid s p key cipher v =
      let s1 = record s { keys = p.keys } in
      if_case Valid (ltb 0 p.status) _ _ (λ _. freed s1 p.descriptor p.status v)
        (λ _. serialize_and_transmit-Valid s1 p.header p.descriptor (some key) (some cipher) v)

  by_cipher :
      (s : Station) (h : HeaderDescription) (d : TxBufferDescriptor) (key : ℕ) (cipher : Cipher)
      → HasTailroom d
      → Valid (elim cipher [
        | ccmp ↦ transmit_prepared driver s (prepare_ccmp_frame s.keys h key d) key ccmp
        | tkip ↦ transmit_prepared driver s (prepare_tkip_frame s.keys h key d) key tkip
        | wep40 ↦ free_and_return s d status_unsupported
        | wep104 ↦ free_and_return s d status_unsupported
      ])
  by_cipher s h d key ccmp v =
      transmit_prepared-Valid s (prepare_ccmp_frame s.keys h key d) key ccmp
        (prepare_ccmp_frame-valid s.keys h key d v)
  by_cipher s h d key tkip v =
      transmit_prepared-Valid s (prepare_tkip_frame s.keys h key d) key tkip
        (prepare_tkip_frame-valid s.keys h key d v)
  by_cipher s h d key wep40 v = freed s d status_unsupported (HasTailroom-valid v)
  by_cipher s h d key wep104 v = freed s d status_unsupported (HasTailroom-valid v)

  protect_and_transmit-Valid :
      (s : Station) (h : HeaderDescription) (d : TxBufferDescriptor)
      → HasTailroom d
      → Valid (protect_and_transmit driver s h d)
  unfolding protect_and_transmit
  protect_and_transmit-Valid s h d v =
      let u = HasTailroom-valid v in
      option_case Valid (select_key s.keys h) _ _
        (λ _. serialize_and_transmit-Valid s h d none none u)
        (λ key _.
          if_case Valid (ltb 3 key) _ _ (λ _. freed s d status_not_permitted u)
            (λ _.
              option_case Valid (select_cipher_by_index s.keys h key) _ _
                (λ _. freed s d status_unsupported u) (λ cipher _. by_cipher s h d key cipher v)))

  convert_and_transmit-Valid :
      (s : Station) (a : Ap) (d : TxBufferDescriptor)
      → HasTailroom d
      → Valid (convert_and_transmit driver s a d)
  unfolding convert_and_transmit
  convert_and_transmit-Valid s a d v = elim (sized d v) [
    | inl short ↦
        if_case Valid (ltb (sub64 d.size d.current_offset) ethernet_header_size) _ _
          (λ _. freed (release s a) d status_not_enough_space (HasTailroom-valid v))
          (λ e. absurd (cc (short, e)))
    | inr long ↦ rw (convert_and_transmit_lem driver s a d v long) (
        protect_and_transmit-Valid (release (counted s) a)
          (header_to_ap a (mac_at (drop 6 (drop d.current_offset d.buffer)))
            (mac_at (drop d.current_offset d.buffer)) s.tx_sequence_control)
          (with_snap d) (with_snap-HasTailroom d v long))
  ]

  transmit_buffer-Valid :
      (s : Station) (b : TxBuffer) → BufferIsValid b → Valid (transmit_buffer driver s b)
  unfolding transmit_buffer
  transmit_buffer-Valid s b v =
      let w = with_headroom-HasTailroom b v in
      let u = HasTailroom-valid w in
      option_case Valid s.association.ap _ _
        (λ _. freed s (with_headroom b) status_not_associated u)
        (λ a _.
          if_case Valid (not (state_equal s.association.state associated)) _ _
            (λ _. freed s (with_headroom b) status_not_associated u)
            (λ _. convert_and_transmit-Valid (hold s a) a (with_headroom b) w))

-- Whatever the state, the keys and the frame, each descriptor that the driver gets back from
-- u80211_transmit_buffer has its offset in its size and its size in the memory, where the caller's
-- buffer has the headroom and the tailroom.
pub transmit_buffer-CallsAreValid :
    (driver : TxBufferDescriptor → ℕ) (s : Station) (b : TxBuffer)
    → BufferIsValid b
    → CallsAreValid (transmit_buffer driver s b).calls
transmit_buffer-CallsAreValid driver s b v = (transmit_buffer-Valid driver s b v).valid

-- A buffer that the driver allocates with the size that it was asked for, and with the offset at its
-- end, is what `transmit_buffer` expects.
pub allocate_tx_buffer-IsValid :
    (allocate : ℕ → Result TxBufferDescriptor) (d : TxBufferDescriptor)
    → allocate 1586 ≡ ok d
    → d.size ≡ 1586
    → d.current_offset ≡ 1586
    → d.size ≤ length d.buffer
    → length d.buffer < 2 ^ 64
    → (b : TxBuffer) × (allocate_tx_buffer allocate ≡ ok b)
      × (b.size ≡ ethernet_max_frame_size)
      × BufferIsValid b
unfolding allocate_tx_buffer
allocate_tx_buffer-IsValid allocate d e n o fits small = (
  record {
    memory = d.buffer;
    data_start = tx_buffer_headroom;
    size = sub64 d.size (tx_buffer_headroom + 8);
    current_offset = sub64 d.current_offset (tx_buffer_headroom + 8);
  },
  result_ok _ _ e,
  omega arith,
  record { headroom = refl; tailroom = omega arith; offset_in = omega arith; memory_fits = small },
)
