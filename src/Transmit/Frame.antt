-- ===== src/Transmit/Frame.antt =====
-- From an Ethernet frame in a transmit buffer to the frame behind an 802.11 header.
use u.Common.{
  ℕ, zero, suc, ◌+◌, ◌-◌, ◌≤◌, ◌<◌, ◌^◌, ◌≡◌, refl, sym, ap, ap₂, ◌∙◌, subst, false, some, List, [],
  ◌∷◌, ◌++◌, ltb, length, drop, take, memcpy, memcpy-append, length-memcpy, length-drop, drop-drop,
  sub64, u16, u64, byte_at, arith,
}
use u.Packet.{TxBufferDescriptor, DescriptorIsValid, allocate_space, mac_at, mac_bytes, frame}
use u.Packet.RoundTrip.{frame-memcpy}
use u.Association.{Ap}
use u.Receive.{Station, byte_header}
use u.Transmit.{
  tx_buffer_headroom, ethernet_header_size, TxBuffer, with_headroom, header_to_ap, release,
  convert_and_transmit, protect_and_transmit,
}

-- What a caller of `u80211_transmit_buffer` holds: the headroom is in front of `data`, the tailroom
-- is behind the logical size, and the offset lies in it.
pub record BufferIsValid (b : TxBuffer) : Type 0 where
  pub headroom : b.data_start ≡ tx_buffer_headroom
  pub tailroom : b.data_start + b.size + 8 ≤ length b.memory
  pub offset_in : b.current_offset ≤ b.size
  pub memory_fits : length b.memory < 2 ^ 64

-- The Ethernet frame that the caller has put into the buffer.
abbrev pub ethernet_frame : TxBuffer → List ℕ
ethernet_frame b =
    take (b.size - b.current_offset) (drop (b.data_start + b.current_offset) b.memory)

-- The offset lies in the logical buffer, and there is room for a code behind it.
pub record HasTailroom (d : TxBufferDescriptor) : Type 0 where
  pub offset_in : d.current_offset ≤ d.size
  pub tail_in : d.size + 8 ≤ length d.buffer
  pub buffer_fits : length d.buffer < 2 ^ 64

pub HasTailroom-valid : {d : TxBufferDescriptor} → HasTailroom d → DescriptorIsValid d
HasTailroom-valid v = record { offset_in = v.offset_in; size_in = omega (arith, v.tail_in) }

pub with_headroom-HasTailroom : (b : TxBuffer) → BufferIsValid b → HasTailroom (with_headroom b)
unfolding with_headroom
with_headroom-HasTailroom b v =
    let n = length-drop (b.data_start - tx_buffer_headroom) b.memory in ground arith

pub with_headroom-frame :
    (b : TxBuffer)
    → BufferIsValid b
    → (frame (with_headroom b) ≡ ethernet_frame b)
      × ((with_headroom b).current_offset ≡ b.current_offset + 64)
      × ((with_headroom b).size ≡ b.size + 64)
unfolding with_headroom
with_headroom-frame b v =
    let o : u64 (b.current_offset + 64) ≡ b.current_offset + 64 = omega (arith, v.headroom) in
    let n : u64 (b.size + 64) ≡ b.size + 64 = omega (arith, v.headroom) in
    (
      ap₂ (λ k q. take k q) (omega (arith, v.headroom))
          (drop-drop (u64 (b.current_offset + 64)) (b.data_start - 64) b.memory
            ∙ ap (λ k. drop k b.memory) (omega (arith, v.headroom))),
      o,
      n,
    )

-- The LLC/SNAP header with the type of an Ethernet frame.
abbrev pub snap_header : List ℕ → List ℕ
snap_header e = byte_header ++ (byte_at e 12 ∷ byte_at e 13 ∷ [])

-- The descriptor after the LLC/SNAP header has taken the place of the Ethernet header.
abbrev pub with_snap : TxBufferDescriptor → TxBufferDescriptor
with_snap d = record d {
  buffer = memcpy d.buffer (d.current_offset + 6) (snap_header (drop d.current_offset d.buffer));
  current_offset = d.current_offset + 6;
}

pub with_snap-HasTailroom :
    (d : TxBufferDescriptor)
    → HasTailroom d
    → d.current_offset + 14 ≤ d.size
    → HasTailroom (with_snap d)
with_snap-HasTailroom d v h =
    let n =
      length-memcpy d.buffer (d.current_offset + 6)
        (snap_header (drop d.current_offset d.buffer)) in
    ground arith

abbrev pub counted : Station → Station
counted s = record s { tx_sequence_control = u16 (s.tx_sequence_control + 0x10) }

not_short :
    (d : TxBufferDescriptor)
    → HasTailroom d
    → d.current_offset + 14 ≤ d.size
    → ltb (sub64 d.size d.current_offset) ethernet_header_size ≡ false
not_short d v h = ground arith

allocated :
    (d : TxBufferDescriptor)
    → HasTailroom d
    → d.current_offset + 14 ≤ d.size
    → allocate_space (record d { current_offset = u64 (d.current_offset + ethernet_header_size) }) 8
      ≡ some (record d { current_offset = d.current_offset + 6 })
unfolding allocate_space
allocated d v h = ground arith

-- A frame of less than fourteen bytes is refused, and any other gets its LLC/SNAP header: there is
-- always room for it.
pub convert_and_transmit_lem :
    (driver : TxBufferDescriptor → ℕ) (s : Station) (a : Ap) (d : TxBufferDescriptor)
    → HasTailroom d
    → d.current_offset + 14 ≤ d.size
    → convert_and_transmit driver s a d
      ≡ protect_and_transmit driver
          (release (counted s) a)
          (header_to_ap a
            (mac_at (drop 6 (drop d.current_offset d.buffer)))
            (mac_at (drop d.current_offset d.buffer))
            s.tx_sequence_control)
          (with_snap d)
unfolding convert_and_transmit
convert_and_transmit_lem driver s a d v h = rw (
  not_short d v h,
  allocated d v h,
  memcpy-append d.buffer (d.current_offset + 6) (d.current_offset + 6 + 6) byte_header
      (byte_at (drop d.current_offset d.buffer) 12
        ∷ byte_at (drop d.current_offset d.buffer) 13
        ∷ [])
      refl,
)

-- the fourteen bytes of an Ethernet header, read field by field, are the start of the frame
ethernet_fields :
    (k : ℕ) (x : List ℕ)
    → 14 ≤ length x
    → mac_bytes (mac_at x)
        ++ (mac_bytes (mac_at (drop 6 x))
            ++ (byte_at x 12
                ∷ byte_at x 13
                ∷ drop 14 (
                    take
                      (suc (
                        suc (
                          suc (suc (suc (suc (suc (suc (suc (suc (suc (suc (suc (suc k))))))))))))))
                      x)))
      ≡ take (suc (suc (suc (suc (suc (suc (suc (suc (suc (suc (suc (suc (suc (suc k)))))))))))))) x
ethernet_fields k [] h = absurd (omega arith)
ethernet_fields k (x0 ∷ []) h = absurd (omega arith)
ethernet_fields k (x0 ∷ x1 ∷ []) h = absurd (omega arith)
ethernet_fields k (x0 ∷ x1 ∷ x2 ∷ []) h = absurd (omega arith)
ethernet_fields k (x0 ∷ x1 ∷ x2 ∷ x3 ∷ []) h = absurd (omega arith)
ethernet_fields k (x0 ∷ x1 ∷ x2 ∷ x3 ∷ x4 ∷ []) h = absurd (omega arith)
ethernet_fields k (x0 ∷ x1 ∷ x2 ∷ x3 ∷ x4 ∷ x5 ∷ []) h = absurd (omega arith)
ethernet_fields k (x0 ∷ x1 ∷ x2 ∷ x3 ∷ x4 ∷ x5 ∷ x6 ∷ []) h = absurd (omega arith)
ethernet_fields k (x0 ∷ x1 ∷ x2 ∷ x3 ∷ x4 ∷ x5 ∷ x6 ∷ x7 ∷ []) h = absurd (omega arith)
ethernet_fields k (x0 ∷ x1 ∷ x2 ∷ x3 ∷ x4 ∷ x5 ∷ x6 ∷ x7 ∷ x8 ∷ []) h = absurd (omega arith)
ethernet_fields k (x0 ∷ x1 ∷ x2 ∷ x3 ∷ x4 ∷ x5 ∷ x6 ∷ x7 ∷ x8 ∷ x9 ∷ []) h = absurd (omega arith)
ethernet_fields k (x0 ∷ x1 ∷ x2 ∷ x3 ∷ x4 ∷ x5 ∷ x6 ∷ x7 ∷ x8 ∷ x9 ∷ x10 ∷ []) h =
    absurd (omega arith)
ethernet_fields k (x0 ∷ x1 ∷ x2 ∷ x3 ∷ x4 ∷ x5 ∷ x6 ∷ x7 ∷ x8 ∷ x9 ∷ x10 ∷ x11 ∷ []) h =
    absurd (omega arith)
ethernet_fields k (x0 ∷ x1 ∷ x2 ∷ x3 ∷ x4 ∷ x5 ∷ x6 ∷ x7 ∷ x8 ∷ x9 ∷ x10 ∷ x11 ∷ x12 ∷ []) h =
    absurd (omega arith)
ethernet_fields k (x0 ∷ x1 ∷ x2 ∷ x3 ∷ x4 ∷ x5 ∷ x6 ∷ x7 ∷ x8 ∷ x9 ∷ x10 ∷ x11 ∷ x12 ∷ x13 ∷ rest)
      h =
    refl

pub ethernet_frame_fields :
    (n : ℕ) (x : List ℕ)
    → 14 ≤ n
    → n ≤ length x
    → mac_bytes (mac_at x)
        ++ (mac_bytes (mac_at (drop 6 x)) ++ (byte_at x 12 ∷ byte_at x 13 ∷ drop 14 (take n x)))
      ≡ take n x
ethernet_frame_fields n x h k =
    let same : suc
          (suc (suc (suc (suc (suc (suc (suc (suc (suc (suc (suc (suc (suc (n - 14))))))))))))))
        ≡ n =
      omega arith in
    subst
      (λ j.
        mac_bytes (mac_at x)
          ++ (mac_bytes (mac_at (drop 6 x)) ++ (byte_at x 12 ∷ byte_at x 13 ∷ drop 14 (take j x)))
        ≡ take j x)
      same (ethernet_fields (n - 14) x (omega arith))

take_nil : (n : ℕ) → take {A = ℕ} n [] ≡ []
take_nil zero = refl
take_nil (suc n) = refl

drop-take : (k n : ℕ) (x : List ℕ) → drop k (take n x) ≡ take (n - k) (drop k x)
drop-take zero n x = ap (λ j. take j x) (omega arith)
drop-take (suc k) zero x = ap {B = List ℕ} (λ j. take j (drop (suc k) x)) {x = zero} (omega arith)
drop-take (suc k) (suc n) [] = sym (take_nil (suc n - suc k))
drop-take (suc k) (suc n) (y ∷ x) =
    drop-take k n x ∙ ap (λ j. take j (drop k x)) {y = suc n - suc k} (omega arith)

-- The payload stays where it is, behind the LLC/SNAP header.
pub with_snap-frame :
    (d : TxBufferDescriptor)
    → HasTailroom d
    → d.current_offset + 14 ≤ d.size
    → frame (with_snap d) ≡ snap_header (drop d.current_offset d.buffer) ++ drop 14 (frame d)
with_snap-frame d v h =
    let d1 = record d { current_offset = d.current_offset + 14 } in
    let snap = snap_header (drop d.current_offset d.buffer) in
    let moved : d.current_offset + 14 - 8 ≡ d.current_offset + 6 = omega arith in
    let put =
      frame-memcpy d1 (record { offset_in = h; size_in = (HasTailroom-valid v).size_in }) snap
        (omega arith) in
    ap (λ o. frame (record d { buffer = memcpy d.buffer o snap; current_offset = o })) (sym moved)
    ∙ put
    ∙ ap (λ q. snap ++ q)
        (ap₂ (λ m q. take m q) (omega arith) (sym (drop-drop 14 d.current_offset d.buffer))
          ∙ sym (drop-take 14 (d.size - d.current_offset) (drop d.current_offset d.buffer)))
