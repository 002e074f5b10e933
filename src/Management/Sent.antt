-- ===== src/Management/Sent.antt =====
-- The frames that src/packet_management.c sends, as a receiver reads them.
use mathlib.Core.List.{append-nil}
use u.Common.{
  inl, ℕ, ◌+◌, ◌-◌, ◌≤◌, ◌<◌, ◌^◌, ◌≡◌, refl, ap, ◌∙◌, true, false, List, [], ◌∷◌, ◌++◌, none, some,
  Result, ok, length, length-append, take, drop, memcpy, memcpy-append, u16, u64, arith,
  option_some, result_ok,
}
use u.Packet.{
  MacAddress, HeaderDescription, HeaderIsValid, TxBufferDescriptor, allocate_space, frame, get_type,
  type_management,
}
use u.Packet.Header.{deserialize_header}
use u.Packet.Serialize.{serialize_header}
use u.Packet.RoundTrip.{
  header_bytes, is_supported, has_four_addresses, frame-memcpy, serialize_header_ok,
  serialize_header-some, deserialize-header_bytes, length-header_bytes,
}
use u.Transmit.{transmit}
use u.Management.Send.{
  Sender, prepared, management_header, prepare_management_packet, SentManagement,
  transmit_management,
}

-- A buffer that the driver allocates for a frame of `size` bytes: the offset at its end, and room for
-- the frame in front of it.
pub record IsAllocated (d : TxBufferDescriptor) (size : ℕ) : Type 0 where
  pub at_end : d.current_offset ≡ d.size
  pub large : size ≤ d.size
  pub size_in : d.size ≤ length d.buffer

-- The driver's one call for a frame, and how the frame is parsed.
pub record SentFrame (t : SentManagement) (h u : HeaderDescription) (body : List ℕ) : Type 0 where
  pub descriptor : TxBufferDescriptor
  pub calls_lem : t.calls ≡ transmit descriptor none none ∷ []
  pub parsed :
      deserialize_header (frame descriptor) u ≡ ok (record h { addresses_3 = u.addresses_3 }, body)

module _ (d : TxBufferDescriptor) (h : HeaderDescription) (body : List ℕ)
    (v : IsAllocated d (24 + length body))
    (management : get_type h.frame_control ≡ type_management) where
  -- the memory with the header and the body in it
  abbrev offset : ℕ
  offset = d.size - length body - 24

  three : has_four_addresses h ≡ false
  three = rw management refl

  supported : is_supported h ≡ true
  supported = rw management refl

  size_lem : length (header_bytes h) ≡ 24
  size_lem = length-header_bytes h three

  header_and_body :
      frame (record d {
        buffer = memcpy (memcpy d.buffer offset (header_bytes h)) (d.size - length body) body;
        current_offset = offset;
      })
      ≡ header_bytes h ++ body
  header_and_body =
      let n = length-append (header_bytes h) body in
      let all = header_bytes h ++ body in
      let d0 = record d { current_offset = d.size } in
      ap (λ q. frame (record d { buffer = q; current_offset = offset }))
        (memcpy-append d.buffer offset (d.size - length body) (header_bytes h) body
          (omega (arith, size_lem, v.large)))
      ∙ ap (λ o. frame (record d { buffer = memcpy d.buffer o all; current_offset = o }))
          {x = offset} {y = d.size - length all} (omega (arith, n, size_lem))
      ∙ frame-memcpy d0 (record { offset_in = omega arith; size_in = v.size_in }) all
          (omega (arith, n, size_lem, v.large))
      ∙ ap (λ k. all ++ take k (drop d.size d.buffer)) {x = d.size - d.size} {y = 0} (omega arith)
      ∙ append-nil all

  serialize_lem :
      HeaderIsValid h
      → serialize_header h (record d { current_offset = d.size - length body })
        ≡ ok
            (record d { buffer = memcpy d.buffer offset (header_bytes h); current_offset = offset })
  serialize_lem valid =
      let d1 = record d { current_offset = d.size - length body } in
      let (d2, built, parsed) =
        serialize_header-some h h d1 valid (record { offset_in = omega arith; size_in = v.size_in })
          supported three (omega (arith, v.large)) in
      let (_, _, same) = serialize_header_ok h d1 built in
      built
      ∙ ap ok (
          same
          ∙ ap (λ o. record d { buffer = memcpy d.buffer o (header_bytes h); current_offset = o })
              {x = d.size - length body - length (header_bytes h)} {y = offset}
              (omega (arith, size_lem)))

spaced :
    (d : TxBufferDescriptor) (size n : ℕ)
    → IsAllocated d (24 + n)
    → size ≡ n
    → allocate_space d size ≡ some (record d { current_offset = d.size - n })
unfolding allocate_space
spaced d size n v e = ground (arith, v.at_end, v.large)

-- A frame whose body is `body`, from its preparation to the call of the driver.
module _ (allocate : ℕ → Result TxBufferDescriptor) (driver : TxBufferDescriptor → ℕ) (s : Sender)
    (address : MacAddress) (subtype : ℕ) (write : List ℕ → ℕ → List ℕ) (u : HeaderDescription)
    (body : List ℕ) where
  abbrev pub sent_header : HeaderDescription
  sent_header = management_header s address subtype

  pub transmit_management-SentFrame :
      (size : ℕ) (d : TxBufferDescriptor)
      → size ≡ length body
      → subtype < 16
      → s.tx_sequence_control < 2 ^ 16
      → 24 + length body < 2 ^ 64
      → allocate (24 + length body) ≡ ok d
      → IsAllocated d (24 + length body)
      → ((buffer : List ℕ) (o : ℕ) → write buffer o ≡ memcpy buffer o body)
      → SentFrame
          (transmit_management driver write
            (prepare_management_packet allocate s address subtype size))
          sent_header
          u
          body
  unfolding prepare_management_packet transmit_management
  transmit_management-SentFrame size d same low counter fits allocated v written =
      let management : get_type sent_header.frame_control ≡ type_management = omega arith in
      let valid : HeaderIsValid sent_header = record {
        frame_control_fits = omega arith;
        duration_id_fits = omega arith;
        sequence_control_fits = counter;
      } in
      let d1 = record d { current_offset = d.size - length body } in
      let d2 = record d {
        buffer =
            memcpy d.buffer (offset d sent_header body v management) (header_bytes sent_header);
        current_offset = offset d sent_header body v management;
      } in
      let built : prepare_management_packet allocate s address subtype size
          ≡ prepared (record s { tx_sequence_control = u16 (s.tx_sequence_control + 0x10) }) d2
              (d.size - length body) =
        result_ok _ _
          (ap allocate {x = u64 (24 + size)} {y = 24 + length body} (omega arith) ∙ allocated)
        ∙ option_some _ _ (spaced d size (length body) v same)
        ∙ result_ok _ _ (serialize_lem d sent_header body v management valid) in
      let sent = record d2 { buffer = write d2.buffer (d.size - length body) } in
      record {
        descriptor = sent;
        calls_lem = ap (λ p. (transmit_management driver write p).calls) built;
        parsed =
            ap (λ q. deserialize_header (frame (record d2 { buffer = q })) u)
              (written d2.buffer (d.size - length body))
            ∙ ap (λ q. deserialize_header q u) (header_and_body d sent_header body v management)
            ∙ deserialize-header_bytes sent_header u body valid (inl management)
            ∙ rw (three d sent_header body v management) refl;
      }
