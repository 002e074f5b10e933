-- ===== src/Management/Once.antt =====
-- What src/packet_management.c does with the buffers that the driver allocates.
use u.Common.{
  ℕ, ◌+◌, ◌≡◌, ◌≢◌, refl, sym, subst, List, [], ◌∷◌, Result, ok, u16, u64, arith, option_case,
  result_case, result_ok, status_success, status_not_enough_space,
}
use u.Packet.{MacAddress, TxBufferDescriptor, allocate_space}
use u.Packet.Serialize.{serialize_header}
use u.Transmit.{free_tx_buffer}
use u.Transmit.Once.{IsSettled, serialize_header-error}
use u.Management.Send.{
  Sender, Preparation, failed, prepared, management_header, prepare_management_packet,
  transmit_management,
}

module _ (allocate : ℕ → Result TxBufferDescriptor) (driver : TxBufferDescriptor → ℕ)
    (write : List ℕ → ℕ → List ℕ) (s : Sender) (address : MacAddress) (subtype size : ℕ) where
  record Settled (p : Preparation) : Type 0 where
    settled :
        IsSettled driver
          (transmit_management driver write p).calls
          (transmit_management driver write p).status

  failed-Settled :
      (s1 : Sender) (d : TxBufferDescriptor) (status : ℕ)
      → status ≢ status_success
      → Settled (failed status s1 (free_tx_buffer d ∷ []))
  unfolding transmit_management
  failed-Settled s1 d status n = record { settled = n }

  prepared-Settled : (s1 : Sender) (d : TxBufferDescriptor) (o : ℕ) → Settled (prepared s1 d o)
  unfolding transmit_management
  prepared-Settled s1 d o = record { settled = refl }

  -- A buffer that the driver has allocated for a management frame is given back exactly once: it is
  -- freed and the status is an error, or it is sent and the status is the driver's. Whatever the
  -- frame, its size and the buffer.
  pub transmit_management-IsSettled :
      (d : TxBufferDescriptor)
      → allocate (u64 (24 + size)) ≡ ok d
      → let t =
          transmit_management driver write
            (prepare_management_packet allocate s address subtype size) in
        IsSettled driver t.calls t.status
  unfolding prepare_management_packet
  transmit_management-IsSettled d e =
      let s1 = record s { tx_sequence_control = u16 (s.tx_sequence_control + 0x10) } in
      subst
        (λ p.
          IsSettled driver (transmit_management driver write p).calls
            (transmit_management driver write p).status)
        (sym (result_ok _ _ e))
        (option_case Settled (allocate_space d size) _ _
          (λ _. failed-Settled s d status_not_enough_space (λ z. omega arith))
          (λ d1 _.
            result_case Settled (serialize_header (management_header s address subtype) d1) _ _
              (λ status h.
                failed-Settled s1 d1 status
                  (serialize_header-error (management_header s address subtype) d1 h))
              (λ d2 _. prepared-Settled s1 d2 d1.current_offset))).settled
