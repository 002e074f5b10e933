-- ===== src/Management/Authentication.antt =====
-- The authentication and deauthentication frames that src/packet_management.c sends.
use u.Common.{
  ℕ, ◌+◌, ◌<◌, ◌^◌, ◌≡◌, refl, ap, ◌∙◌, List, [], ◌++◌, Result, ok, drop, memcpy, memcpy-append,
  serialize_le16, deserialize_le16, arith,
}
use u.Packet.{HeaderDescription, TxBufferDescriptor}
use u.Management.Send.{
  Sender, management_header, AuthData, write_authentication, send_authentication,
  DeauthenticationData, send_deauthentication,
}
use u.Management.Sent.{IsAllocated, SentFrame, transmit_management-SentFrame}

le16_read : (x : ℕ) (rest : List ℕ) → x < 65536 → deserialize_le16 (serialize_le16 x ++ rest) ≡ x
unfolding serialize_le16 deserialize_le16
le16_read x rest h = omega arith

module _ (allocate : ℕ → Result TxBufferDescriptor) (driver : TxBufferDescriptor → ℕ) (s : Sender)
    (u : HeaderDescription) (d : TxBufferDescriptor)
    (counter : s.tx_sequence_control < 2 ^ 16) where
  -- An authentication frame for a driver that has a buffer for its thirty bytes: the driver is called
  -- once, and what it gets is parsed as a header to and for the access point and a body from which the
  -- three numbers are read back.
  pub send_authentication-SentFrame :
      (a : AuthData)
      → allocate 30 ≡ ok d
      → IsAllocated d 30
      → a.auth_algorithm < 2 ^ 16
      → a.auth_transaction < 2 ^ 16
      → a.status < 2 ^ 16
      → (body : List ℕ) × SentFrame
          (send_authentication allocate driver s a)
          (management_header s a.address 11)
          u
          body
        × (deserialize_le16 body ≡ a.auth_algorithm)
        × (deserialize_le16 (drop 2 body) ≡ a.auth_transaction)
        × (deserialize_le16 (drop 4 body) ≡ a.status)
  unfolding send_authentication serialize_le16
  send_authentication-SentFrame a allocated v h0 h1 h2 =
      let l0 = serialize_le16 a.auth_algorithm in
      let l1 = serialize_le16 a.auth_transaction in
      let l2 = serialize_le16 a.status in
      (
        (l0 ++ l1) ++ l2,
        transmit_management-SentFrame allocate driver s a.address 11 (write_authentication a) u
            ((l0 ++ l1) ++ l2) 6 d refl (omega arith) counter (omega arith) allocated v
            (λ buffer o.
              ap (λ q. memcpy q (o + 4) l2) (memcpy-append buffer o (o + 2) l0 l1 refl)
              ∙ memcpy-append buffer o (o + 4) (l0 ++ l1) l2 refl),
        le16_read a.auth_algorithm (l1 ++ l2) h0,
        le16_read a.auth_transaction l2 h1,
        le16_read a.status [] h2,
      )

  -- A deauthentication frame, in the same way.
  pub send_deauthentication-SentFrame :
      (a : DeauthenticationData)
      → allocate 26 ≡ ok d
      → IsAllocated d 26
      → a.reason < 2 ^ 16
      → (body : List ℕ) × SentFrame
          (send_deauthentication allocate driver s a)
          (management_header s a.address 12)
          u
          body
        × (deserialize_le16 body ≡ a.reason)
  unfolding send_deauthentication serialize_le16
  send_deauthentication-SentFrame a allocated v h = (
    serialize_le16 a.reason,
    transmit_management-SentFrame allocate driver s a.address 12
        (λ buffer o. memcpy buffer o (serialize_le16 a.reason)) u (serialize_le16 a.reason) 2 d refl
        (omega arith) counter (omega arith) allocated v (λ buffer o. refl),
    le16_read a.reason [] h,
  )
