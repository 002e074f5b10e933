-- ===== src/Management/Requests.antt =====
-- The probe and association requests that src/packet_management.c sends.
use mathlib.Core.List.{append-nil}
use u.Common.{
  ℕ, zero, suc, ◌+◌, ◌-◌, ◌<◌, ◌^◌, ◌≡◌, refl, sym, ap, ap₂, ◌∙◌, true, false, Bool, List, [], ◌∷◌,
  ◌++◌, Result, ok, ltb, if◌then◌else◌, length, length-take, length-drop, take, drop, memcpy,
  memcpy-append, arith,
}
use u.Packet.{HeaderDescription, TxBufferDescriptor}
use u.Management.{count_rates, rate_information_elements_size, serialize_rate_information_elements}
use u.Management.Elements.{Element, encode}
use u.Management.Rates.{rates_of, rate_elements, serialize_rate_information_elements_lem}
use u.Management.Dispatch.{broadcast_address}
use u.Management.Send.{
  Sender, management_header, send_probe_request, write_probe_request, RequestedAp,
}
use u.Management.Sent.{IsAllocated, SentFrame, transmit_management-SentFrame}

-- The elements that stand for a list of rates.
abbrev pub rates_as_elements : List ℕ → List Element
rates_as_elements rates =
    record { id = 1; bytes = take 8 rates }
    ∷ (if ltb 8 (length rates) then record { id = 50; bytes = drop 8 rates } ∷ [] else [])

encode_second :
    (more : Bool) (n : ℕ) (rates : List ℕ)
    → length rates ≡ n
    → encode (if more then record { id = 50; bytes = rates } ∷ [] else [])
      ≡ (if more then 50 ∷ n ∷ rates else [])
encode_second true n rates e = ap₂ (λ k q. 50 ∷ k ∷ q) e (append-nil rates)
encode_second false n rates e = refl

encode-rates : (rates : List ℕ) → encode (rates_as_elements rates) ≡ rate_elements rates
encode-rates rates =
    ap₂ (λ k q. 1 ∷ k ∷ take 8 rates ++ q) (omega (arith, length-take 8 rates))
      (encode_second (ltb 8 (length rates)) (length rates - 8) (drop 8 rates) (length-drop 8 rates))

-- The bytes that are built for a bitmap are the elements of its rates.
built_rates :
    (rate_bitmap : List ℕ)
    → (serialize_rate_information_elements rate_bitmap (count_rates rate_bitmap)
        ≡ encode (rates_as_elements (rates_of rate_bitmap)))
      × (length (serialize_rate_information_elements rate_bitmap (count_rates rate_bitmap))
          ≡ rate_information_elements_size (count_rates rate_bitmap))
built_rates rate_bitmap =
    let known = serialize_rate_information_elements_lem rate_bitmap in
    (known.0 ∙ sym (encode-rates (rates_of rate_bitmap)), known.1)

-- The elements of a probe request: an empty name and the device's rates.
abbrev pub probe_elements : Sender → List Element
probe_elements s = record { id = 0; bytes = [] } ∷ rates_as_elements (rates_of s.rate_bitmap)

-- The bytes in front of the first zero, for a list of bytes.
abbrev pub until_zero : List ℕ → List ℕ
until_zero [] = []
until_zero (zero ∷ bytes) = []
until_zero (suc c ∷ bytes) = suc c ∷ until_zero bytes

-- The elements of an association request: the access point's name up to its end, and the device's
-- rates.
abbrev pub request_elements : Sender → RequestedAp → List Element
request_elements s a =
    record { id = 0; bytes = until_zero (take 32 a.ssid) }
    ∷ rates_as_elements (rates_of s.rate_bitmap)

module _ (allocate : ℕ → Result TxBufferDescriptor) (driver : TxBufferDescriptor → ℕ) (s : Sender)
    (u : HeaderDescription) (d : TxBufferDescriptor)
    (counter : s.tx_sequence_control < 2 ^ 16) where
  -- A probe request is broadcast with an empty name and the rates of the device as its elements,
  -- where the driver has a buffer that large.
  pub send_probe_request-SentFrame :
      24 + length (encode (probe_elements s)) < 2 ^ 64
      → allocate (24 + length (encode (probe_elements s))) ≡ ok d
      → IsAllocated d (24 + length (encode (probe_elements s)))
      → SentFrame
          (send_probe_request allocate driver s)
          (management_header s broadcast_address 4)
          u
          (encode (probe_elements s))
  unfolding send_probe_request
  send_probe_request-SentFrame fits allocated v =
      let (same, size) = built_rates s.rate_bitmap in
      transmit_management-SentFrame allocate driver s broadcast_address 4
        (write_probe_request s (count_rates s.rate_bitmap)) u (encode (probe_elements s))
        (2 + rate_information_elements_size (count_rates s.rate_bitmap)) d
        (omega (arith, size, ap length same)) (omega arith) counter fits allocated v
        (λ buffer o.
          memcpy-append buffer o (o + 2) (0 ∷ 0 ∷ [])
            (serialize_rate_information_elements s.rate_bitmap (count_rates s.rate_bitmap)) refl
          ∙ ap (λ q. memcpy buffer o (0 ∷ 0 ∷ q)) same)

-- The body of an association request: the capabilities, the listen interval and the elements.
abbrev pub request_body : Sender → RequestedAp → List Element → List ℕ
request_body s a xs = 0x21 ∷ 0x04 ∷ 10 ∷ 0 ∷ encode (request_elements s a ++ xs)
