-- ===== src/Tests/Packet.antt =====
-- Headers built and parsed at concrete values.
use u.Common.{serialize_le16, ℕ, ◌≡◌, refl, [], ◌∷◌, arith, ok}
use u.Packet.{
  MacAddress, HeaderDescription, HeaderIsValid, TxBufferDescriptor, DescriptorIsValid, frame,
  allocate_space,
}
use u.Packet.Header.{deserialize_header}
use u.Packet.Serialize.{serialize_header, serialize_three_addresses}
use u.Packet.RoundTrip.{deserialize_header-serialize_header}

abbrev station : ℕ → MacAddress
station n = record { byte0 = 2; byte1 = 0; byte2 = 0; byte3 = 0; byte4 = 0; byte5 = n }

-- A data frame to the access point, with the sequence control 0x120.
abbrev to_ap : HeaderDescription
to_ap = record {
  frame_control = 0x108;
  duration_id = 44;
  addresses_0 = station 1;
  addresses_1 = station 2;
  addresses_2 = station 3;
  addresses_3 = station 0;
  sequence_control = 0x120;
}

-- Thirty bytes, the last three of which are the payload.
abbrev descriptor : TxBufferDescriptor
descriptor = record {
  buffer =
      0 ∷ 0 ∷ 0 ∷ 0 ∷ 0 ∷ 0 ∷ 0 ∷ 0 ∷ 0 ∷ 0 ∷ 0 ∷ 0 ∷ 0 ∷ 0 ∷ 0 ∷ 0 ∷ 0 ∷ 0 ∷ 0 ∷ 0 ∷ 0 ∷ 0 ∷ 0 ∷ 0
      ∷ 0 ∷ 0 ∷ 0 ∷ 7 ∷ 8 ∷ 9 ∷ [];
  size = 30;
  current_offset = 27;
}

abbrev built : TxBufferDescriptor
built = record {
  buffer =
      0 ∷ 0 ∷ 0 ∷ 8 ∷ 1 ∷ 44 ∷ 0 ∷ 2 ∷ 0 ∷ 0 ∷ 0 ∷ 0 ∷ 1 ∷ 2 ∷ 0 ∷ 0 ∷ 0 ∷ 0 ∷ 2 ∷ 2 ∷ 0 ∷ 0 ∷ 0 ∷ 0
      ∷ 3 ∷ 32 ∷ 1 ∷ 7 ∷ 8 ∷ 9 ∷ [];
  size = 30;
  current_offset = 3;
}

serialize_run : serialize_header to_ap descriptor ≡ ok built
unfolding serialize_header allocate_space serialize_three_addresses serialize_le16
serialize_run = refl

to_ap-HeaderIsValid : HeaderIsValid to_ap
to_ap-HeaderIsValid = omega arith

descriptor-DescriptorIsValid : DescriptorIsValid descriptor
descriptor-DescriptorIsValid = omega arith

deserialize_header-serialize_header_example :
    deserialize_header (frame built) to_ap ≡ ok (to_ap, 7 ∷ 8 ∷ 9 ∷ [])
deserialize_header-serialize_header_example =
    deserialize_header-serialize_header to_ap to_ap descriptor to_ap-HeaderIsValid
      descriptor-DescriptorIsValid serialize_run
