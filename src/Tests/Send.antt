-- ===== src/Tests/Send.antt =====
-- Management frames to send, registration and buffers at concrete values.
use u.Common.{ℕ, ◌+◌, List, [], ◌∷◌, length, replicate, Result, ok}
use u.Packet.{MacAddress, HeaderDescription, TxBufferDescriptor}
use u.Management.Elements.{Element}
use u.Management.Send.{Sender, AuthData, management_header, RequestedAp}
use u.Management.Requests.{request_body}

abbrev address : ℕ → MacAddress
address n = record { byte0 = 2; byte1 = 0; byte2 = 0; byte3 = 0; byte4 = 0; byte5 = n }

abbrev sender : Sender
sender = record {
  mac_address = address 2;
  rate_bitmap = 20 ∷ 8 ∷ 64 ∷ replicate 13 0;
  tx_sequence_control = 16;
}

abbrev memory_of : ℕ → TxBufferDescriptor
memory_of n = record { buffer = replicate n 0; size = n; current_offset = n }

abbrev allocate : ℕ → Result TxBufferDescriptor
allocate n = ok (memory_of n)

abbrev driver : TxBufferDescriptor → ℕ
driver d = 0

abbrev open_authentication : AuthData
open_authentication = record {
  address = address 1;
  auth_algorithm = 0;
  auth_transaction = 1;
  status = 0;
}

abbrev stack : HeaderDescription
stack = management_header sender (address 1) 11

abbrev requested : RequestedAp
requested = record { mac_address = address 1; ssid = 97 ∷ 112 ∷ replicate 31 0 }

-- An RSN element of the caller.
abbrev own_elements : List Element
own_elements = record { id = 48; bytes = 1 ∷ 0 ∷ [] } ∷ []

abbrev request_size : ℕ
request_size = 24 + length (request_body sender requested own_elements)

-- The driver has given a buffer without room for the body.
abbrev too_small : ℕ → Result TxBufferDescriptor
too_small n = ok (memory_of 4)
