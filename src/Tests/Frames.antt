-- ===== src/Tests/Frames.antt =====
-- Management frames and whole packets at concrete values.
use u.Common.{ℕ, ◌≡◌, refl, true, some, List, [], ◌∷◌, replicate}
use u.Packet.{MacAddress, HeaderDescription}
use u.Key.{ccmp, KeyMetadata, KeyDevice}
use u.Association.System.{System, idle}
use u.Association.Invariant.{Inv, registered, registered-Inv}
use u.Management.{ElementData, process_information_elements, elements_from, process_element}
use u.Management.Elements.{Element, encode, apply_all, process_information_elements-encode}
use u.Management.Dispatch.{no_elements}
use u.Receive.{Station, remove_protection, process_packet}
use u.Receive.Safe.{Opened, system_of, remove_protection-Opened, process_packet-Inv}

abbrev station : ℕ → MacAddress
station n = record { byte0 = 2; byte1 = 0; byte2 = 0; byte3 = 0; byte4 = 0; byte5 = n }

-- A channel element and an unknown one.
abbrev elements : List Element
elements = record { id = 3; bytes = 6 ∷ [] } ∷ record { id = 7; bytes = 1 ∷ 2 ∷ [] } ∷ []

process_information_elements-encode_example :
    process_information_elements true (encode elements) no_elements
    ≡ apply_all true elements no_elements
process_information_elements-encode_example =
    process_information_elements-encode true elements no_elements

abbrev channel_6 : ElementData
channel_6 = record no_elements { channel = 6 }

channel_parsed : process_information_elements true (3 ∷ 1 ∷ 6 ∷ []) no_elements ≡ some channel_6
unfolding process_information_elements elements_from process_element
channel_parsed = refl

-- The rates 2, 4, 11 and 22.
abbrev rate_bitmap : List ℕ
rate_bitmap = 20 ∷ 8 ∷ 64 ∷ replicate 13 0

-- A deauthentication from station 1 to station 2.
abbrev header : HeaderDescription
header = record {
  frame_control = 0xc0;
  duration_id = 0;
  addresses_0 = station 2;
  addresses_1 = station 1;
  addresses_2 = station 1;
  addresses_3 = station 0;
  sequence_control = 16;
}

abbrev counts : ℕ → ℕ
counts x = 1

abbrev start : System
start = registered counts

abbrev key : KeyMetadata
key = record {
  cipher = ccmp;
  index = 0;
  peer = station 1;
  flags = 13;
  rx_sequence = replicate 6 0;
  tx_sequence = replicate 6 0;
  key_len = 16;
  key = [];
}

abbrev keys : KeyDevice
keys = record { mac_address = station 2; keys = key ∷ [] }

-- A CCMP header with the packet number 1, one byte of payload, and the code.
abbrev protected : List ℕ
protected = 1 ∷ 0 ∷ 0 ∷ 32 ∷ 0 ∷ 0 ∷ 0 ∷ 0 ∷ 9 ∷ replicate 8 0

abbrev data_header : HeaderDescription
data_header = record header { frame_control = 0x4208 }

remove_protection-Opened_example :
    Opened keys data_header protected (remove_protection keys data_header protected)
remove_protection-Opened_example = remove_protection-Opened keys data_header protected

abbrev started : Station
started = record {
  packet_count = 0;
  tx_sequence_control = 0;
  keys = keys;
  association = start.device;
}

process_packet-Inv_example :
    Inv (system_of idle (process_packet started header (0xc0 ∷ replicate 40 0)).station)
unfolding registered
process_packet-Inv_example =
    process_packet-Inv idle started header (0xc0 ∷ replicate 40 0) (registered-Inv counts)
