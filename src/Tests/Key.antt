-- ===== src/Tests/Key.antt =====
-- Key tables, packet numbers and replay protection at concrete values.
use u.Common.{ℕ, ◌<◌, refl, Option, none, some, [], ◌∷◌, arith}
use u.Packet.{MacAddress, HeaderDescription, mac_address_equal}
use u.Key.{ccmp, Key, KeyMetadata, KeyDevice, sequence_is_newer, increment_sequence, carry_end_from}
use u.Key.Sequence.{value}
use u.Key.Table.{find_first, update_first, find_key, key_matches_header, find_key_by_index}
use u.Key.Identity.{IsUnique, identity_count}
use u.Key.Replay.{RxFrame, ccmp_frame, receive, receive_all, rx_number, receive_increasing}
use u.Key.Nonce.{TxRequest, ccmp_request, issue, issue_all, issue_increasing}
use u.Key.Rx.{update_rx_sequence}
use u.Key.Tx.{next_tx_sequence}

abbrev station : ℕ → MacAddress
station n = record { byte0 = 2; byte1 = 0; byte2 = 0; byte3 = 0; byte4 = 0; byte5 = n }

-- A pairwise key with the access point, station 1, for both directions; the device is station 2.
abbrev stored : KeyMetadata
stored = record {
  cipher = ccmp;
  index = 0;
  peer = station 1;
  flags = 13;
  rx_sequence = 5 ∷ 0 ∷ 0 ∷ 0 ∷ 0 ∷ 0 ∷ [];
  tx_sequence = 255 ∷ 0 ∷ 0 ∷ 0 ∷ 0 ∷ 0 ∷ [];
  key_len = 16;
  key = [];
}

abbrev device : KeyDevice
device = record { mac_address = station 2; keys = stored ∷ [] }

abbrev from_ap : HeaderDescription
from_ap = record {
  frame_control = 0x208;
  duration_id = 0;
  addresses_0 = station 2;
  addresses_1 = station 1;
  addresses_2 = station 3;
  addresses_3 = station 0;
  sequence_control = 0;
}

abbrev to_ap : HeaderDescription
to_ap = record {
  frame_control = 0x108;
  duration_id = 0;
  addresses_0 = station 1;
  addresses_1 = station 2;
  addresses_2 = station 3;
  addresses_3 = station 0;
  sequence_control = 0;
}

abbrev frame_6 : RxFrame
frame_6 = ccmp_frame from_ap 0 ccmp (6 ∷ 0 ∷ 0 ∷ 0 ∷ 0 ∷ 0 ∷ [])

abbrev frame_9 : RxFrame
frame_9 = ccmp_frame from_ap 0 ccmp (0 ∷ 9 ∷ 0 ∷ 0 ∷ 0 ∷ 0 ∷ [])

receive_increasing_example : value (rx_number frame_6) < value (rx_number frame_9)
unfolding receive receive_all update_rx_sequence find_key_by_index mac_address_equal
    sequence_is_newer find_first update_first
receive_increasing_example =
    receive_increasing device frame_6 (frame_6 ∷ []) frame_9 (omega arith) (omega arith)
      (omega arith) (omega arith) refl refl refl refl

abbrev request : TxRequest
request = ccmp_request to_ap 0 ccmp

issue_increasing_example : value (0 ∷ 1 ∷ 0 ∷ 0 ∷ 0 ∷ 0 ∷ []) < value (2 ∷ 1 ∷ 0 ∷ 0 ∷ 0 ∷ 0 ∷ [])
unfolding issue issue_all next_tx_sequence find_key mac_address_equal increment_sequence find_first
    update_first carry_end_from key_matches_header
issue_increasing_example =
    issue_increasing device request (request ∷ []) request (0 ∷ 1 ∷ 0 ∷ 0 ∷ 0 ∷ 0 ∷ [])
      (2 ∷ 1 ∷ 0 ∷ 0 ∷ 0 ∷ 0 ∷ []) (omega arith) refl refl refl refl

-- The same identity as the stored key, with new bytes.
abbrev renewed : Key
renewed = record {
  cipher = ccmp;
  index = 0;
  peer = station 1;
  key = some (1 ∷ 2 ∷ []);
  key_len = 2;
  rx_seq = none;
  rx_seq_len = 0;
  flags = 13;
}

abbrev driver_set : Option (Key → ℕ)
driver_set = some (λ k. 0)

abbrev driver_del : Option (ℕ → MacAddress → ℕ → ℕ)
driver_del = some (λ i p f. 0)

device-IsUnique : IsUnique device.keys
unfolding identity_count
device-IsUnique i p f = ground arith
