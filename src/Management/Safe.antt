-- ===== src/Management/Safe.antt =====
-- Management frames and the invariant of the association state machine.
use u.Common.{
  ℕ, Bool, true, false, Option, none, some, List, deserialize_le16, drop, not, ◌||◌, ltb, length,
  if◌then◌else◌, ◌==◌, arith,
}
use u.Packet.{
  MacAddress, HeaderDescription, get_subtype, subtype_association_response, subtype_probe_response,
  subtype_authentication, subtype_deauthentication, subtype_disassociation,
}
use u.Association.{DeviceState, authenticating, associating, Device}
use u.Association.System.{System, Event, step}
use u.Association.Invariant.{Inv, step-Inv}
use u.Association.Duplicate.{is_duplicate}
use u.Management.Dispatch.{
  Handled, ignored, process_management_packet, process_auth_packet, process_association_response,
  process_probe_response, process_deauthentication_packet, process_disassociation_packet,
  management_packet_for_device, management_packet_for_device_or_broadcast, no_elements,
}
use u.Management.{ElementData, process_information_elements}

abbrev pub with_device : System → Device → System
with_device s d = record s { device = d }

-- the filter of retransmissions changes nothing that the invariant reads
pub is_duplicate-Inv :
    (s : System) (header : HeaderDescription) (expected : DeviceState)
    → Inv s
    → Inv (with_device s (is_duplicate s.device header expected).1)
unfolding is_duplicate
is_duplicate-Inv s header expected v = ground arith

record KeepsInv (s : System) (h : Handled) : Type 0 where
  kept : Inv (with_device s h.device)

ignored-KeepsInv : (s : System) → Inv s → KeepsInv s (ignored s.device)
ignored-KeepsInv s v = record { kept = v }

either :
    (s : System) (b : Bool) (x y : Handled)
    → KeepsInv s x
    → KeepsInv s y
    → KeepsInv s (if b then x else y)
either s true x y hx hy = hx
either s false x y hx hy = hy

parsed :
    (s : System) (r : Option ElementData) (x : Handled) (f : ElementData → Handled)
    → KeepsInv s x
    → ((e : ElementData) → KeepsInv s (f e))
    → KeepsInv s (elim r [ none ↦ x | some e ↦ f e ])
parsed s none x f hx hf = hx
parsed s (some e) x f hx hf = hf e

module _ (s : System) (own : MacAddress) (header : HeaderDescription) (bytes : List ℕ)
    (v : Inv s) where
  auth_packet-Inv : KeepsInv s (process_auth_packet s.device own header bytes)
  unfolding process_auth_packet step
  auth_packet-Inv =
      let u = ignored-KeepsInv s v in
      let v1 = is_duplicate-Inv s header authenticating v in
      either s (ltb (length bytes) 6) _ _ u (
        either s (not (management_packet_for_device own header)) _ _ u (
          either s (is_duplicate s.device header authenticating).0 _ _ (record { kept = v1 })
            (record {
              kept =
                  step-Inv (with_device s (is_duplicate s.device header authenticating).1)
                    (Event.authentication header.addresses_2 (deserialize_le16 bytes)
                      (deserialize_le16 (drop 2 bytes)) (deserialize_le16 (drop 4 bytes)))
                    v1;
            })))

  association_response-Inv : KeepsInv s (process_association_response s.device own header bytes)
  unfolding process_association_response step
  association_response-Inv =
      let u = ignored-KeepsInv s v in
      let v1 = is_duplicate-Inv s header associating v in
      either s (ltb (length bytes) 6) _ _ u (
        either s (not (management_packet_for_device own header)) _ _ u (
          parsed s (process_information_elements false (drop 6 bytes) no_elements) _ _ u (λ e.
            either s (is_duplicate s.device header associating).0 _ _ (record { kept = v1 })
              (record {
                kept =
                    step-Inv (with_device s (is_duplicate s.device header associating).1)
                      (Event.response header.addresses_2 (deserialize_le16 (drop 2 bytes))) v1;
              }))))

  probe_response-Inv : KeepsInv s (process_probe_response s.device own header bytes)
  unfolding process_probe_response
  probe_response-Inv =
      let u = ignored-KeepsInv s v in
      either s (ltb (length bytes) 12) _ _ u (
        either s (not (management_packet_for_device own header)) _ _ u (
          parsed s (process_information_elements true (drop 12 bytes) no_elements) _ _ u
            (λ e. record { kept = v })))

  deauthentication_packet-Inv :
      KeepsInv s (process_deauthentication_packet s.device own header bytes)
  unfolding process_deauthentication_packet step
  deauthentication_packet-Inv =
      let u = ignored-KeepsInv s v in
      either s (ltb (length bytes) 2 || not (management_packet_for_device_or_broadcast own header))
        _ _ u (record { kept = step-Inv s (Event.deauthentication header.addresses_2) v })

  disassociation_packet-Inv : KeepsInv s (process_disassociation_packet s.device own header bytes)
  unfolding process_disassociation_packet step
  disassociation_packet-Inv =
      let u = ignored-KeepsInv s v in
      either s (ltb (length bytes) 2 || not (management_packet_for_device_or_broadcast own header))
        _ _ u (record { kept = step-Inv s (Event.disassociation header.addresses_2) v })

-- A management frame, whatever its subtype, header and bytes, keeps the invariant of the association.
pub process_management_packet-Inv :
    (s : System) (own : MacAddress) (header : HeaderDescription) (bytes : List ℕ)
    → Inv s
    → Inv (with_device s (process_management_packet s.device own header bytes).device)
unfolding process_management_packet
process_management_packet-Inv s own header bytes v =
    let subtype = get_subtype header.frame_control in
    (either s (subtype == subtype_association_response) _ _
      (association_response-Inv s own header bytes v)
      (either s (subtype == subtype_probe_response) _ _ (probe_response-Inv s own header bytes v) (
        either s (subtype == subtype_authentication) _ _ (auth_packet-Inv s own header bytes v) (
          either s (subtype == subtype_deauthentication) _ _
            (deauthentication_packet-Inv s own header bytes v)
            (either s (subtype == subtype_disassociation) _ _
              (disassociation_packet-Inv s own header bytes v) (ignored-KeepsInv s v)))))).kept
