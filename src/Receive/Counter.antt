-- ===== src/Receive/Counter.antt =====
-- The counter of received packets, `u80211_get_packet_count` and `u80211_reset_packet_count` of
-- src/packet.c.
use u.Common.{
  ℕ, suc, ◌+◌, ◌≡◌, refl, ◌∙◌, Bool, true, false, Option, none, some, List, [], ◌∷◌, u64, length,
  Result, ok, err, if◌then◌else◌, arith,
}
use u.Packet.{HeaderDescription, is_protected}
use u.Receive.{
  Station, Outcome, dropped, remove_protection, dispatch, process_packet, get_packet_count,
  reset_packet_count,
}
use u.Packet.Header.{deserialize_header}

dispatch-count :
    (s : Station) (header : HeaderDescription) (bytes : List ℕ)
    → (dispatch s header bytes).station.packet_count ≡ s.packet_count
unfolding dispatch
dispatch-count s header bytes = ground arith

opened-count :
    (s : Station) (header : HeaderDescription) (payload : Option (List ℕ))
    → (elim payload as (λ o. Outcome) [
      | none ↦ dropped s
      | some rest ↦ dispatch s header rest
    ]).station.packet_count
      ≡ s.packet_count
opened-count s header none = refl
opened-count s header (some rest) = dispatch-count s header rest

either-count :
    (b : Bool) (x y : Outcome) (n : ℕ)
    → x.station.packet_count ≡ n
    → y.station.packet_count ≡ n
    → (if b then x else y).station.packet_count ≡ n
either-count true x y n h k = h
either-count false x y n h k = k

parsed-count :
    (s : Station) (r : Result (HeaderDescription × List ℕ))
    → (elim r as (λ q. Outcome) [
      | err status ↦ dropped s
      | ok (header, bytes) ↦
          (let (payload, keys1) = remove_protection s.keys header bytes in
            let s1 = record s { keys = keys1 } in
            if is_protected header.frame_control
            then (elim payload [ none ↦ dropped s1 | some rest ↦ dispatch s1 header rest ])
            else dispatch s header bytes)
    ]).station.packet_count
      ≡ s.packet_count
parsed-count s (err status) = refl
parsed-count s (ok (header, bytes)) =
    let opened = remove_protection s.keys header bytes in
    let s1 = record s { keys = opened.1 } in
    either-count (is_protected header.frame_control)
      (elim opened.0 [ none ↦ dropped s1 | some rest ↦ dispatch s1 header rest ])
      (dispatch s header bytes) s.packet_count (opened-count s1 header opened.0)
      (dispatch-count s header bytes)

-- Each packet counts once, whatever becomes of it.
process_packet-count :
    (s : Station) (u : HeaderDescription) (packet : List ℕ)
    → (process_packet s u packet).station.packet_count ≡ u64 (suc s.packet_count)
unfolding process_packet
process_packet-count s u packet =
    parsed-count (record s { packet_count = u64 (suc s.packet_count) })
      (deserialize_header packet u)

-- The station after packets that arrive one after the other.
abbrev pub receive_all : Station → HeaderDescription → List (List ℕ) → Station
receive_all s u [] = s
receive_all s u (p ∷ ps) = receive_all (process_packet s u p).station u ps

counted :
    (s : Station) (u : HeaderDescription) (packets : List (List ℕ)) (n : ℕ)
    → s.packet_count ≡ u64 n
    → (receive_all s u packets).packet_count ≡ u64 (n + length packets)
counted s u [] n h = ground (arith, h)
counted s u (p ∷ ps) n h =
    counted (process_packet s u p).station u ps (suc n)
      (process_packet-count s u p ∙ ground (arith, h))
    ∙ ground arith

-- The counter shows the number of packets since it was reset, modulo the size of its type.
pub get_packet_count-reset :
    (s : Station) (u : HeaderDescription) (packets : List (List ℕ))
    → get_packet_count (receive_all (reset_packet_count s) u packets) ≡ u64 (length packets)
unfolding get_packet_count reset_packet_count
get_packet_count-reset s u packets =
    counted (record s { packet_count = 0 }) u packets 0 refl ∙ ground arith
