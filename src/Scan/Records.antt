-- ===== src/Scan/Records.antt =====
-- The ring of src/scan.c holds beacon records, one behind the other.
use mathlib.Core.List.{append_assoc}
use u.Common.{
  ◌%◌, drop-drop, take-append_all, drop-append, ℕ, ◌+◌, ◌*◌, ◌/◌, ◌≤◌, ◌<◌, ◌≡◌, refl, sym, ap, ap₂,
  ◌∙◌, none, List, ◌++◌, take, drop, length, length-append, serialize_le16, deserialize_le16,
  serialize_le32, deserialize_le32, arith,
}
use u.Management.Dispatch.{BeaconData}
use u.Scan.Session.{rsn_bytes, beacon_bytes, beacon_at}

-- The fields fit their C types.
pub record BeaconFits (b : BeaconData) : Type 0 where
  pub interval_fits : b.interval < 65536
  pub capabilities_fit : b.capabilities < 65536
  pub rate_bitmap_size : length b.elements.rate_bitmap ≡ 16
  pub ssid_size : length b.elements.ssid ≡ 33

-- The RSN element is one that is stored, too.
pub record BeaconIsValid (b : BeaconData) : Type 0 where
  pub fits : BeaconFits b
  pub rsn_fits : length (rsn_bytes b) ≤ 255

module _ (filler : List ℕ) (twelve : length filler ≡ 12) (b : BeaconData)
    (v : BeaconIsValid b) where
  abbrev size_bytes : List ℕ
  size_bytes =
      serialize_le32 (length (rsn_bytes b)) ++ serialize_le32 (length (rsn_bytes b) / 0x1_0000_0000)

  -- what stands behind the bit map, the name and the filler
  drop_to_size :
      drop 61 (b.elements.rate_bitmap ++ (b.elements.ssid ++ (filler ++ size_bytes))) ≡ size_bytes
  drop_to_size =
      let front = b.elements.ssid ++ filler in
      ap (drop 61) (
        ap (λ q. b.elements.rate_bitmap ++ q) (sym (append_assoc b.elements.ssid filler size_bytes))
        ∙ sym (append_assoc b.elements.rate_bitmap front size_bytes))
      ∙ drop-append (b.elements.rate_bitmap ++ front) size_bytes 61 (
          omega (
            arith,
            v.fits.rate_bitmap_size,
            v.fits.ssid_size,
            twelve,
            length-append b.elements.rate_bitmap front,
            length-append b.elements.ssid filler,
          ))

  pub beacon_bytes-length : length (beacon_bytes filler b) ≡ 80
  unfolding beacon_bytes serialize_le16 serialize_le32
  beacon_bytes-length = omega (
    arith,
    v.fits.rate_bitmap_size,
    v.fits.ssid_size,
    twelve,
    length-append b.elements.rate_bitmap (b.elements.ssid ++ (filler ++ size_bytes)),
    length-append b.elements.ssid (filler ++ size_bytes),
    length-append filler size_bytes,
  )

  -- The structure without its pointer is read back.
  pub beacon_at-beacon_bytes :
      beacon_at (beacon_bytes filler b)
      ≡ (record b { elements = record b.elements { rsn = none } }, length (rsn_bytes b))
  unfolding beacon_bytes beacon_at serialize_le16 serialize_le32 deserialize_le16 deserialize_le32
  beacon_at-beacon_bytes =
      let behind = b.elements.ssid ++ (filler ++ size_bytes) in
      let fields = b.elements.rate_bitmap ++ behind in
      let interval : b.interval % 256 + b.interval / 256 % 256 * 256 ≡ b.interval =
        omega (arith, v.fits.interval_fits) in
      let capabilities : b.capabilities % 256 + b.capabilities / 256 % 256 * 256 ≡ b.capabilities =
        omega (arith, v.fits.capabilities_fit) in
      let bitmap : take 16 fields ≡ b.elements.rate_bitmap =
        take-append_all b.elements.rate_bitmap behind 16 (sym v.fits.rate_bitmap_size) in
      let name : take 33 (drop 16 fields) ≡ b.elements.ssid =
        ap (take 33) (drop-append b.elements.rate_bitmap behind 16 (sym v.fits.rate_bitmap_size))
        ∙ take-append_all b.elements.ssid (filler ++ size_bytes) 33 (sym v.fits.ssid_size) in
      let last : drop 65 fields ≡ drop 4 size_bytes =
        sym (drop-drop 4 61 fields) ∙ ap (drop 4) drop_to_size in
      let size : deserialize_le32 (drop 61 fields)
            + deserialize_le32 (drop 65 fields) * 0x1_0000_0000
          ≡ length (rsn_bytes b) =
        ap₂ (λ p q. deserialize_le32 p + deserialize_le32 q * 0x1_0000_0000) drop_to_size last
        ∙ omega (arith, v.rsn_fits) in
      rw (interval, capabilities, bitmap, name, size) refl
