-- ===== src/Management.antt =====
-- Bodies of management frames, src/packet_management.c: information elements and rates.
pub mod Elements
pub mod Rates
pub mod Dispatch
pub mod Safe
pub mod Send
pub mod Sent
pub mod Authentication
pub mod Requests
pub mod Once
use u.Common.{
  ℕ, zero, suc, ◌+◌, ◌-◌, ◌/◌, ◌%◌, ◌^◌, Bool, true, false, not, ◌&&◌, ◌||◌, Option, none, some,
  List, [], ◌∷◌, ◌++◌, ltb, ◌==◌, if◌then◌else◌, byte_at, has_flag, set_flag, set, memcpy, length,
  take, drop,
}

-- What an information element may change in the caller's structure. `rsn` is the slice of the frame
-- that the pointer and the size describe, `none` for a null pointer.
pub record ElementData : Type 0 where
  pub rate_bitmap : List ℕ
  pub ssid : List ℕ
  pub channel : ℕ
  pub rsn : Option (List ℕ)

-- `rate_bitmap[rate / 8] |= 1 << (rate % 8)`.
abbrev pub add_rate : List ℕ → ℕ → List ℕ
add_rate rate_bitmap rate =
    set rate_bitmap (rate / 8) (set_flag (byte_at rate_bitmap (rate / 8)) (rate % 8))

-- The loop over the rates; 126 and 127 have another meaning.
unfoldable pub handle_rates : List ℕ → List ℕ → List ℕ
handle_rates rate_bitmap [] = rate_bitmap
handle_rates rate_bitmap (r ∷ rates) =
    let rate = r % 128 in
    let next = if (rate == 126) || (rate == 127) then rate_bitmap else add_rate rate_bitmap rate in
    handle_rates next rates

-- The switch on the id of one element with its bytes; `none` is the result false. A caller passes all
-- three pointers, for the name, the channel and the RSN element, or null for all of them: `wanted`.
unfoldable pub process_element : Bool → ℕ → List ℕ → ElementData → Option ElementData
process_element wanted id bytes e =
    let size = length bytes in
    if id == 0
    then (if ltb 32 size
        then none
        else some (if wanted then record e { ssid = set (memcpy e.ssid 0 bytes) size 0 } else e))
    else (if id == 3
        then (if not (size == 1)
            then none
            else some (if wanted then record e { channel = byte_at bytes 0 } else e))
        else (if (id == 1) && ltb 8 size
            then none
            else (if (id == 1) || (id == 50)
                then some (record e { rate_bitmap = handle_rates e.rate_bitmap bytes })
                else (if (id == 48) && wanted
                    then some (record e { rsn = some bytes })
                    else some e))))

-- The loop over the elements, on the bytes that are left. Each round takes two bytes at least, so
-- fuel for their number is enough.
unfoldable pub elements_from : ℕ → Bool → List ℕ → ElementData → Option ElementData
elements_from fuel wanted [] e = some e
elements_from zero wanted (id ∷ rest) e = none
elements_from (suc fuel) wanted (id ∷ []) e = none
elements_from (suc fuel) wanted (id ∷ size ∷ rest) e =
    if ltb (length rest) size then none else elim (process_element wanted id (take size rest) e) [
      | none ↦ none
      | some e1 ↦ elements_from fuel wanted (drop size rest) e1
    ]

unfoldable pub process_information_elements : Bool → List ℕ → ElementData → Option ElementData
process_information_elements wanted bytes e = elements_from (length bytes) wanted bytes e

-- `rate_bitmap[rate / 8] & (1 << (rate % 8))`.
abbrev pub has_rate : List ℕ → ℕ → Bool
has_rate rate_bitmap rate = has_flag (byte_at rate_bitmap (rate / 8)) (rate % 8)

-- The loop over the rates from `rate` on, with the number of rates that are left.
unfoldable pub count_rates_from : List ℕ → ℕ → ℕ → ℕ
count_rates_from rate_bitmap zero rate = 0
count_rates_from rate_bitmap (suc left) rate =
    let rest = count_rates_from rate_bitmap left (suc rate) in
    if has_rate rate_bitmap rate then suc rest else rest

-- MAX_RATE_VALUE + 1 rates, from 0.
unfoldable pub count_rates : List ℕ → ℕ
count_rates rate_bitmap = count_rates_from rate_bitmap 126 0

abbrev pub min_count : ℕ → ℕ → ℕ
min_count a b = if ltb a b then a else b

unfoldable pub rate_information_elements_size : ℕ → ℕ
rate_information_elements_size rate_count =
    let size = 2 + min_count rate_count 8 in
    if ltb 8 rate_count then size + (2 + rate_count - 8) else size

-- The bytes that the loop stores. All of them are below 256.
unfoldable pub serialize_rates_from : List ℕ → ℕ → ℕ → ℕ → ℕ → ℕ → List ℕ
serialize_rates_from rate_bitmap supported extended zero rate index = []
serialize_rates_from rate_bitmap supported extended (suc left) rate index =
    let next_index = if has_rate rate_bitmap rate then suc index else index in
    let rest = serialize_rates_from rate_bitmap supported extended left (suc rate) next_index in
    if not (has_rate rate_bitmap rate)
    then rest
    else (if (index == supported) && not (extended == 0)
        then 50 ∷ extended ∷ rate ∷ rest
        else rate ∷ rest)

-- What is stored at the destination. The result of the function is the number of these bytes.
unfoldable pub serialize_rate_information_elements : List ℕ → ℕ → List ℕ
serialize_rate_information_elements rate_bitmap rate_count =
    let supported = min_count rate_count 8 in
    let extended = rate_count - supported in
    1 ∷ supported ∷ serialize_rates_from rate_bitmap supported extended 126 0 0
