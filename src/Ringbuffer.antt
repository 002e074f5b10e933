-- ===== src/Ringbuffer.antt =====
-- The byte ring of src/ringbuffer.c and include/u80211/ringbuffer.h.
pub mod Window
pub mod Refine
use Prim.Native.Nat.{min}
use u.Common.{
  ℕ, ◌+◌, ◌-◌, ◌*◌, ◌%◌, ◌^◌, Option, none, some, List, [], ◌++◌, Bool, true, false, ltb, leb, ◌==◌,
  if◌then◌else◌, take, drop, length, memcpy, replicate, u64, sub64, status_success,
  status_not_enough_space, status_enomem,
}

-- `contents` is the memory that the field `data` points to, `none` for a null pointer. `write` and
-- `read` are `uintmax_t`, of 64 bits, and so is `size_t`.
pub record Ringbuffer : Type 0 where
  pub size : ℕ
  pub write : ℕ
  pub read : ℕ
  pub contents : Option (List ℕ)

-- U80211_RINGBUFFER_DATA_COUNT and U80211_RINGBUFFER_FREE_SPACE.
abbrev pub data_count : Ringbuffer → ℕ
data_count r = sub64 r.write r.read

abbrev pub free_space : Ringbuffer → ℕ
free_space r = sub64 r.size (data_count r)

abbrev pub memory : Option (List ℕ) → List ℕ
memory none = []
memory (some bytes) = bytes

-- `allocation` is what the kernel returns for `size` bytes: their first contents, or null.
unfoldable pub init : ℕ → Option (List ℕ) → ℕ × Ringbuffer
init size allocation =
    let empty : Ringbuffer = record { size = 0; write = 0; read = 0; contents = none } in
    if size == 0 then (status_not_enough_space, empty) else elim allocation [
      | none ↦ (status_enomem, empty)
      | some bytes ↦
          (status_success, record { size = size; write = 0; read = 0; contents = some bytes })
    ]

-- The ring that is left, and the memory that is freed.
unfoldable pub destroy : Ringbuffer → Ringbuffer × Option (List ℕ)
destroy r = (record { size = 0; write = 0; read = 0; contents = none }, r.contents)

unfoldable pub truncate : Ringbuffer → ℕ → ℕ × Ringbuffer
truncate r count =
    let true_count = min (data_count r) count in
    (true_count, record r { read = u64 (r.read + true_count) })

-- The copy out of the ring: from `first_pass_offset` to the end of the memory, then from its start.
unfoldable pub copy_out : List ℕ → ℕ → ℕ → ℕ → List ℕ
copy_out bytes size position count =
    let first_pass_offset = position % size in
    let first_pass_remaining = size - first_pass_offset in
    let first_pass_count = min count first_pass_remaining in
    let first = take first_pass_count (drop first_pass_offset bytes) in
    if first_pass_count == count then first else first ++ take (count - first_pass_count) bytes

-- The bytes that are stored in the caller's buffer, with their number.
unfoldable pub read : Ringbuffer → ℕ → List ℕ × ℕ × Ringbuffer
unfolding copy_out
read r wanted =
    let count = min wanted (data_count r) in
    (
      copy_out (memory r.contents) r.size r.read count,
      count,
      record r { read = u64 (r.read + count) },
    )

unfoldable pub peek : Ringbuffer → ℕ → ℕ → List ℕ × ℕ
unfolding copy_out
peek r offset wanted =
    if leb (data_count r) offset
    then ([], 0)
    else (let position = u64 (r.read + offset) in
        let count = min wanted (data_count r - offset) in
        (copy_out (memory r.contents) r.size position count, count))

-- The copy into the ring, in the same two passes.
unfoldable pub copy_in : List ℕ → ℕ → ℕ → List ℕ → ℕ → List ℕ
copy_in bytes size position buffer count =
    let first_pass_offset = position % size in
    let first_pass_remaining = size - first_pass_offset in
    let first_pass_count = min count first_pass_remaining in
    let first = memcpy bytes first_pass_offset (take first_pass_count buffer) in
    if first_pass_count == count
    then first
    else memcpy first 0 (take (count - first_pass_count) (drop first_pass_count buffer))

unfoldable pub write : Ringbuffer → List ℕ → ℕ → ℕ × Ringbuffer
unfolding copy_in
write r buffer wanted =
    let count = min wanted (free_space r) in
    (
      count,
      record r {
        write = u64 (r.write + count);
        contents = some (copy_in (memory r.contents) r.size r.write buffer count);
      },
    )

unfoldable pub remove : Ringbuffer → ℕ → ℕ × Ringbuffer
remove r count =
    let true_count = min (data_count r) count in
    (true_count, record r { write = sub64 r.write true_count })
