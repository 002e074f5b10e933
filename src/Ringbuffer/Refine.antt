-- ===== src/Ringbuffer/Refine.antt =====
-- The ring of src/ringbuffer.c as a queue of bytes, oldest first.
use Prim.Native.Nat.{min}
use u.Common.{
  ℕ, zero, suc, ◌+◌, ◌-◌, ◌%◌, ◌^◌, ◌≤◌, ◌<◌, ◌≡◌, refl, sym, ap, ap₂, ◌∙◌, some, List, [], ◌∷◌,
  ◌++◌, length, length-take, take, drop, memcpy, arith, status_success, u64,
}
use native.Mathlib.Nat.{mod-lt}
use u.Ringbuffer.{
  Ringbuffer, data_count, free_space, memory, init, truncate, copy_out, read, peek, copy_in, write,
  remove,
}
use u.Ringbuffer.Window.{
  window, length-window, take-window, drop-window, window_straight, window_passes, wrapped,
  write_each, length-write_each, write_each-append, window-write_each, memcpy-write_each,
}

-- The memory has the ring's size, which is not zero, and the counters are at most the size apart.
-- They count all bytes ever written and read, and have not passed 2 ^ 64.
pub record IsValid (r : Ringbuffer) : Type 0 where
  pub size_pos : 0 < r.size
  pub size_fits : r.size < 2 ^ 64
  pub memory_size : length (memory r.contents) ≡ r.size
  pub ordered : r.read ≤ r.write
  pub bounded : r.write ≤ r.read + r.size
  pub write_fits : r.write < 2 ^ 64

-- The bytes that wait to be read.
pub queue : Ringbuffer → List ℕ
queue r = window (memory r.contents) r.size r.read (r.write - r.read)

length-queue : (r : Ringbuffer) → length (queue r) ≡ r.write - r.read
unfolding queue
length-queue r = length-window (memory r.contents) r.size r.read (r.write - r.read)

copy_out_lem :
    (bytes : List ℕ) (size p n : ℕ)
    → 0 < size
    → length bytes ≡ size
    → n ≤ size
    → copy_out bytes size p n ≡ window bytes size p n
unfolding copy_out
copy_out_lem bytes size p n pos e h = ground (
  arith,
  mod-lt p pos,
  window_straight bytes size p n pos e,
  window_passes bytes size p n pos e h,
)

take-nil {ℓ} : (A : Type ℓ) (n : ℕ) → take {A = A} n [] ≡ []
take-nil A zero = refl
take-nil A (suc n) = refl

take-split {ℓ} :
    {A : Type ℓ} (xs : List A) (k n : ℕ) → k ≤ n → take n xs ≡ take k xs ++ take (n - k) (drop k xs)
take-split xs zero n h = ap (λ j. take j xs) (omega arith)
take-split [] (suc k) zero h = absurd (omega arith)
take-split {A} [] (suc k) (suc n) h = sym (take-nil A (suc n - suc k))
take-split (x ∷ xs) (suc k) zero h = absurd (omega arith)
take-split (x ∷ xs) (suc k) (suc n) h =
    ap (λ r. x ∷ r)
      (take-split xs k n (omega arith) ∙ ap (λ j. take k xs ++ take j (drop k xs)) (omega arith))

module _ (bytes : List ℕ) (size p : ℕ) (buffer : List ℕ) (n : ℕ) (pos : 0 < size)
    (e : length bytes ≡ size) (fits : n ≤ size) (k : n ≤ length buffer) where
  copy_in_straight :
      p % size + n ≤ size
      → memcpy bytes (p % size) (take n buffer) ≡ write_each bytes size p (take n buffer)
  copy_in_straight h =
      memcpy-write_each bytes size p (take n buffer) pos e (omega (arith, length-take n buffer))

  copy_in_passes :
      size < p % size + n
      → let j = size - p % size in
        memcpy (memcpy bytes (p % size) (take j buffer)) 0 (take (n - j) (drop j buffer))
        ≡ write_each bytes size p (take n buffer)
  copy_in_passes h =
      let j = size - p % size in
      let xs = take j buffer in
      let ys = take (n - j) (drop j buffer) in
      let len : length xs ≡ j = omega (arith, length-take j buffer, mod-lt p pos) in
      let back : (p + length xs) % size ≡ 0 = ap (λ l. (p + l) % size) len ∙ wrapped p size pos in
      let first : memcpy bytes (p % size) xs ≡ write_each bytes size p xs =
        memcpy-write_each bytes size p xs pos e (omega (arith, mod-lt p pos)) in
      let bytes' = write_each bytes size p xs in
      ap (λ b. memcpy b 0 ys) first
      ∙ ap (λ o. memcpy bytes' o ys) (sym back)
      ∙ memcpy-write_each bytes' size (p + length xs) ys pos (length-write_each bytes size p xs ∙ e)
          (omega (arith, back, length-take (n - j) (drop j buffer), mod-lt p pos))
      ∙ sym (write_each-append bytes size p xs ys)
      ∙ ap (write_each bytes size p) (sym (take-split buffer j n (omega arith)))

  copy_in_lem : copy_in bytes size p buffer n ≡ write_each bytes size p (take n buffer)
  unfolding copy_in
  copy_in_lem = ground (arith, mod-lt p pos, copy_in_straight, copy_in_passes)

-- What can be known of the counters of a valid ring.
counts :
    {r : Ringbuffer}
    → IsValid r
    → (data_count r ≡ r.write - r.read) × (free_space r ≡ r.size - (r.write - r.read))
counts v = ground arith

-- u80211_ringbuffer_write appends to the queue as many of the caller's bytes as there is room for,
-- in order, returns their number, and keeps the ring valid, round the end of the memory too. The
-- caller's buffer holds the bytes it announces, and the count of all bytes stays below 2 ^ 64.
pub write_refines :
    {r : Ringbuffer} (buffer : List ℕ) (wanted : ℕ)
    → IsValid r
    → wanted ≤ length buffer
    → r.write + wanted < 2 ^ 64
    → let (n, r') = write r buffer wanted in
      (n ≡ min wanted (r.size - length (queue r)))
      × (queue r' ≡ queue r ++ take n buffer)
      × IsValid r'
unfolding write queue
write_refines {r} buffer wanted v h k =
    let c = r.write - r.read in
    let n = min wanted (free_space r) in
    let bs = take n buffer in
    let (_, free) = counts v in
    let len : length bs ≡ n = omega (arith, length-take n buffer) in
    let written : copy_in (memory r.contents) r.size r.write buffer n
        ≡ write_each (memory r.contents) r.size (r.read + c) bs =
      copy_in_lem (memory r.contents) r.size r.write buffer n v.size_pos v.memory_size
        (omega (arith, free)) (omega (arith, free))
      ∙ ap (λ q. write_each (memory r.contents) r.size q bs) (omega arith) in
    (
      omega (arith, free, length-queue r),
      ap₂ (λ b m. window b r.size r.read m) written (omega (arith, free, len))
          ∙ window-write_each (memory r.contents) r.size r.read c bs v.size_pos v.memory_size
              (omega (arith, free, len)),
      record {
        size_pos = v.size_pos;
        size_fits = v.size_fits;
        memory_size =
            ap length written
            ∙ length-write_each (memory r.contents) r.size (r.read + c) bs
            ∙ v.memory_size;
        ordered = omega (arith, free);
        bounded = omega (arith, free);
        write_fits = omega (arith, free);
      },
    )

-- u80211_ringbuffer_read hands out the first bytes of the queue of a valid ring, all of them if
-- fewer than wanted are there, removes exactly these, and keeps the ring valid.
pub read_refines :
    {r : Ringbuffer} (wanted : ℕ)
    → IsValid r
    → let (bytes, n, r') = read r wanted in
      (bytes ≡ take wanted (queue r))
      × (n ≡ min wanted (length (queue r)))
      × (queue r' ≡ drop wanted (queue r))
      × IsValid r'
unfolding read queue
read_refines {r} wanted v =
    let c = r.write - r.read in
    let n = min wanted c in
    let (count, _) = counts v in
    (
      ap (copy_out (memory r.contents) r.size r.read) (ap (min wanted) count)
          ∙ copy_out_lem (memory r.contents) r.size r.read n v.size_pos v.memory_size (omega arith)
          ∙ sym (take-window (memory r.contents) r.size r.read c wanted),
      omega (arith, count, length-queue r),
      ap₂ (window (memory r.contents) r.size) {y = r.read + n} (omega (arith, count))
            (omega (arith, count))
          ∙ sym (drop-window (memory r.contents) r.size r.read c wanted),
      record {
        size_pos = v.size_pos;
        size_fits = v.size_fits;
        memory_size = v.memory_size;
        ordered = omega (arith, count);
        bounded = omega (arith, count);
        write_fits = v.write_fits;
      },
    )

-- The bytes from an offset of the queue on.
queue-part :
    (r : Ringbuffer) (offset wanted : ℕ)
    → let c = r.write - r.read in
      take wanted (drop offset (queue r))
      ≡ window (memory r.contents) r.size (r.read + min offset c) (min wanted (c - min offset c))
unfolding queue
queue-part r offset wanted =
    let c = r.write - r.read in
    ap (take wanted) (drop-window (memory r.contents) r.size r.read c offset)
    ∙ take-window (memory r.contents) r.size (r.read + min offset c) (c - min offset c) wanted

peek_inside :
    {r : Ringbuffer} (offset wanted : ℕ)
    → IsValid r
    → offset < r.write - r.read
    → copy_out
        (memory r.contents)
        r.size
        (u64 (r.read + offset))
        (min wanted (data_count r - offset))
      ≡ take wanted (drop offset (queue r))
peek_inside {r} offset wanted v h =
    let (count, _) = counts v in
    copy_out_lem (memory r.contents) r.size (u64 (r.read + offset))
      (min wanted (data_count r - offset)) v.size_pos v.memory_size (omega (arith, count))
    ∙ ap₂ (window (memory r.contents) r.size) (omega (arith, count)) (omega (arith, count))
    ∙ sym (queue-part r offset wanted)

peek_outside :
    (r : Ringbuffer) (offset wanted : ℕ)
    → r.write - r.read ≤ offset
    → take wanted (drop offset (queue r)) ≡ []
unfolding window
peek_outside r offset wanted h =
    queue-part r offset wanted
    ∙ ap {B = List ℕ} (window (memory r.contents) r.size (r.read + min offset (r.write - r.read)))
        {y = 0} (omega arith)

-- `u80211_ringbuffer_peek` hands out what a read would after skipping `offset` bytes, and nothing
-- when there are not more bytes than that. (It changes no ring: it returns none.)
pub peek_refines :
    {r : Ringbuffer} (offset wanted : ℕ)
    → IsValid r
    → let (bytes, n) = peek r offset wanted in
      (bytes ≡ take wanted (drop offset (queue r))) × (n ≡ min wanted (length (queue r) - offset))
unfolding peek
peek_refines {r} offset wanted v =
    ground
      (arith, counts v, length-queue r, peek_inside offset wanted v, peek_outside r offset wanted)

-- Moving the counters towards one another keeps a ring valid.
shrunk :
    {r : Ringbuffer}
    → IsValid r
    → (front back : ℕ) → front + back ≤ r.write - r.read
    → {read' write' : ℕ} → read' ≡ r.read + front
    → write' ≡ r.write - back
    → IsValid (record r { read = read'; write = write' })
shrunk v front back h e k = record {
  size_pos = v.size_pos;
  size_fits = v.size_fits;
  memory_size = v.memory_size;
  ordered = omega arith;
  bounded = omega arith;
  write_fits = omega arith;
}

-- `u80211_ringbuffer_truncate` drops bytes at the queue's front, `u80211_ringbuffer_remove` at its
-- end: as many as asked for, or all, and they return that number and keep the ring valid.
pub truncate-remove_refine :
    {r : Ringbuffer} (count : ℕ)
    → IsValid r
    → let (n, r') = truncate r count in
      let (k, r2) = remove r count in
      (n ≡ min count (length (queue r)))
      × (queue r' ≡ drop count (queue r))
      × IsValid r'
      × (k ≡ min count (length (queue r)))
      × (queue r2 ≡ take (length (queue r) - k) (queue r))
      × IsValid r2
unfolding truncate remove queue
truncate-remove_refine {r} count v =
    let c = r.write - r.read in
    let (here, _) = counts v in
    let len = length-queue r in
    let p = window (memory r.contents) r.size in
    (
      omega (arith, here, len),
      ap₂ p {y = r.read + min count c} (omega (arith, here)) (omega (arith, here))
          ∙ sym (drop-window (memory r.contents) r.size r.read c count),
      shrunk v (min count c) 0 (omega arith) (omega (arith, here)) (omega (arith, here)),
      omega (arith, here, len),
      ap (p r.read) (omega (arith, here, len))
          ∙ sym (
              take-window (memory r.contents) r.size r.read c
                (length (queue r) - min (data_count r) count)),
      shrunk v 0 (min count c) (omega arith) (omega (arith, here)) (omega (arith, here)),
    )

abbrev started : ℕ → List ℕ → Ringbuffer
started size bytes = record { size = size; write = 0; read = 0; contents = some bytes }

init-some :
    (size : ℕ) (bytes : List ℕ)
    → 0 < size
    → init size (some bytes) ≡ (status_success, started size bytes)
unfolding init
init-some size bytes pos = ground arith

started-queue : (size : ℕ) (bytes : List ℕ) → queue (started size bytes) ≡ []
unfolding queue window
started-queue size bytes = refl

-- A ring of a size that is not zero, with memory of that size, starts valid and empty.
pub init-IsValid :
    (size : ℕ) (bytes : List ℕ)
    → 0 < size
    → size < 2 ^ 64
    → length bytes ≡ size
    → let (status, r) = init size (some bytes) in
      (status ≡ status_success) × IsValid r × (queue r ≡ [])
init-IsValid size bytes pos fits e =
    rw (init-some size bytes pos) (refl, omega arith, started-queue size bytes)

pub data_count-queue : {r : Ringbuffer} → IsValid r → data_count r ≡ length (queue r)
data_count-queue {r} v = (counts v).0 ∙ sym (length-queue r)

pub free_space-queue : {r : Ringbuffer} → IsValid r → free_space r ≡ r.size - length (queue r)
free_space-queue {r} v = (counts v).1 ∙ ap (λ n. r.size - n) (sym (length-queue r))
