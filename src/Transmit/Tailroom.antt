-- ===== src/Transmit/Tailroom.antt =====
-- The code that src/packet_data.c puts behind a frame, in the tailroom of its buffer.
use u.Common.{
  ℕ, zero, suc, ◌+◌, ◌-◌, ◌≤◌, ◌≡◌, refl, ap, ◌∙◌, List, [], ◌∷◌, ◌++◌, length, length-memcpy,
  length-drop, drop, take, memcpy, u64, arith,
}
use u.Packet.{DescriptorIsValid, TxBufferDescriptor, frame}
use u.Transmit.Frame.{HasTailroom}

take-memcpy_end :
    (k n : ℕ) (dest source : List ℕ)
    → n ≡ k + length source
    → n ≤ length dest
    → take n (memcpy dest k source) ≡ take k dest ++ source
take-memcpy_end zero zero dest [] e h = refl
take-memcpy_end zero zero dest (s ∷ source) e h = absurd (omega arith)
take-memcpy_end zero (suc n) dest [] e h = absurd (omega arith)
take-memcpy_end zero (suc n) [] (s ∷ source) e h = absurd (omega arith)
take-memcpy_end zero (suc n) (d ∷ dest) (s ∷ source) e h =
    ap (λ r. s ∷ r) (take-memcpy_end zero n dest source (omega arith) (omega arith))
take-memcpy_end (suc k) zero dest source e h = absurd (omega arith)
take-memcpy_end (suc k) (suc n) [] source e h = absurd (omega arith)
take-memcpy_end (suc k) (suc n) (d ∷ dest) source e h =
    ap (λ r. d ∷ r) (take-memcpy_end k n dest source (omega arith) (omega arith))

drop-memcpy_behind :
    (o k p : ℕ) (dest source : List ℕ)
    → p ≡ o + k
    → drop o (memcpy dest p source) ≡ memcpy (drop o dest) k source
drop-memcpy_behind zero k p dest source e =
    ap (λ q. memcpy dest q source) {x = p} {y = k} (omega arith)
drop-memcpy_behind (suc o) k zero dest source e = absurd (omega arith)
drop-memcpy_behind (suc o) k (suc p) [] source e = refl
drop-memcpy_behind (suc o) k (suc p) (d ∷ dest) source e =
    drop-memcpy_behind o k p dest source (omega arith)

-- The descriptor with a code behind the frame.
abbrev pub with_mic : TxBufferDescriptor → List ℕ → TxBufferDescriptor
with_mic d mic = record d { buffer = memcpy d.buffer d.size mic; size = u64 (d.size + 8) }

module _ (d : TxBufferDescriptor) (v : HasTailroom d) (mic : List ℕ) (eight : length mic ≡ 8) where
  pub with_mic-valid : DescriptorIsValid (with_mic d mic)
  with_mic-valid = let n = length-memcpy d.buffer d.size mic in ground arith

  pub with_mic-frame : frame (with_mic d mic) ≡ frame d ++ mic
  with_mic-frame =
      let k = d.size - d.current_offset in
      let n = length-drop d.current_offset d.buffer in
      ap (λ q. take (u64 (d.size + 8) - d.current_offset) q)
        (drop-memcpy_behind d.current_offset k d.size d.buffer mic (omega arith))
      ∙ take-memcpy_end k (u64 (d.size + 8) - d.current_offset) (drop d.current_offset d.buffer) mic
          (omega arith) (omega arith)
