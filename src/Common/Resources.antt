-- ===== src/Common/Resources.antt =====
-- What a function allocates and frees, in the order of its calls.
use mathlib.Core.Bool.{Bool, true, false}
use mathlib.Core.Option.{Option, none, some}
use mathlib.Core.List.{List, [], ◌∷◌}
use u.Common.Tests.{◌==◌, if◌then◌else◌}
use Prim.Native.Nat.{ℕ}

pub data ResourceCall {ℓ} (R : Type ℓ) : Type ℓ where
  allocated : R → ResourceCall R
  freed : R → ResourceCall R

-- What the calls leave of one resource: `none` where one of them allocates it twice or frees it when it
-- is not allocated. `code` numbers the resources.
unfoldable pub live_after {ℓ} :
    {R : Type ℓ} → (R → ℕ) → R → Bool → List (ResourceCall R) → Option Bool
live_after code r live [] = some live
live_after code r live (allocated x ∷ calls) =
    let rest = live_after code r true calls in
    let other = live_after code r live calls in
    if code x == code r then (if live then none else rest) else other
live_after code r live (freed x ∷ calls) =
    let rest = live_after code r false calls in
    let other = live_after code r live calls in
    if code x == code r then (if live then rest else none) else other
