-- ===== src/Common/Status.antt =====
-- The status codes of include/u80211/status.h, and the results of functions that fill what their
-- pointer arguments point to only when they return success.
use Prim.Native.Nat.{ℕ}

abbrev pub status_success : ℕ
status_success = 0

abbrev pub status_enomem : ℕ
status_enomem = 1

abbrev pub status_unsupported : ℕ
status_unsupported = 2

abbrev pub status_not_enough_space : ℕ
status_not_enough_space = 3

abbrev pub status_busy : ℕ
status_busy = 4

abbrev pub status_not_permitted : ℕ
status_not_permitted = 5

abbrev pub status_retry : ℕ
status_retry = 6

abbrev pub status_rejected : ℕ
status_rejected = 7

abbrev pub status_timed_out : ℕ
status_timed_out = 8

abbrev pub status_not_associated : ℕ
status_not_associated = 9

abbrev pub status_unknown_error : ℕ
status_unknown_error = 0xffff

-- `ok` is U80211_STATUS_SUCCESS with what was filled in, `err` any other status.
pub data Result {ℓ} (A : Type ℓ) : Type ℓ where
  ok : A → Result A
  err : ℕ → Result A
