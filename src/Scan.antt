-- ===== src/Scan.antt =====
-- The choice of channels of src/scan.c, on the table of src/regulatory_database.c.
pub mod Channels
pub mod Session
pub mod Records
pub mod Queue
pub mod Arrivals
pub mod Run
pub mod Allocation
pub mod System
pub mod Consistency
pub mod Waiters
pub mod Rounds
pub mod Ends
use u.Common.{
  ℕ, zero, suc, ◌-◌, Bool, true, false, not, ◌&&◌, ◌||◌, Option, none, some, List, [], ◌∷◌, ltb,
  ◌==◌, if◌then◌else◌, has_flag,
}
use u.Packet.{MacAddress}

pub record ChannelRules : Type 0 where
  pub flags : ℕ
  pub max_dbm : ℕ

abbrev pub allowed_rules : ChannelRules
allowed_rules = record { flags = 0; max_dbm = 20 }

abbrev pub disabled_rules : ChannelRules
disabled_rules = record { flags = 1; max_dbm = 0 }

abbrev pub channel_count : ℕ
channel_count = 14

abbrev pub channels : List ChannelRules
channels =
    allowed_rules ∷ allowed_rules ∷ allowed_rules ∷ allowed_rules ∷ allowed_rules ∷ allowed_rules
    ∷ allowed_rules ∷ allowed_rules ∷ allowed_rules ∷ allowed_rules ∷ allowed_rules ∷ disabled_rules
    ∷ disabled_rules ∷ disabled_rules ∷ []

abbrev pub rules_at : List ChannelRules → ℕ → Option ChannelRules
rules_at [] i = none
rules_at (r ∷ rs) zero = some r
rules_at (r ∷ rs) (suc i) = rules_at rs i

-- `none` where the function would read outside its table. A negative channel is not modelled: the
-- callers start from 0.
unfoldable pub get_channel_rules : ℕ → Option ChannelRules
get_channel_rules channel =
    if ltb channel_count channel
    then some disabled_rules
    else elim channel [ zero ↦ none | suc i ↦ rules_at channels i ]

-- Neither of the flags U80211_CHANNEL_RULES_DISABLED and U80211_CHANNEL_RULES_PASSIVE.
unfoldable pub is_permitted : ℕ → Bool
unfolding get_channel_rules
is_permitted channel = elim (get_channel_rules channel) [
  | none ↦ false
  | some rules ↦ not (has_flag rules.flags 0 || has_flag rules.flags 1)
]

-- The loop from `channel` on, with the number of channels that are left. -1 is `none`.
unfoldable pub next_channel_from : ℕ → ℕ → Option ℕ
next_channel_from zero channel = none
next_channel_from (suc left) channel =
    let rest = next_channel_from left (suc channel) in
    if is_permitted channel then some channel else rest

unfoldable pub next_channel : ℕ → Option ℕ
unfolding next_channel_from
next_channel current = next_channel_from (channel_count - current) (suc current)

-- The channels that a scan listens on after `current`, one for each run of `scan_work`, until it
-- completes.
unfoldable pub scanned_channels : ℕ → ℕ → List ℕ
unfolding next_channel
scanned_channels zero current = []
scanned_channels (suc fuel) current = elim (next_channel current) [
  | none ↦ []
  | some channel ↦ channel ∷ scanned_channels fuel channel
]

-- The loop over the six bytes with its two flags.
unfoldable pub valid_bssid : MacAddress → Bool
valid_bssid m =
    let all_zero = is_all 0 in
    let all_broadcast = is_all 255 in
    not all_zero && (not all_broadcast && not (has_flag m.byte0 0))
  where
    is_all : ℕ → Bool
    is_all b =
        (m.byte0 == b)
        && ((m.byte1 == b)
            && ((m.byte2 == b) && ((m.byte3 == b) && ((m.byte4 == b) && (m.byte5 == b)))))
