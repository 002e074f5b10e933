-- ===== src/Scan/Channels.antt =====
-- The channels that a scan of src/scan.c goes through.
use u.Common.{
  ℕ, zero, suc, ◌+◌, ◌-◌, ◌≤◌, ◌<◌, ◌≡◌, sym, ap, ◌∙◌, subst, ◌⊎◌, inl, inr, true, false, Option,
  none, some, List, [], ◌∷◌, arith, Bool-cases,
}
use u.Scan.{
  channel_count, is_permitted, get_channel_rules, next_channel_from, next_channel, scanned_channels,
}

-- The first permitted channel above `current`, or that there is none.
abbrev pub IsNext : ℕ → Option ℕ → Type 0
IsNext current none = (n : ℕ) → current < n → is_permitted n ≡ false
IsNext current (some k) =
    (current < k)
    × (is_permitted k ≡ true)
    × ((n : ℕ) → current < n → n < k → is_permitted n ≡ false)

pub above-is_permitted : (n : ℕ) → channel_count < n → is_permitted n ≡ false
unfolding is_permitted get_channel_rules
above-is_permitted n h = ground arith

-- a channel that is not permitted is skipped
widen-IsNext :
    (current : ℕ) (result : Option ℕ)
    → is_permitted (suc current) ≡ false
    → IsNext (suc current) result
    → IsNext current result
widen-IsNext current none h next =
    λ n above. elim (split n above) [ inl e ↦ ap is_permitted e ∙ h | inr above1 ↦ next n above1 ]
  where
    split : (n : ℕ) → current < n → (n ≡ suc current) ⊎ (suc current < n)
    split n above = omega arith
widen-IsNext current (some k) h (after, is_ok, none_between) = (
  omega arith,
  is_ok,
  λ n above below. elim (split n above) [
    | inl e ↦ ap is_permitted e ∙ h
    | inr above1 ↦ none_between n above1 below
  ],
)
  where
    split : (n : ℕ) → current < n → (n ≡ suc current) ⊎ (suc current < n)
    split n above = omega arith

next_channel_from-IsNext :
    (left current : ℕ)
    → left + current ≡ channel_count
    → IsNext current (next_channel_from left (suc current))
unfolding next_channel_from
next_channel_from-IsNext zero current e = λ n above. above-is_permitted n (omega arith)
next_channel_from-IsNext (suc left) current e =
    let next = next_channel_from-IsNext left (suc current) (omega arith) in
    elim (Bool-cases (is_permitted (suc current))) [
      | inl h ↦
          subst (λ r. IsNext current r) (sym (if_true h))
            (omega arith, h, λ n above below. absurd (omega arith))
      | inr h ↦
          subst (λ r. IsNext current r) (sym (if_false h))
            (widen-IsNext current (next_channel_from left (suc (suc current))) h next)
    ]
  where
    if_true :
        is_permitted (suc current) ≡ true
        → next_channel_from (suc left) (suc current) ≡ some (suc current)
    if_true h = ground arith

    if_false :
        is_permitted (suc current) ≡ false
        → next_channel_from (suc left) (suc current) ≡ next_channel_from left (suc (suc current))
    if_false h = ground arith

-- From any channel up to 14 the next one is the lowest permitted channel above it. There is none
-- exactly where no channel above it is permitted.
pub next_channel-IsNext :
    (current : ℕ) → current ≤ channel_count → IsNext current (next_channel current)
unfolding next_channel
next_channel-IsNext current h =
    next_channel_from-IsNext (channel_count - current) current (omega arith)

-- The channels of a scan, in order: each is the next permitted one after the channel before it, and
-- after the last one there is none.
abbrev pub CoversFrom : ℕ → List ℕ → Type 0
CoversFrom current [] = (n : ℕ) → current < n → is_permitted n ≡ false
CoversFrom current (c ∷ cs) = IsNext current (some c) × CoversFrom c cs

permitted-bound : (n : ℕ) → is_permitted n ≡ true → n ≤ channel_count
unfolding is_permitted get_channel_rules
permitted-bound n h = ground arith

-- With fuel for the channels that are left a scan listens once on every permitted channel above
-- the one it starts from, in increasing order, and ends.
pub scanned_channels-CoversFrom :
    (fuel current : ℕ)
    → current ≤ channel_count
    → channel_count < fuel + current
    → CoversFrom current (scanned_channels fuel current)
unfolding scanned_channels
scanned_channels-CoversFrom zero current h enough = absurd (omega arith)
scanned_channels-CoversFrom (suc fuel) current h enough =
    go (λ c. scanned_channels-CoversFrom fuel c) (next_channel current)
      (next_channel-IsNext current h)
  where
    go :
        ((c : ℕ)
          → c ≤ channel_count
          → channel_count < fuel + c
          → CoversFrom c (scanned_channels fuel c))
        → (result : Option ℕ) → IsNext current result
        → CoversFrom current
            (elim result [ none ↦ [] | some channel ↦ channel ∷ scanned_channels fuel channel ])
    go rest none next = next
    go rest (some c) (after, is_ok, none_between) =
        ((after, is_ok, none_between), rest c (permitted-bound c is_ok) (omega arith))
