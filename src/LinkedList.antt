-- ===== src/LinkedList.antt =====
-- The intrusive lists of include/u80211/list.h: the links of the nodes are memory cells, by the nodes'
-- addresses, and a null pointer is `none`.
pub mod Refine
pub mod Removed
use u.Common.{ℕ, Option, none, some, ◌==◌, if◌then◌else◌}

-- The two pointers of `u80211_list_t`, and those of every `u80211_list_node_t`.
pub record Links : Type 0 where
  pub head : Option ℕ
  pub tail : Option ℕ
  pub prev : ℕ → Option ℕ
  pub next : ℕ → Option ℕ

-- A write to the cell of a node.
abbrev pub set_cell : (ℕ → Option ℕ) → ℕ → Option ℕ → ℕ → Option ℕ
set_cell cell a v b = if b == a then v else cell b

abbrev pub list_init : Links → Links
list_init s = record s { head = none; tail = none }

unfoldable pub push_front : ℕ → Links → Links
push_front n s =
    let s = record s { prev = set_cell s.prev n none } in
    let s = record s { next = set_cell s.next n s.head } in
    let s : Links = elim s.head [
      | some h ↦ record s { prev = set_cell s.prev h (some n) }
      | none ↦ record s { tail = some n }
    ] in
    record s { head = some n }

unfoldable pub push_back : ℕ → Links → Links
push_back n s =
    let s = record s { next = set_cell s.next n none } in
    let s = record s { prev = set_cell s.prev n s.tail } in
    let s : Links = elim s.tail [
      | some t ↦ record s { next = set_cell s.next t (some n) }
      | none ↦ record s { head = some n }
    ] in
    record s { tail = some n }

unfoldable pub list_remove : ℕ → Links → Links
list_remove n s =
    let s : Links = elim (s.prev n) [
      | some p ↦ record s { next = set_cell s.next p (s.next n) }
      | none ↦ record s { head = s.next n }
    ] in
    let s : Links = elim (s.next n) [
      | some q ↦ record s { prev = set_cell s.prev q (s.prev n) }
      | none ↦ record s { tail = s.prev n }
    ] in
    record s { prev = set_cell s.prev n none; next = set_cell s.next n none }

unfoldable pub pop_front : Links → Option ℕ × Links
pop_front s = elim s.head [ none ↦ (none, s) | some n ↦ (some n, list_remove n s) ]

unfoldable pub pop_back : Links → Option ℕ × Links
pop_back s = elim s.tail [ none ↦ (none, s) | some n ↦ (some n, list_remove n s) ]
