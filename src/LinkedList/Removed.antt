-- ===== src/LinkedList/Removed.antt =====
-- Removal from the intrusive lists of include/u80211/list.h.
use u.Common.{
  ℕ, ◌≡◌, ◌≢◌, inl, inr, refl, sym, subst, ◌∙◌, Option, none, some, List, [], ◌∷◌, ◌++◌,
  option_some, arith,
}
use mathlib.Core.List.{append-nil, append_assoc}
use u.LinkedList.{Links, set_cell, list_remove, pop_front, pop_back}
use u.LinkedList.Refine.{
  front, back, Linked, Unlisted, AllDistinct, IsList, Linked-write_prev, Linked-write_next,
  Linked-split, Linked-join, back-append, front-append, unlisted_sym, Unlisted-remove,
  AllDistinct-split, last_cases,
}

module _ (n : ℕ) (s : Links) where
  only_at :
      s.prev n ≡ none
      → s.next n ≡ none
      → record s {
        head = none;
        tail = none;
        prev = set_cell s.prev n none;
        next = set_cell s.next n none;
      }
        ≡ list_remove n s
  unfolding list_remove
  only_at p e = ground (arith, p, e)

  first_at :
      (q : ℕ)
      → s.prev n ≡ none
      → s.next n ≡ some q
      → record s {
        head = some q;
        prev = set_cell (set_cell s.prev q none) n none;
        next = set_cell s.next n none;
      }
        ≡ list_remove n s
  unfolding list_remove
  first_at q p e = ground (arith, p, e)

  last_at :
      (t : ℕ)
      → n ≢ t
      → s.prev n ≡ some t
      → s.next n ≡ none
      → record s {
        tail = some t;
        prev = set_cell s.prev n none;
        next = set_cell (set_cell s.next t none) n none;
      }
        ≡ list_remove n s
  unfolding list_remove
  last_at t d p e = ground (arith, d, p, e)

  middle_at :
      (t q : ℕ)
      → n ≢ t
      → n ≢ q
      → s.prev n ≡ some t
      → s.next n ≡ some q
      → record s {
        prev = set_cell (set_cell s.prev q (some t)) n none;
        next = set_cell (set_cell s.next t (some q)) n none;
      }
        ≡ list_remove n s
  unfolding list_remove
  middle_at t q d d' p e = ground (arith, d, d', p, e)

  remove_only : IsList s (n ∷ []) → IsList (list_remove n s) []
  remove_only l =
      subst (λ (r : Links). IsList r []) (only_at l.linked.0 l.linked.1)
        (record { first_node = refl; last_node = refl; linked = tt; distinct = tt })

  remove_first : (q : ℕ) (ys : List ℕ) → IsList s (n ∷ q ∷ ys) → IsList (list_remove n s) (q ∷ ys)
  remove_first q ys l =
      let prev = set_cell (set_cell s.prev q none) n none in
      let kept = Linked-write_next prev s.next n none (some q) ys none l.distinct.0.1 (
        Linked-write_prev (set_cell s.prev q none) s.next n none (some q) ys none l.distinct.0.1
          (Linked-write_prev s.prev s.next q none (some q) ys none l.distinct.1.0 l.linked.2.2)) in
      subst (λ (r : Links). IsList r (q ∷ ys)) (first_at q l.linked.0 l.linked.1)
        (record {
          first_node = refl;
          last_node = l.last_node;
          linked =
              (ground (arith, l.distinct.0.0), ground (arith, l.distinct.0.0, l.linked.2.1), kept);
          distinct = l.distinct.1;
        })

  -- The nodes that the removal does not touch.
  untouched :
      (prev next : ℕ → Option ℕ) (q t : ℕ) (v w p : Option ℕ) (xs : List ℕ) (e : Option ℕ)
      → Unlisted q xs
      → Unlisted t xs
      → Unlisted n xs
      → Linked prev next p xs e
      → Linked (set_cell (set_cell prev q v) n none) (set_cell (set_cell next t w) n none) p xs e
  untouched prev next q t v w p xs e uq ut un l =
      Linked-write_prev (set_cell prev q v) (set_cell (set_cell next t w) n none) n none p xs e un (
        Linked-write_prev prev (set_cell (set_cell next t w) n none) q v p xs e uq (
          Linked-write_next prev (set_cell next t w) n none p xs e un
            (Linked-write_next prev next t w p xs e ut l)))

  -- The links around a node with others before it.
  around :
      (zs : List ℕ) (t : ℕ) (ys : List ℕ)
      → IsList s ((zs ++ t ∷ []) ++ n ∷ ys)
      → (s.prev n ≡ some t)
        × (s.next n ≡ front ys none)
        × (s.prev t ≡ back none zs)
        × Linked s.prev s.next none zs (some t)
        × Linked s.prev s.next (some n) ys none
  around zs t ys l =
      let (a, b) = Linked-split s.prev s.next none (zs ++ t ∷ []) (n ∷ ys) none l.linked in
      let (c, d) = Linked-split s.prev s.next none zs (t ∷ []) (some n) a in
      (b.0 ∙ back-append none zs (t ∷ []), b.1, d.0, c, b.2)

  -- The nodes before and after are all different.
  apart :
      (zs : List ℕ) (t : ℕ) (ys : List ℕ)
      → AllDistinct ((zs ++ t ∷ []) ++ n ∷ ys)
      → Unlisted n zs
        × (t ≢ n)
        × Unlisted n ys
        × Unlisted t zs
        × Unlisted t ys
        × AllDistinct ((zs ++ t ∷ []) ++ ys)
  apart zs t ys d =
      let (a, b, c) = AllDistinct-split (zs ++ t ∷ []) n ys d in
      let (e, f) = Unlisted-remove n zs t [] a in
      let (g, h, i) =
        AllDistinct-split zs t ys (subst AllDistinct (append_assoc zs (t ∷ []) ys) c) in
      (subst (Unlisted n) (append-nil zs) e, f, b, g, h, c)

  remove_last :
      (zs : List ℕ) (t : ℕ)
      → IsList s ((zs ++ t ∷ []) ++ n ∷ [])
      → IsList (list_remove n s) (zs ++ t ∷ [])
  remove_last zs t l =
      let (p, e, pt, before, after) = around zs t [] l in
      let (nz, tn, ny, tz, ty, d) = apart zs t [] l.distinct in
      let kept =
        Linked-write_prev s.prev (set_cell (set_cell s.next t none) n none) n none none zs (some t)
          nz
          (Linked-write_next s.prev (set_cell s.next t none) n none none zs (some t) nz
            (Linked-write_next s.prev s.next t none none zs (some t) tz before)) in
      subst (λ (r : Links). IsList r (zs ++ t ∷ [])) (last_at t (unlisted_sym t n tn) p e)
        (record {
          first_node = l.first_node ∙ sym (front-append zs t (n ∷ []));
          last_node = sym (back-append none zs (t ∷ []));
          linked =
              Linked-join (set_cell s.prev n none) (set_cell (set_cell s.next t none) n none) none
                zs (t ∷ []) none kept (ground (arith, tn, pt), ground (arith, tn), tt);
          distinct = subst AllDistinct (append-nil (zs ++ t ∷ [])) d;
        })

  remove_middle :
      (zs : List ℕ) (t q : ℕ) (ys : List ℕ)
      → IsList s ((zs ++ t ∷ []) ++ n ∷ q ∷ ys)
      → IsList (list_remove n s) ((zs ++ t ∷ []) ++ q ∷ ys)
  remove_middle zs t q ys l =
      let prev = set_cell (set_cell s.prev q (some t)) n none in
      let next = set_cell (set_cell s.next t (some q)) n none in
      let (p, e, pt, before, after) = around zs t (q ∷ ys) l in
      let (nz, tn, ny, tz, ty, d) = apart zs t (q ∷ ys) l.distinct in
      let (qz, qy, rest) = AllDistinct-split (zs ++ t ∷ []) q ys d in
      let (qz', tq) = Unlisted-remove q zs t [] qz in
      let kept =
        untouched s.prev s.next q t (some t) (some q) none zs (some t)
          (subst (Unlisted q) (append-nil zs) qz') tz nz before in
      let kept' =
        untouched s.prev s.next q t (some t) (some q) (some q) ys none qy ty.1 ny.1 after.2 in
      subst (λ (r : Links). IsList r ((zs ++ t ∷ []) ++ q ∷ ys))
        (middle_at t q (unlisted_sym t n tn) (unlisted_sym q n ny.0) p e)
        (record {
          first_node =
              l.first_node ∙ sym (front-append zs t (n ∷ q ∷ ys)) ∙ front-append zs t (q ∷ ys);
          last_node =
              l.last_node
              ∙ back-append none (zs ++ t ∷ []) (n ∷ q ∷ ys)
              ∙ sym (back-append none (zs ++ t ∷ []) (q ∷ ys));
          linked =
              subst (λ r. Linked prev next none r none) (sym (append_assoc zs (t ∷ []) (q ∷ ys)))
                (Linked-join prev next none zs (t ∷ q ∷ ys) none kept (
                  ground (arith, tn, tq, pt),
                  ground (arith, tn),
                  (ground (arith, ny.0), ground (arith, ny.0, ty.0, after.1), kept'),
                ));
          distinct = d;
        })

  after_others :
      (zs : List ℕ) (t : ℕ) (ys : List ℕ)
      → IsList s ((zs ++ t ∷ []) ++ n ∷ ys)
      → IsList (list_remove n s) ((zs ++ t ∷ []) ++ ys)
  after_others zs t [] l =
      subst (IsList (list_remove n s)) (sym (append-nil (zs ++ t ∷ []))) (remove_last zs t l)
  after_others zs t (q ∷ ys) l = remove_middle zs t q ys l

  at_front : (ys : List ℕ) → IsList s (n ∷ ys) → IsList (list_remove n s) ys
  at_front [] l = remove_only l
  at_front (q ∷ ys) l = remove_first q ys l

  -- u80211_list_remove on links that hold a sequence of distinct nodes takes one of them out,
  -- wherever it stands: the links hold the others in their order, with both pointers of the list
  -- and of every node.
  pub list_remove-IsList :
      (xs ys : List ℕ) → IsList s (xs ++ n ∷ ys) → IsList (list_remove n s) (xs ++ ys)
  list_remove-IsList xs ys l = elim (last_cases xs) [
    | inl e ↦
        subst (λ q. IsList (list_remove n s) (q ++ ys)) (sym e)
          (at_front ys (subst (λ q. IsList s (q ++ n ∷ ys)) e l))
    | inr (zs, t, e) ↦
        subst (λ q. IsList (list_remove n s) (q ++ ys)) (sym e)
          (after_others zs t ys (subst (λ q. IsList s (q ++ n ∷ ys)) e l))
  ]

-- The first node of the list is taken out and returned, and a null pointer if there is none.
abbrev pub PopsFront : Links → List ℕ → Option ℕ × Links → Type 0
PopsFront s [] r = r ≡ (none, s)
PopsFront s (x ∷ xs) r = (r.0 ≡ some x) × IsList r.1 xs

pub pop_front-PopsFront : (s : Links) (xs : List ℕ) → IsList s xs → PopsFront s xs (pop_front s)
unfolding pop_front
pop_front-PopsFront s [] l = ground (arith, l.first_node)
pop_front-PopsFront s (x ∷ xs) l =
    subst (λ (r : Option ℕ × Links). (r.0 ≡ some x) × IsList r.1 xs)
      (sym (option_some (none, s) (λ n. (some n, list_remove n s)) l.first_node))
      (refl, list_remove-IsList x s [] xs l)

-- The last node of the list is taken out and returned.
pub pop_back-IsList :
    (s : Links) (xs : List ℕ) (x : ℕ)
    → IsList s (xs ++ x ∷ [])
    → ((pop_back s).0 ≡ some x) × IsList (pop_back s).1 xs
unfolding pop_back
pop_back-IsList s xs x l =
    subst (λ (r : Option ℕ × Links). (r.0 ≡ some x) × IsList r.1 xs)
      (sym (
        option_some (none, s) (λ n. (some n, list_remove n s))
          (l.last_node ∙ back-append none xs (x ∷ []))))
      (refl, subst (IsList (list_remove x s)) (append-nil xs) (list_remove-IsList x s xs [] l))
