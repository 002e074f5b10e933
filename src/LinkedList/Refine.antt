-- ===== src/LinkedList/Refine.antt =====
-- The operations on the links of include/u80211/list.h are those on the sequence of the nodes.
use u.Common.{
  ℕ, ◌≡◌, ◌≢◌, ◌⊎◌, inl, inr, refl, sym, ap, subst, ◌∙◌, Option, none, some, List, [], ◌∷◌, ◌++◌,
  arith,
}
use mathlib.Core.List.{append-nil, append_assoc}
use u.LinkedList.{Links, set_cell, list_init, push_front, push_back}

-- The first node, or what follows, and the last node, or what precedes.
abbrev pub front : List ℕ → Option ℕ → Option ℕ
front [] e = e
front (x ∷ xs) e = some x

abbrev pub back : Option ℕ → List ℕ → Option ℕ
back p [] = p
back p (x ∷ xs) = back (some x) xs

-- The nodes are linked with each other, with what precedes them and what follows.
abbrev pub Linked : (ℕ → Option ℕ) → (ℕ → Option ℕ) → Option ℕ → List ℕ → Option ℕ → Type 0
Linked prev next p [] e = Unit
Linked prev next p (x ∷ xs) e =
    (prev x ≡ p) × (next x ≡ front xs e) × Linked prev next (some x) xs e

abbrev pub Unlisted : ℕ → List ℕ → Type 0
Unlisted a [] = Unit
Unlisted a (x ∷ xs) = (x ≢ a) × Unlisted a xs

abbrev pub AllDistinct : List ℕ → Type 0
AllDistinct [] = Unit
AllDistinct (x ∷ xs) = Unlisted x xs × AllDistinct xs

-- The links hold the sequence.
pub record IsList (s : Links) (xs : List ℕ) : Type 0 where
  pub first_node : s.head ≡ front xs none
  pub last_node : s.tail ≡ back none xs
  pub linked : Linked s.prev s.next none xs none
  pub distinct : AllDistinct xs

pub list_init-IsList : (s : Links) → IsList (list_init s) []
list_init-IsList s = record { first_node = refl; last_node = refl; linked = tt; distinct = tt }

-- A write to the cells of another node.
pub Linked-write_prev :
    (prev next : ℕ → Option ℕ) (a : ℕ) (v p : Option ℕ) (xs : List ℕ) (e : Option ℕ)
    → Unlisted a xs
    → Linked prev next p xs e
    → Linked (set_cell prev a v) next p xs e
Linked-write_prev prev next a v p [] e u l = tt
Linked-write_prev prev next a v p (x ∷ xs) e u l =
    (ground (arith, u.0, l.0), l.1, Linked-write_prev prev next a v (some x) xs e u.1 l.2)

pub Linked-write_next :
    (prev next : ℕ → Option ℕ) (a : ℕ) (v p : Option ℕ) (xs : List ℕ) (e : Option ℕ)
    → Unlisted a xs
    → Linked prev next p xs e
    → Linked prev (set_cell next a v) p xs e
Linked-write_next prev next a v p [] e u l = tt
Linked-write_next prev next a v p (x ∷ xs) e u l =
    (l.0, ground (arith, u.0, l.1), Linked-write_next prev next a v (some x) xs e u.1 l.2)

pub Linked-split :
    (prev next : ℕ → Option ℕ) (p : Option ℕ) (xs ys : List ℕ) (e : Option ℕ)
    → Linked prev next p (xs ++ ys) e
    → Linked prev next p xs (front ys e) × Linked prev next (back p xs) ys e
Linked-split prev next p [] ys e l = (tt, l)
Linked-split prev next p (x ∷ []) ys e l = ((l.0, l.1, tt), l.2)
Linked-split prev next p (x ∷ y ∷ xs) ys e l =
    let (a, b) = Linked-split prev next (some x) (y ∷ xs) ys e l.2 in ((l.0, l.1, a), b)

pub Linked-join :
    (prev next : ℕ → Option ℕ) (p : Option ℕ) (xs ys : List ℕ) (e : Option ℕ)
    → Linked prev next p xs (front ys e)
    → Linked prev next (back p xs) ys e
    → Linked prev next p (xs ++ ys) e
Linked-join prev next p [] ys e a b = b
Linked-join prev next p (x ∷ []) ys e a b = (a.0, a.1, b)
Linked-join prev next p (x ∷ y ∷ xs) ys e a b =
    (a.0, a.1, Linked-join prev next (some x) (y ∷ xs) ys e a.2 b)

pub back-append : (p : Option ℕ) (xs ys : List ℕ) → back p (xs ++ ys) ≡ back (back p xs) ys
back-append p [] ys = refl
back-append p (x ∷ xs) ys = back-append (some x) xs ys

pub front-append :
    (zs : List ℕ) (t : ℕ) (ys : List ℕ)
    → front (zs ++ t ∷ []) none ≡ front ((zs ++ t ∷ []) ++ ys) none
front-append [] t ys = refl
front-append (z ∷ zs) t ys = refl

pub unlisted_sym : (a b : ℕ) → a ≢ b → b ≢ a
unlisted_sym a b h e = h (sym e)

pub Unlisted-remove :
    (a : ℕ) (xs : List ℕ) (y : ℕ) (ys : List ℕ)
    → Unlisted a (xs ++ y ∷ ys)
    → Unlisted a (xs ++ ys) × (y ≢ a)
Unlisted-remove a [] y ys u = (u.1, u.0)
Unlisted-remove a (x ∷ xs) y ys u = let (b, c) = Unlisted-remove a xs y ys u.1 in ((u.0, b), c)

-- A node is not among the others.
pub AllDistinct-split :
    (xs : List ℕ) (y : ℕ) (ys : List ℕ)
    → AllDistinct (xs ++ y ∷ ys)
    → Unlisted y xs × Unlisted y ys × AllDistinct (xs ++ ys)
AllDistinct-split [] y ys d = (tt, d.0, d.1)
AllDistinct-split (x ∷ xs) y ys d =
    let (a, b, c) = AllDistinct-split xs y ys d.1 in
    let (u, n) = Unlisted-remove x xs y ys d.0 in ((unlisted_sym y x n, a), b, (u, c))

Unlisted-append_one :
    (a : ℕ) (xs : List ℕ) (y : ℕ) → Unlisted a xs → y ≢ a → Unlisted a (xs ++ y ∷ [])
Unlisted-append_one a [] y u n = (n, tt)
Unlisted-append_one a (x ∷ xs) y u n = (u.0, Unlisted-append_one a xs y u.1 n)

AllDistinct-append_one :
    (xs : List ℕ) (y : ℕ) → Unlisted y xs → AllDistinct xs → AllDistinct (xs ++ y ∷ [])
AllDistinct-append_one [] y u d = (tt, tt)
AllDistinct-append_one (x ∷ xs) y u d =
    (Unlisted-append_one x xs y d.0 (unlisted_sym x y u.0), AllDistinct-append_one xs y u.1 d.1)

push_front_at :
    (n : ℕ) (s : Links) (x : ℕ)
    → s.head ≡ some x
    → record s {
      head = some n;
      prev = set_cell (set_cell s.prev n none) x (some n);
      next = set_cell s.next n (some x);
    }
      ≡ push_front n s
unfolding push_front
push_front_at n s x h = ground (arith, h)

-- A node that is not in the list is put before the others.
pub push_front-IsList :
    (n : ℕ) (s : Links) (xs : List ℕ)
    → Unlisted n xs
    → IsList s xs
    → IsList (push_front n s) (n ∷ xs)
unfolding push_front
push_front-IsList n s [] u l = record {
  first_node = refl;
  last_node = ground (arith, l.first_node);
  linked = (ground (arith, l.first_node), ground (arith, l.first_node), tt);
  distinct = (tt, tt);
}
push_front-IsList n s (x ∷ xs) u l =
    let prev = set_cell s.prev n none in
    let next = set_cell s.next n (some x) in
    let kept = Linked-write_prev prev next x (some n) (some x) xs none l.distinct.0 (
      Linked-write_prev s.prev next n none (some x) xs none u.1
        (Linked-write_next s.prev s.next n (some x) (some x) xs none u.1 l.linked.2)) in
    subst (λ (t : Links). IsList t (n ∷ x ∷ xs)) (push_front_at n s x l.first_node)
      (record {
        first_node = refl;
        last_node = l.last_node;
        linked = (
          ground (arith, u.0),
          ground arith,
          (ground arith, ground (arith, u.0, l.linked.1), kept),
        );
        distinct = (u, l.distinct);
      })

-- A sequence is empty or has a last node.
pub last_cases : (xs : List ℕ) → (xs ≡ []) ⊎ ((zs : List ℕ) × (t : ℕ) × (xs ≡ zs ++ t ∷ []))
last_cases [] = inl refl
last_cases (x ∷ xs) = elim (last_cases xs) [
  | inl e ↦ inr ([], x, rw e refl)
  | inr (zs, t, e) ↦ inr (x ∷ zs, t, ap (λ q. x ∷ q) e)
]

push_back_at :
    (n : ℕ) (s : Links) (t : ℕ)
    → s.tail ≡ some t
    → record s {
      tail = some n;
      prev = set_cell s.prev n (some t);
      next = set_cell (set_cell s.next n none) t (some n);
    }
      ≡ push_back n s
unfolding push_back
push_back_at n s t h = ground (arith, h)

push_back_first : (n : ℕ) (s : Links) → IsList s [] → IsList (push_back n s) (n ∷ [])
unfolding push_back
push_back_first n s l = record {
  first_node = ground (arith, l.last_node);
  last_node = refl;
  linked = (ground (arith, l.last_node), ground (arith, l.last_node), tt);
  distinct = (tt, tt);
}

push_back_after :
    (n : ℕ) (s : Links) (zs : List ℕ) (t : ℕ)
    → Unlisted n (zs ++ t ∷ [])
    → IsList s (zs ++ t ∷ [])
    → IsList (push_back n s) ((zs ++ t ∷ []) ++ n ∷ [])
push_back_after n s zs t u l =
    let prev = set_cell s.prev n (some t) in
    let next = set_cell (set_cell s.next n none) t (some n) in
    let (nz, tn) = Unlisted-remove n zs t [] u in
    let (tz, later, d) = AllDistinct-split zs t [] l.distinct in
    let tail = l.last_node ∙ back-append none zs (t ∷ []) in
    let (a, b) = Linked-split s.prev s.next none zs (t ∷ []) none l.linked in
    let kept = Linked-write_next prev (set_cell s.next n none) t (some n) none zs (some t) tz (
      Linked-write_next prev s.next n none none zs (some t) (subst (Unlisted n) (append-nil zs) nz)
        (Linked-write_prev s.prev s.next n (some t) none zs (some t)
          (subst (Unlisted n) (append-nil zs) nz) a)) in
    subst (λ (q : Links). IsList q ((zs ++ t ∷ []) ++ n ∷ [])) (push_back_at n s t tail)
      (record {
        first_node = l.first_node ∙ front-append zs t (n ∷ []);
        last_node = sym (back-append none (zs ++ t ∷ []) (n ∷ []));
        linked =
            subst (λ q. Linked prev next none q none) (sym (append_assoc zs (t ∷ []) (n ∷ [])))
              (Linked-join prev next none zs (t ∷ n ∷ []) none kept (
                ground (arith, tn, b.0),
                ground arith,
                (ground (arith, tn), ground (arith, tn), tt),
              ));
        distinct = AllDistinct-append_one (zs ++ t ∷ []) n u l.distinct;
      })

-- A node that is not in the list is put after the others.
pub push_back-IsList :
    (n : ℕ) (s : Links) (xs : List ℕ)
    → Unlisted n xs
    → IsList s xs
    → IsList (push_back n s) (xs ++ n ∷ [])
push_back-IsList n s xs u l = elim (last_cases xs) [
  | inl e ↦ rw e (push_back_first n s (subst (IsList s) e l))
  | inr (zs, t, e) ↦ rw e (push_back_after n s zs t (subst (Unlisted n) e u) (subst (IsList s) e l))
]
