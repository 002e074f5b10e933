-- ===== src/Tests/Rbtree.antt =====
-- The red-black tree, run on numbers.
use Prim.Native.Nat
use u.Common.{ℕ, ◌≡◌, refl, Option, some, none, List, [], ◌∷◌, ◌++◌, arith}
use u.Rbtree.{
  black, red, Tree, nil, node, Node, Comparison, less, equal, greater, left, frame, lookup,
  find_first_larger_equal, ◌>>=◌,
}
use u.Rbtree.Insert.{insert}
use u.Rbtree.Remove.{remove}
use u.Rbtree.Sequence.{to_list, node_at, values_before, values_after}
use u.Rbtree.Order.{insert_sorted}
use u.Rbtree.Order.Laws.{IsOrder, IsSearchTree, insert-IsSearchTree, remove-IsSearchTree}
use u.Rbtree.Search.{Finds, Meets, lookup-Finds, larger_equal-Meets}

abbrev number_compare : ℕ → ℕ → Comparison
number_compare a b = elim (Nat.compare a b) [
  | Nat.Ordering.lt ↦ less
  | Nat.Ordering.eq ↦ equal
  | Nat.Ordering.gt ↦ greater
]

number_compare-IsOrder : IsOrder number_compare
number_compare-IsOrder = record {
  flips = λ a b. ground arith;
  less_trans = λ a b c h k. ground arith;
  equal_left = λ a b c h. ground arith;
}

abbrev three_numbers : Tree ℕ
three_numbers = node black (node red nil 3 nil) 5 (node red nil 8 nil)

three_numbers-IsSearchTree : IsSearchTree number_compare three_numbers
three_numbers-IsSearchTree = record { valid = ground arith; sorted = ground arith }

insert_all : List ℕ → Tree ℕ → Option (Tree ℕ)
insert_all [] t = some t
insert_all (v ∷ vs) t = do t ← insert number_compare v t; insert_all vs t

abbrev values_of : Option (Tree ℕ) → List ℕ
values_of none = []
values_of (some t) = to_list t

-- An insertion that recolours, and one that rotates twice.
insert_all_run :
    insert_all (7 ∷ 6 ∷ []) three_numbers
    ≡ some (
        node black
          (node black nil 3 nil)
          5
          (node black (node red nil 6 nil) 7 (node red nil 8 nil)))
unfolding insert_all insert
insert_all_run = refl

insert_many_run :
    values_of (insert_all (9 ∷ 2 ∷ 7 ∷ 1 ∷ 8 ∷ 3 ∷ 6 ∷ 4 ∷ 5 ∷ []) nil)
    ≡ 1 ∷ 2 ∷ 3 ∷ 4 ∷ 5 ∷ 6 ∷ 7 ∷ 8 ∷ 9 ∷ []
unfolding insert_all insert
insert_many_run = refl

abbrev root_of_three : Node ℕ
root_of_three = node_at black (node red nil 3 nil) 5 (node red nil 8 nil) []

remove_root_run : remove root_of_three ≡ some (node black (node red nil 3 nil) 8 nil)
unfolding remove
remove_root_run = refl

-- The removal of a black leaf whose sibling is red.
remove_black_run :
    remove {A = ℕ} (
      node_at black nil 1 nil
        (frame left black 2 (node red (node black nil 3 nil) 4 (node black nil 5 nil)) ∷ []))
    ≡ some (node black (node black nil 2 (node red nil 3 nil)) 4 (node black nil 5 nil))
unfolding remove
remove_black_run = refl

insert-IsSearchTree_example :
    (u : Tree ℕ) × (insert number_compare 4 three_numbers ≡ some u)
    × IsSearchTree number_compare u
    × (to_list u ≡ insert_sorted (number_compare 4) 4 (to_list three_numbers))
insert-IsSearchTree_example =
    insert-IsSearchTree number_compare number_compare-IsOrder 4 three_numbers
      three_numbers-IsSearchTree

remove-IsSearchTree_example :
    (u : Tree ℕ) × (remove root_of_three ≡ some u)
    × IsSearchTree number_compare u
    × (to_list u ≡ values_before root_of_three ++ values_after root_of_three)
remove-IsSearchTree_example =
    remove-IsSearchTree number_compare root_of_three three_numbers-IsSearchTree

lookup-Finds_example :
    Finds
      (number_compare 8)
      three_numbers
      (to_list three_numbers)
      (lookup (number_compare 8) three_numbers)
lookup-Finds_example = lookup-Finds (number_compare 8) three_numbers (ground arith)

larger_equal-Meets_example :
    Meets
      (number_compare 4)
      three_numbers
      (find_first_larger_equal (number_compare 4) three_numbers)
larger_equal-Meets_example = larger_equal-Meets (number_compare 4) three_numbers (ground arith)
