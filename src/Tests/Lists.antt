-- ===== src/Tests/Lists.antt =====
-- The intrusive lists, run on nodes at small addresses.
use u.Common.{◌≡◌, refl, none, some, [], ◌∷◌, ◌++◌, arith}
use u.LinkedList.{Links, list_init, push_front, push_back, list_remove, pop_front, pop_back}
use u.LinkedList.Refine.{IsList}
use u.LinkedList.Removed.{list_remove-IsList}

abbrev no_links : Links
no_links = record { head = none; tail = none; prev = λ a. none; next = λ a. none }

-- The nodes 1, 2 and 3 in their order.
abbrev three_nodes : Links
three_nodes = push_back 3 (push_front 1 (push_back 2 (list_init no_links)))

pop_back_run : (pop_back (list_remove 2 three_nodes)).0 ≡ some 3
unfolding pop_back list_remove push_back push_front
pop_back_run = refl

pop_front_run : (pop_front (pop_front three_nodes).1).0 ≡ some 2
unfolding pop_front list_remove push_back push_front
pop_front_run = refl

three_nodes-IsList : IsList three_nodes (1 ∷ 2 ∷ 3 ∷ [])
unfolding push_back push_front
three_nodes-IsList = record {
  first_node = refl;
  last_node = refl;
  linked = ground arith;
  distinct = ground arith;
}

list_remove-IsList_example : IsList (list_remove 2 three_nodes) ((1 ∷ []) ++ 3 ∷ [])
list_remove-IsList_example = list_remove-IsList 2 three_nodes (1 ∷ []) (3 ∷ []) three_nodes-IsList
