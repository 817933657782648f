-- ===== src/Examples/Trees.antt =====
-- The theorems on the tree at three transactions, the first two of which share an object.
use order_processor.Common.{
  ℕ, ◌≡◌, refl, true, List, [], ◌∷◌, arith, ite, if◌then◌else◌, ◌==◌, Option, none, some,
}
use order_processor.Model.Ids.{IdT, make_id}
use order_processor.Acid.Objects.{Object, Object-discrete, order_object}
use order_processor.Tree.Defs.{Node, Tree, add}
use order_processor.Tree.Remove.{remove}
use order_processor.Tree.Invariant.{IsLinked}
use order_processor.Tree.Removal.{remove-IsLinked}
use order_processor.Tree.Cursor.{walk, walk-take}
use order_processor.Tree.Growth.{add-IsLinked}

abbrev order_1 : Object
order_1 = record { id = make_id 1 1; type = order_object }

abbrev order_2 : Object
order_2 = record { id = make_id 2 1; type = order_object }

abbrev node : Object → Node ℕ
node o = record { value = 7; depends = o ∷ []; parents = []; children = [] }

abbrev keys : IdT → Option (Node ℕ)
keys k = if k == 10 then some (node order_1) else if k == 11 then some (node order_2) else none

abbrev users : Object → List IdT
users o = ite (Object-discrete order_1 o) (10 ∷ []) (ite (Object-discrete order_2 o) (11 ∷ []) [])

abbrev tree : Tree ℕ
tree = record { root = 10 ∷ 11 ∷ []; keys = keys; used_in = users; current = none }

tree-IsLinked : IsLinked tree
tree-IsLinked = record {
  users = λ o k. ground arith;
  ordered = λ o. ground arith;
  chained = λ o. ground arith;
  root = λ k. ground arith;
  once = (refl, (refl, tt));
}

-- The new transaction uses both objects.
add-IsLinked_example :
    IsLinked (add 12 8 (order_1 ∷ order_2 ∷ []) 0 tree).0
    × ((add 12 8 (order_1 ∷ order_2 ∷ []) 0 tree).1 ≡ true)
add-IsLinked_example =
    add-IsLinked 12 8 (order_1 ∷ order_2 ∷ []) 0 tree tree-IsLinked (ground arith, (refl, tt))
      (λ k h. ground arith)

remove-IsLinked_example : IsLinked (remove 10 tree).0 × ((remove 10 tree).1 ≡ true)
remove-IsLinked_example = remove-IsLinked 10 tree tree-IsLinked refl refl

walk-take_example : walk 3 tree ≡ 10 ∷ 11 ∷ []
walk-take_example = walk-take 3 tree (refl, (refl, tt)) refl
