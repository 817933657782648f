-- ===== src/Tree/Walk.antt =====
-- The walks over the root's list by `next` of `NLinkTree` in src/NLinkedTree.cpp, and its getters.
use order_processor.Common.{
  Bool, false, Option, none, some, List, [], ◌∷◌, ◌==◌, contains, if◌then◌else◌,
}
use order_processor.Model.Ids.{IdT}
use order_processor.Tree.Defs.{Tree, no_key}

abbrev pub first_key : List IdT → Option IdT
first_key [] = none
first_key (x ∷ xs) = some x

-- The element of the root's list behind a key.
unfoldable pub successor : IdT → List IdT → Option IdT
successor key [] = none
successor key (x ∷ xs) =
    let rest = successor key xs in
    if x == key then (elim xs [ [] ↦ none | y ∷ ys ↦ some y ]) else rest

module _ {ℓ} {V : Type ℓ} where
  -- `getParents` and `getChildren`
  unfoldable pub get_parents : IdT → Tree V → Option (List IdT)
  get_parents key t = elim (t.keys key) [ none ↦ none | some n ↦ some n.parents ]

  unfoldable pub get_children : IdT → Tree V → Option (List IdT)
  get_children key t = elim (t.keys key) [ none ↦ none | some n ↦ some n.children ]

  abbrev pub move_to : Tree V → Option IdT → Option IdT × Tree V
  move_to t none = (none, t)
  move_to t (some x) = (some x, record t { current = some x })

  -- `next(key, value)`: the key that `current_` moves to.
  unfoldable pub next : Tree V → Option IdT × Tree V
  unfolding successor
  next t = elim t.current [
    | none ↦ move_to t (first_key t.root)
    | some c ↦ move_to t (successor c t.root)
  ]

  -- `next(after, key, value)`, which leaves `current_` alone.
  unfoldable pub next_after : IdT → Tree V → Option IdT
  unfolding successor
  next_after after t = if after == no_key then first_key t.root else successor after t.root

  -- `current` and `isCurrentValid`
  unfoldable pub get_current : Tree V → Option IdT
  get_current t = elim t.current [
    | none ↦ none
    | some c ↦ if contains c t.root then some c else none
  ]

  unfoldable pub is_current_valid : Tree V → Bool
  is_current_valid t = elim t.current [ none ↦ false | some c ↦ contains c t.root ]
