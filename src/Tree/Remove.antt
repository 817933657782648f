-- ===== src/Tree/Remove.antt =====
-- `remove` of `NLinkTree` in src/NLinkedTree.cpp.
use order_processor.Common.{
  ℕ, suc, Bool, true, false, not, ◌&&◌, Option, none, some, is_some, List, [], ◌∷◌, ◌++◌, ltb, ◌==◌,
  insert_key, erase_key, erase_first, update, if◌then◌else◌,
}
use order_processor.Model.Ids.{IdT}
use order_processor.Acid.Objects.{Object}
use order_processor.Tree.Defs.{Node, Tree, no_key, set_used, is_nil}

-- The element of the root's list before a key, for `current_`.
unfoldable pub previous : IdT → List IdT → Option IdT
previous key [] = none
previous key (x ∷ []) = none
previous key (x ∷ y ∷ ys) = if y == key then some x else previous key (y ∷ ys)

abbrev pub is_first : IdT → List IdT → Bool
is_first key [] = false
is_first key (x ∷ xs) = x == key

-- What becomes of `current_` when its node leaves the root's list.
unfoldable pub step_back : IdT → List IdT → Option IdT → Option IdT
unfolding previous
step_back key root none = none
step_back key root (some c) =
    if c == key
    then if is_first key root
      then none
      else if is_some (previous key root)
      then previous key root
      else some c
    else some c

-- The child and the parent of a key among the users of an object, `K()` where there is none.
abbrev pub first_or_none : List IdT → IdT
first_or_none [] = no_key
first_or_none (x ∷ xs) = x

unfoldable pub neighbours_after : IdT → IdT → List IdT → IdT × IdT
neighbours_after prev key [] = (no_key, no_key)
neighbours_after prev key (x ∷ xs) =
    if x == key then (first_or_none xs, prev) else neighbours_after x key xs

unfoldable pub neighbours : IdT → List IdT → IdT × IdT
unfolding neighbours_after
neighbours key used = neighbours_after no_key key used

-- `ChildElement` and its `operator<`.
pub record ChildElement : Type 0 where
  pub child : IdT
  pub parent : IdT

abbrev pub element_lt : ChildElement → ChildElement → Bool
element_lt l r = if l.child == r.child then ltb l.parent r.parent else ltb l.child r.child

-- `std::set<ChildElement>::insert`
unfoldable pub insert_element : ChildElement → List ChildElement → List ChildElement
insert_element e [] = e ∷ []
insert_element e (x ∷ xs) =
    if element_lt e x
    then e ∷ x ∷ xs
    else if element_lt x e
    then x ∷ insert_element e xs
    else x ∷ xs

abbrev pub note_element : IdT × IdT → List ChildElement → List ChildElement
note_element (child, parent) cs =
    if child == no_key && parent == no_key
    then cs
    else insert_element (record { child = child; parent = parent }) cs

-- The first loop of `remove`: over the objects of the transaction.
unfoldable pub unlink_objects :
    IdT
    → List Object
    → (Object → List IdT)
    → List ChildElement
    → (Object → List IdT) × List ChildElement
unfolding neighbours insert_element
unlink_objects key [] used cs = (used, cs)
unlink_objects key (o ∷ os) used cs =
    unlink_objects key os (set_used used o (erase_key key (used o)))
      (note_element (neighbours key (used o)) cs)

-- Whether the next element is of the same child.
abbrev pub more_of : IdT → List ChildElement → Bool
more_of child [] = false
more_of child (e ∷ es) = child == e.child

-- The parents of a child after one round of the loop.
abbrev pub new_parents : IdT → IdT → Bool → List IdT → List IdT
new_parents key parent has parents =
    if has then insert_key parent (erase_key key parents) else erase_key key parents

module _ {ℓ} {V : Type ℓ} where
  -- `K() != parentId_`, and the parent has a node.
  abbrev pub has_parent : IdT → (IdT → Option (Node V)) → Bool
  has_parent p keys = not (p == no_key) && is_some (keys p)

  abbrev pub drop_child : IdT → Option (Node V) → Option (Node V)
  drop_child key none = none
  drop_child key (some n) = some (record n { children = erase_key key n.children })

  -- `children_.erase` at the parent.
  unfoldable pub drop_from : IdT → IdT → (IdT → Option (Node V)) → IdT → Option (Node V)
  drop_from key p keys = if p == no_key then keys else update keys p (drop_child key (keys p))

  -- The child, given its node, whether the parent has one, and whether the next element is of the same
  -- child: the nodes, the root's list and the count.
  unfoldable pub relink_child :
      IdT
      → ChildElement
      → Bool
      → Bool
      → Option (Node V)
      → (IdT → Option (Node V)) × List IdT × ℕ
      → (IdT → Option (Node V)) × List IdT × ℕ
  relink_child key e has more none r = r
  relink_child key e has more (some c) (keys, root, ready) =
      let parents = new_parents key e.parent has c.parents in
      let keys' = update keys e.child (some (record c { parents = parents })) in
      let joins = not has && (is_nil parents && not more) in
      (keys', if joins then root ++ e.child ∷ [] else root, if joins then suc ready else ready)

  -- One round of the second loop of `remove`, before the elements `rest`.
  unfoldable pub relink_one :
      IdT
      → ChildElement
      → List ChildElement
      → (IdT → Option (Node V)) × List IdT × ℕ
      → (IdT → Option (Node V)) × List IdT × ℕ
  unfolding drop_from relink_child
  relink_one key e rest (keys, root, ready) =
      let keys' = drop_from key e.parent keys in
      if e.child == no_key
      then (keys', root, ready)
      else relink_child key e (has_parent e.parent keys) (more_of e.child rest) (keys' e.child)
          (keys', root, ready)

  unfoldable pub relink :
      IdT
      → List ChildElement
      → (IdT → Option (Node V)) × List IdT × ℕ
      → (IdT → Option (Node V)) × List IdT × ℕ
  unfolding relink_one
  relink key [] r = r
  relink key (e ∷ es) r = relink key es (relink_one key e es r)

  abbrev pub without_key : IdT → Tree V → Tree V
  without_key key t = record t { keys = update t.keys key none }

  -- The part of `remove` behind the root's list.
  unfoldable pub remove_links : IdT → Node V → Tree V → Tree V × Bool × ℕ
  unfolding unlink_objects relink
  remove_links key n t =
      let (used, cs) = unlink_objects key n.depends t.used_in [] in
      let (keys, root, ready) = relink key cs (t.keys, t.root, 0) in
      (record t { keys = keys; root = root; used_in = used }, true, ready)

  -- The root's list and `current_`, for a node without parents.
  abbrev pub leave_root : IdT → Tree V → Tree V
  leave_root key t = record t {
    root = erase_first key t.root;
    current = step_back key t.root t.current;
  }

  -- By the node's parents and the root's list.
  unfoldable pub remove_by : IdT → Node V → Tree V → List IdT → List IdT → Tree V × Bool × ℕ
  unfolding remove_links step_back
  remove_by key n t (p ∷ ps) root = remove_links key n (without_key key t)
  remove_by key n t [] [] = (without_key key t, false, 0)
  remove_by key n t [] (r ∷ rs) = remove_links key n (leave_root key (without_key key t))

  unfoldable pub remove_node : IdT → Node V → Tree V → Tree V × Bool × ℕ
  unfolding remove_by
  remove_node key n t = remove_by key n t n.parents t.root

  -- `remove`: whether the key was there, and `*readyToExecuteAdded`.
  unfoldable pub remove : IdT → Tree V → Tree V × Bool × ℕ
  unfolding remove_node
  remove key t = elim (t.keys key) [ none ↦ (t, false, 0) | some n ↦ remove_node key n t ]
