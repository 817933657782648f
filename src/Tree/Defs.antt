-- ===== src/Tree/Defs.antt =====
-- `NLinkTree` of src/NLinkedTree.h and src/NLinkedTree.cpp. A node is named by its key, and a pointer
-- to it is the key; keys are in use once. `V` is the type of the values. A lookup of a key gives the
-- key, whose node has the value. The log is left out.
use order_processor.Common.{
  ℕ, Bool, true, false, Option, none, some, is_some, List, [], ◌∷◌, ◌++◌, ite, insert_key, update,
  if◌then◌else◌,
}
use order_processor.Model.Ids.{IdT}
use order_processor.Acid.Objects.{Object, Object-discrete}

-- `KParam` and the `NTreeNode` that it points to.
pub record Node {ℓ} (V : Type ℓ) : Type ℓ where
  pub value : V
  pub depends : List Object
  pub parents : List IdT
  pub children : List IdT

-- `depends_[o]->usedIn_` is `used_in o`, which is empty where the map has no entry.
pub record Tree {ℓ} (V : Type ℓ) : Type ℓ where
  pub root : List IdT
  pub keys : IdT → Option (Node V)
  pub used_in : Object → List IdT
  pub current : Option IdT

-- `K()`
abbrev pub no_key : IdT
no_key = 0

abbrev pub set_used : (Object → List IdT) → Object → List IdT → Object → List IdT
set_used m o s p = ite (Object-discrete o p) s (m p)

-- `*usedIn_.rbegin()`
abbrev pub last : List IdT → Option IdT
last [] = none
last (x ∷ []) = some x
last (x ∷ y ∷ ys) = last (y ∷ ys)

abbrev pub insert_parent : Option IdT → List IdT → List IdT
insert_parent none parents = parents
insert_parent (some p) parents = insert_key p parents

-- The first loop of `add`: over the objects of the transaction.
unfoldable pub link_objects :
    IdT → List Object → (Object → List IdT) → List IdT → (Object → List IdT) × List IdT
link_objects key [] used parents = (used, parents)
link_objects key (o ∷ os) used parents =
    link_objects key os (set_used used o (insert_key key (used o)))
      (insert_parent (last (used o)) parents)

-- A node without parents goes to the end of the root's list.
abbrev pub push_root : IdT → List IdT → List IdT → List IdT
push_root key [] root = root ++ key ∷ []
push_root key (p ∷ ps) root = root

abbrev pub count_root : List IdT → ℕ
count_root [] = 1
count_root (p ∷ ps) = 0

abbrev pub is_nil : List IdT → Bool
is_nil [] = true
is_nil (x ∷ xs) = false

module _ {ℓ} {V : Type ℓ} where
  abbrev pub no_nodes : IdT → Option (Node V)
  no_nodes k = none

  abbrev pub empty : Tree V
  empty = record { root = []; keys = no_nodes; used_in = λ o. []; current = none }

  abbrev pub add_child : IdT → Node V → Node V
  add_child key n = record n { children = insert_key key n.children }

  -- The second loop of `add`: over the parent keys. The parents that have a node, and the nodes.
  unfoldable pub attach :
      IdT → List IdT → (IdT → Option (Node V)) → (IdT → Option (Node V)) × List IdT
  attach key [] keys = (keys, [])
  attach key (p ∷ ps) keys = elim (keys p) [
    | none ↦ attach key ps keys
    | some n ↦
        let (keys', parents) = attach key ps (update keys p (some (add_child key n))) in
        (keys', insert_key p parents)
  ]

  -- `add`: whether the key was added, and `*readyToExecuteAdded`, which a key that is there leaves.
  unfoldable pub add : IdT → V → List Object → ℕ → Tree V → Tree V × Bool × ℕ
  unfolding link_objects attach
  add key value depend ready t =
      let (used, parent_keys) = link_objects key depend t.used_in [] in
      let (keys, parents) = attach key parent_keys t.keys in
      let node : Node V = record {
        value = value;
        depends = depend;
        parents = parents;
        children = [];
      } in
      if is_some (t.keys key) then (t, false, ready) else (
        record t {
          root = push_root key parent_keys t.root;
          keys = update keys key (some node);
          used_in = used;
        },
        true,
        count_root parent_keys,
      )
