-- ===== src/Manager/Defs.antt =====
-- `TransactionMgr` of src/TransactionMgr.cpp. `S` is the type of the state that the operations of the
-- transactions work on. The lock makes each call one step; its assertions are left out.
use order_processor.Common.{
  ℕ, suc, Bool, true, false, ◌&&◌, Option, none, some, List, ltb, if◌then◌else◌,
}
use order_processor.Model.Ids.{IdT, get_id, first_counter}
use order_processor.Acid.Objects.{Object}
use order_processor.Acid.Operation.{Operation}
use order_processor.Acid.Scope.{Scope}
use order_processor.Acid.Related.{get_related_objects}
use order_processor.Tree.Defs.{Tree, empty, add}
use order_processor.Tree.Remove.{remove}
use order_processor.Tree.Walk as Walk

-- `counter` is that of the generator of ids. `observed` is whether an observer is attached, and
-- `announced` counts its calls of `onReadyToExecute`.
pub record Manager {ℓ} (S : Type ℓ) : Type ℓ where
  pub tree : Tree (Scope (Operation S))
  pub counter : ℕ
  pub started : Bool
  pub observed : Bool
  pub announced : ℕ

module _ {ℓ} {S : Type ℓ} where
  -- A manager behind its constructor, with a new generator.
  abbrev pub new_manager : Manager S
  new_manager = record {
    tree = empty;
    counter = first_counter;
    started = false;
    observed = false;
    announced = 0;
  }

  abbrev pub init : Manager S → Manager S
  init m = record m { started = true }

  abbrev pub stop : Manager S → Manager S
  stop m = record m { started = false }

  abbrev pub attach : Manager S → Manager S
  attach m = record m { observed = true }

  abbrev pub detach : Manager S → Manager S
  detach m = record m { observed = false }

  -- The end of `addTransaction` and `removeTransaction`.
  abbrev pub announce : ℕ → Manager S → Manager S
  announce ready m = record m {
    announced = if ltb 0 ready && m.observed then suc m.announced else m.announced;
  }

  unfoldable pub insert_transaction : ℕ → Scope (Operation S) → List Object → Manager S → Manager S
  insert_transaction now s objects m =
      let (k, counter) = get_id now m.counter in
      let (tree, added, ready) = add k (record s { id = k }) objects 0 m.tree in
      announce ready (record m { tree = tree; counter = counter })

  abbrev pub insert_related :
      ℕ → Scope (Operation S) → Manager S → Option (List Object) → Option (Manager S)
  insert_related now s m none = none
  insert_related now s m (some objects) = some (insert_transaction now s objects m)

  -- `addTransaction`; `none` is the exception of `getRelatedObjects`, before anything has changed.
  unfoldable pub add_transaction : ℕ → Scope (Operation S) → Manager S → Option (Manager S)
  unfolding insert_transaction
  add_transaction now s m = insert_related now s m (get_related_objects s.operations)

  -- `removeTransaction`
  unfoldable pub remove_transaction : IdT → Manager S → Manager S × Bool
  remove_transaction k m =
      let (tree, removed, ready) = remove k m.tree in
      (announce ready (record m { tree = tree }), removed)

  -- `getParentTransactions` and `getRelatedTransactions`
  abbrev pub get_parent_transactions : IdT → Manager S → Option (List IdT)
  get_parent_transactions k m = Walk.get_parents k m.tree

  abbrev pub get_related_transactions : IdT → Manager S → Option (List IdT)
  get_related_transactions k m = Walk.get_children k m.tree

  -- `next`, `get` and `isValid`
  unfoldable pub next : Manager S → Option IdT × Manager S
  next m = let (k, tree) = Walk.next m.tree in (k, record m { tree = tree })

  abbrev pub get : Manager S → Option IdT
  get m = Walk.get_current m.tree

  abbrev pub is_valid : Manager S → Bool
  is_valid m = Walk.is_current_valid m.tree
