-- ===== src/Examples/Managers.antt =====
-- The theorems on the manager of transactions at two transactions that name the same order.
use order_processor.Common.{
  ℕ, suc, ◌≡◌, ◌≢◌, refl, true, false, ◌&&◌, List, [], ◌∷◌, arith, contains,
}
use order_processor.Model.Ids.{IdT, make_id, is_valid_id, get_id}
use order_processor.Acid.Objects.{Object, order_object, instrument_object}
use order_processor.Acid.Operation.{Operation, returned}
use order_processor.Acid.Scope.{Scope}
use order_processor.Acid.Related.{get_related_objects, note_operation}
use order_processor.Tree.Invariant.{IsLinked, uses}
use order_processor.Manager.Defs.{
  Manager, new_manager, attach, insert_transaction, add_transaction, remove_transaction,
}
use order_processor.Manager.Addition.{Added}
use order_processor.Manager.Schedule.{
  Reach, adds, observes, start, later, reached-disjoint, reached-Added,
}

abbrev count_up : Operation ℕ
count_up = record {
  object_id = make_id 1 1;
  related_id = make_id 2 1;
  execute = λ n. returned (suc n);
  rollback = λ n. returned n;
}

abbrev scope : Scope (Operation ℕ)
scope = record { operations = count_up ∷ []; boundaries = []; id = 0; arena_offset = 0 }

abbrev objects : List Object
objects =
    record { id = make_id 1 1; type = order_object }
    ∷ record { id = make_id 2 1; type = instrument_object }
    ∷ []

abbrev watched : Manager ℕ
watched = attach new_manager

abbrev busy : Manager ℕ
busy = insert_transaction 7 scope objects watched

busy-Reach : Reach busy
unfolding add_transaction get_related_objects note_operation is_valid_id
busy-Reach = later (later start (observes true)) (adds 7 scope (omega arith) refl)

reached-Added_example : Added 8 scope busy (insert_transaction 8 scope objects busy)
unfolding insert_transaction get_id note_operation is_valid_id
reached-Added_example =
    reached-Added 8 scope busy-Reach (omega arith)
      (unfold add_transaction get_related_objects in refl)

reached-disjoint_example :
    IsLinked busy.tree
    × ((o : Object) (j k : IdT)
        → contains j busy.tree.root ≡ true
        → contains k busy.tree.root ≡ true
        → j ≢ k
        → (uses busy.tree.keys j o && uses busy.tree.keys k o) ≡ false)
    × ((k : IdT) → contains k busy.tree.root ≡ true → (remove_transaction k busy).1 ≡ true)
reached-disjoint_example = reached-disjoint busy-Reach
