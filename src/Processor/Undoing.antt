-- ===== src/Processor/Undoing.antt =====
-- The matching operation of src/TrOperations.cpp in a transaction.
use order_processor.Common.{◌≡◌, refl, ap, List, [], ◌∷◌, ◌++◌, length, take}
use order_processor.Store.Defs.{Address}
use order_processor.Matching.Defs as Matching
use order_processor.Matching.Defs.{Deferred, match_order}
use order_processor.Acid.Operation.{returned}
use order_processor.Acid.Execution.{IsUndoable, Undoes}
use order_processor.Machine.Context.{Operation}
use order_processor.Processor.Desk.{Desk, Fault, ok, threw as step_threw}
use order_processor.Processor.Operations.{
  match_at, execute_match, roll_back_match, execute_operation, roll_back_operation, as_operation,
  outcome, add_deferred,
}

take-front : (xs ys : List Deferred) → take (length xs) (xs ++ ys) ≡ xs
take-front [] ys = refl
take-front (x ∷ xs) ys = ap (λ l. x ∷ l) (take-front xs ys)

take-all : (xs : List Deferred) → take (length xs) xs ≡ xs
take-all [] = refl
take-all (x ∷ xs) = ap (λ l. x ∷ l) (take-all xs)

module _ (made : Desk) (a : Address) where
  undone :
      (d : Desk) (r : Matching.Result (List Deferred))
      → let counted : Desk = record d { counts = length d.deferred ∷ d.counts } in
        Undoes (as_operation made (Operation.match_order a)) d (
          outcome (elim r [
            | Matching.err e ↦ step_threw (Fault.match_failed e) counted
            | Matching.ok es ↦ ok (add_deferred es counted)
          ]))
  unfolding as_operation roll_back_operation roll_back_match
  undone d (Matching.err e) = ap (λ l. returned (record d { deferred = l })) (take-all d.deferred)
  undone d (Matching.ok es) =
      ap (λ l. returned (record d { deferred = l })) (take-front d.deferred es)

  -- The rollback of a matching operation takes back what it did, also after it threw.
  pub match-IsUndoable : IsUndoable (as_operation made (Operation.match_order a))
  unfolding as_operation execute_operation execute_match match_at roll_back_operation
  match-IsUndoable = record {
    undoes = λ d. undone d (match_order a d.machine.work.storage d.machine.work.book);
  }
