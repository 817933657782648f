-- ===== src/Processor/Loop.antt =====
-- Transactions and the loop over the deferred events in src/Processor.cpp. A loop that does not end is
-- `unfinished` for every number of rounds.
use order_processor.Common.{ℕ, zero, suc, Bool, true, false, Option, none, some, List, [], ◌∷◌}
use order_processor.Acid.Operation.{execute_transaction}
use order_processor.Acid.Operation as Acid
use order_processor.Acid.Scope.{Scope}
use order_processor.Matching.Defs.{Deferred}
use order_processor.Machine.States.{Event}
use order_processor.Machine.Dispatch.{Machine}
use order_processor.Manager.Defs.{Manager, add_transaction}
use order_processor.Processor.Desk.{Desk, Fault, Step, ok, threw, set_work}
use order_processor.Processor.Operations.{release_scope}
use order_processor.Processor.Deferred.{execute_deferred}

pub record Processor : Type 0 where
  pub desk : Desk
  pub manager : Manager Desk

pub data Run : Type 0 where
  returned : Processor → Run
  failed : Fault → Processor → Run
  unfinished : Run

infixl 5 ◌then_run◌
abbrev pub ◌then_run◌ : Run → (Processor → Run) → Run
returned p then_run f = f p
failed x p then_run f = failed x p
unfinished then_run f = unfinished

-- A call on the processor's state.
abbrev pub on_desk : Step → Processor → Run
on_desk (ok d) p = returned (record p { desk = d })
on_desk (threw x d) p = failed x (record p { desk = d })

-- A new scope of the pool, for the operations of an event.
abbrev pub new_scope : Desk → Desk
new_scope d = set_work (record d.machine.work { operations = [] }) d

-- The generator is one for the manager and for the state machine.
abbrev pub added_to : Processor → Option (Manager Desk) → Run
added_to p none = failed Fault.too_many_objects p
added_to p (some m) = returned (record {
  desk = set_work (record p.desk.machine.work { counter = m.counter }) p.desk;
  manager = m;
})

-- `scope.release()` and `addTransaction`
unfoldable pub enqueue_transaction : Processor → Run
unfolding add_transaction release_scope
enqueue_transaction p = added_to p (
    add_transaction p.desk.machine.work.now (release_scope p.desk)
      (record p.manager { counter = p.desk.machine.work.counter }))

abbrev pub clear_deferred : Desk → Desk
clear_deferred d = record d { deferred = [] }

abbrev pub clear_events : Processor → Processor
clear_events p = record p { desk = clear_deferred p.desk }

module _ (process : Event → Machine → Machine) where
  -- `onEvent(DeferedEventBase *)`
  unfoldable pub on_deferred_event : Deferred → Processor → Run
  unfolding execute_deferred enqueue_transaction
  on_deferred_event e p =
      on_desk (execute_deferred process e (new_scope p.desk)) p then_run enqueue_transaction

  -- The `try` block of a round, and its handler, which forgets the events that were added by then.
  unfoldable pub run_batch : List Deferred → Processor → Run
  unfolding on_deferred_event
  run_batch [] p = returned p
  run_batch (e ∷ es) p = on_deferred_event e p then_run run_batch es

  abbrev pub after_batch : Run → Run
  after_batch (returned p) = returned p
  after_batch (failed x p) = failed x (clear_events p)
  after_batch unfinished = unfinished

  -- `processDeferedEvent`, with a number of rounds.
  unfoldable pub process_deferred_from : ℕ → List Deferred → Processor → Run
  unfolding run_batch
  process_deferred_from n [] p = returned p
  process_deferred_from zero (e ∷ es) p = unfinished
  process_deferred_from (suc n) (e ∷ es) p =
      after_batch (run_batch (e ∷ es) (clear_events p)) then_run λ p'.
      process_deferred_from n p'.desk.deferred p'

  abbrev pub process_deferred : ℕ → Processor → Run
  process_deferred n p = process_deferred_from n p.desk.deferred p

  -- `process(id, tr)`: a transaction that was taken from the manager is executed.
  abbrev pub finish_transaction : ℕ → Processor → Bool × Desk → Run
  finish_transaction n p (true, d) = process_deferred n (record p { desk = d })
  finish_transaction n p (false, d) = returned (record p { desk = clear_deferred d })

  unfoldable pub process_transaction : ℕ → Scope (Acid.Operation Desk) → Processor → Run
  unfolding execute_transaction process_deferred_from
  process_transaction n tr p =
      finish_transaction n p (execute_transaction tr.operations (record p.desk { counts = [] }))
