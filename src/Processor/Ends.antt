-- ===== src/Processor/Ends.antt =====
-- How the calls of src/Processor.cpp end.
use order_processor.Common.{ℕ, ◌+◌, ◌^◌, ◌<◌, ◌≡◌, refl, Option, none, some, List, arith}
use order_processor.Model.Ids.{get_id}
use order_processor.Acid.Operation as Acid
use order_processor.Acid.Objects.{Object}
use order_processor.Acid.Related.{get_related_objects}
use order_processor.Acid.Scope.{Scope}
use order_processor.Manager.Defs.{Manager, insert_transaction, insert_related, add_transaction}
use order_processor.Processor.Operations.{release_scope}
use order_processor.Processor.Desk.{Desk}
use order_processor.Processor.Loop.{
  added_to, Processor, Run, returned, failed, unfinished, ◌then_run◌, enqueue_transaction,
}
use order_processor.Processor.Live.{Live, Runs}

-- A call that returns with a property, or throws.
abbrev pub Ends : (Processor → Type 0) → Run → Type 0
Ends P (returned p) = P p
Ends P (failed x p) = Unit {0}
Ends P unfinished = ⊥

pub Ends-then_run :
    (P Q : Processor → Type 0) (r : Run) (f : Processor → Run)
    → Ends P r
    → ((p : Processor) → P p → Ends Q (f p))
    → Ends Q (r then_run f)
Ends-then_run P Q (returned p) f h k = k p h
Ends-then_run P Q (failed x p) f h k = tt
Ends-then_run P Q unfinished f h k = absurd h

pub Ends-map :
    (P Q : Processor → Type 0) (r : Run) → Ends P r → ((p : Processor) → P p → Q p) → Ends Q r
Ends-map P Q (returned p) h k = k p h
Ends-map P Q (failed x p) h k = tt
Ends-map P Q unfinished h k = h

-- The counter of the generator moves on, and the transaction is in the manager.
added_to-Ends :
    (now : ℕ) (s : Scope (Acid.Operation Desk)) (m : Manager Desk) (p : Processor)
    (os : Option (List Object))
    → Live p.desk
    → m.counter ≡ p.desk.machine.work.counter
    → p.desk.machine.work.counter + 1 < 2 ^ 64
    → Ends
        (λ q. Runs 1 p.desk q.desk × (q.desk.machine.work.storage ≡ p.desk.machine.work.storage))
        (added_to p (insert_related now s m os))
unfolding insert_transaction get_id
added_to-Ends now s m p none v e c = tt
added_to-Ends now s m p (some os) v e c = (
  record {
    live = record {
      idle = v.idle;
      ids = λ k h. v.ids k (omega (arith, e));
      stored = v.stored;
      trading = v.trading;
    };
    by_id = refl;
    fresh = refl;
    counter = omega (arith, e);
    shrinks = λ b. omega arith;
    deferred = refl;
  },
  refl,
)

pub enqueue-Ends :
    (p : Processor)
    → Live p.desk
    → p.desk.machine.work.counter + 1 < 2 ^ 64
    → Ends
        (λ q. Runs 1 p.desk q.desk × (q.desk.machine.work.storage ≡ p.desk.machine.work.storage))
        (enqueue_transaction p)
unfolding enqueue_transaction add_transaction
enqueue-Ends p v c =
    added_to-Ends p.desk.machine.work.now (release_scope p.desk)
      (record p.manager { counter = p.desk.machine.work.counter }) p
      (get_related_objects (release_scope p.desk).operations) v refl c
