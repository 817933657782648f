-- ===== src/Processor/Rounds.antt =====
-- The loop over the deferred events in src/Processor.cpp ends where the stored orders can be traded.
use order_processor.Common.{
  ℕ, zero, suc, ◌+◌, ◌*◌, ◌^◌, ◌<◌, ◌≡◌, refl, sym, subst, Option, none, some, List, [], ◌∷◌, arith,
}
use order_processor.Model.Ids.{IdT}
use order_processor.Store.Defs.{Address}
use order_processor.Manager.Defs.{Manager}
use order_processor.Matching.Defs as Matching
use order_processor.Matching.Defs.{TradeParams, Deferred, match_order}
use order_processor.Machine.States.{Event}
use order_processor.Machine.Dispatch.{Machine, dispatch}
use order_processor.Processor.Desk.{Desk, Step, ok, threw}
use order_processor.Processor.Deferred.{execute_deferred}
use order_processor.Processor.Loop.{
  added_to, Processor, Run, returned, failed, unfinished, ◌then_run◌, on_desk, new_scope,
  enqueue_transaction, run_batch, on_deferred_event, after_batch, clear_events,
  process_deferred_from, process_deferred,
}
use order_processor.Processor.Endless.{chain}
use order_processor.Processor.Live.{Live}
use order_processor.Processor.Totals.{open_qty, total, total-lt}
use order_processor.Processor.Follows.{
  Follows, nothing, cancels, ends, goes_on, match_order-Follows,
}
use order_processor.Processor.Ends.{Ends, Ends-then_run}
use order_processor.Processor.Round.{Round, Round-Ends}
use order_processor.Processor.Keeps.{left, Keeps, execution-Keeps, cancel-Keeps}

-- No deferred event waits.
abbrev pub AllDone : Processor → Type 0
AllDone q = q.desk.deferred ≡ []

added_to-AllDone :
    (p : Processor) (m : Option (Manager Desk)) → AllDone p → Ends AllDone (added_to p m)
added_to-AllDone p none h = tt
added_to-AllDone p (some m) h = h

step-AllDone :
    (s : Step) (p : Processor)
    → (left s).deferred ≡ []
    → Ends AllDone (on_desk s p then_run enqueue_transaction)
unfolding enqueue_transaction
step-AllDone (threw x d) p h = tt
step-AllDone (ok d) p h = added_to-AllDone (record p { desk = d }) _ h

module _ (process : Event → Machine → Machine) where
  -- An event that adds none is the last one.
  single-AllDone :
      (e : Deferred) (p : Processor)
      → Keeps
          (new_scope (clear_events p).desk)
          (execute_deferred process e (new_scope (clear_events p).desk))
      → Ends AllDone (run_batch process (e ∷ []) (clear_events p))
  unfolding run_batch on_deferred_event
  single-AllDone e p h =
      Ends-then_run AllDone AllDone (on_deferred_event process e (clear_events p)) _
        (step-AllDone (execute_deferred process e (new_scope (clear_events p).desk))
          (clear_events p) h)
        λ q k. k

  after_batch-Ends :
      (P Q : Processor → Type 0) (r : Run) (f : Processor → Run)
      → Ends P r
      → ((p : Processor) → P p → Ends Q (f p))
      → Ends Q (after_batch process r then_run f)
  after_batch-Ends P Q (returned p) f h k = k p h
  after_batch-Ends P Q (failed x p) f h k = tt
  after_batch-Ends P Q unfinished f h k = absurd h

  stop-AllDone :
      (n : ℕ) (q : Processor) (es : List Deferred)
      → es ≡ []
      → AllDone q
      → Ends AllDone (process_deferred_from process n es q)
  unfolding process_deferred_from
  stop-AllDone n q es e h =
      subst (λ es. Ends AllDone (process_deferred_from process n es q)) (sym e) h

  last-AllDone :
      (n : ℕ) (e : Deferred) (p : Processor)
      → ((d : Desk) → Keeps d (execute_deferred process e d))
      → Ends AllDone (process_deferred_from process (suc n) (e ∷ []) p)
  unfolding process_deferred_from
  last-AllDone n e p h =
      after_batch-Ends AllDone AllDone (run_batch process (e ∷ []) (clear_events p)) _
        (single-AllDone e p (h (new_scope (clear_events p).desk)))
        (λ q k. stop-AllDone n q q.desk.deferred k k)

module _ (process : Event → Machine → Machine)
    (documented : (e : Event) (m : Machine) → process e m ≡ dispatch e m) where
  -- What is left of all the orders.
  abbrev measure : Desk → ℕ
  measure d = total d.machine.work.storage.fresh (open_qty d)

  measure-Round :
      (k : IdT) (c : Address) (d q : Desk)
      → Live d
      → d.machine.work.storage.by_id k ≡ some c
      → Round c d q
      → measure q < measure d
  measure-Round k c d q v s r =
      subst (λ n. total n (open_qty q) < measure d) (sym r.fresh)
        (total-lt d.machine.work.storage.fresh (open_qty q) (open_qty d) c r.shrinks
          (v.stored k c s) r.less)

  rounds-AllDone :
      (n : ℕ) (es : List Deferred) (p : Processor)
      → Live p.desk
      → Follows p.desk.machine.work.storage es
      → p.desk.deferred ≡ es
      → measure p.desk < n
      → p.desk.machine.work.counter + 4 * n < 2 ^ 64
      → Ends AllDone (process_deferred_from process n es p)
  unfolding process_deferred_from
  rounds-AllDone zero es p v f h l c = absurd (omega (arith, l))
  rounds-AllDone (suc n) _ p v nothing h l c = h
  rounds-AllDone (suc n) _ p v (cancels a) h l c =
      last-AllDone process n (Deferred.cancel a) p (cancel-Keeps process a)
  rounds-AllDone (suc n) _ p v (ends a t) h l c =
      last-AllDone process n (Deferred.execution a (t ∷ [])) p (execution-Keeps process a (t ∷ []))
  rounds-AllDone (suc n) _ p v (goes_on j k a t sa sc x q o) h l c =
      after_batch-Ends process (λ q. Round t.order p.desk q.desk) AllDone
        (run_batch process (chain a t) (clear_events p)) _
        (Round-Ends process documented j k a t p v sa sc x q o (omega arith))
        (λ p' r.
          rounds-AllDone n p'.desk.deferred p' r.live r.follows refl
            (omega (arith, measure-Round k t.order p.desk p'.desk v sc r))
            (omega (arith, r.counter)))

  -- The deferred events of a match of a stored order are dealt with in a number of rounds: after them no
  -- deferred event waits, unless a call throws, and the loop does not go on. The conditions: the state
  -- machine does what Boost MSM documents of the table, the stored orders are at addresses that were
  -- given out, each of them with something left is in the state New or PartFill without a change
  -- under way, the machine has no posted event, and no execution has an id that is still to come. What is
  -- left of all the orders is below the number of rounds, and the generator has ids for that many.
  pub process_deferred-AllDone :
      (j : IdT) (a : Address) (n : ℕ) (p : Processor)
      → Live p.desk
      → p.desk.machine.work.storage.by_id j ≡ some a
      → match_order a p.desk.machine.work.storage p.desk.machine.work.book
        ≡ Matching.ok p.desk.deferred
      → total p.desk.machine.work.storage.fresh (open_qty p.desk) < n
      → p.desk.machine.work.counter + 4 * n < 2 ^ 64
      → Ends AllDone (process_deferred process n p)
  process_deferred-AllDone j a n p v s m l c =
      let w = p.desk.machine.work in
      rounds-AllDone n p.desk.deferred p v (match_order-Follows j a w.storage w.book s m) refl l c
