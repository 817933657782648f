-- ===== src/Processor/Endless.antt =====
-- A loop over the deferred events in src/Processor.cpp that does not end.
use order_processor.Common.{
  ℕ, zero, suc, ◌≡◌, refl, ap, ◌∙◌, false, some, List, [], ◌∷◌, ◌++◌, arith, ==-refl, update,
}
use mathlib.Core.List.{map}
use order_processor.Model.Order.{Trade}
use order_processor.Store.Defs.{Address}
use order_processor.Acid.Related.{get_related_objects}
use order_processor.Manager.Defs.{Manager, add_transaction, insert_transaction, insert_related}
use order_processor.Matching.Defs as Matching
use order_processor.Matching.Defs.{Deferred, TradeParams, match_order}
use order_processor.Machine.States.{Trigger, Event}
use order_processor.Machine.Trading.{react-inactive}
use order_processor.Machine.Standing.{is_active}
use order_processor.Machine.Dispatch.{
  Machine, in_zone1, in_zone2, both_zones, dispatch, dispatch_idle,
}
use order_processor.Processor.Desk.{
  Desk, Persistence, Fault, Step, ok, threw, process_event, ◌>>=◌, set_persistance, event_of,
  save_state, run_machine, set_work,
}
use order_processor.Processor.Operations.{
  order_of, match_at, release_scope, as_operation, add_deferred,
}
use order_processor.Processor.Deferred.{
  count_trade, execute_trades, execute_trade, execute_base, process_on, execute_deferred, no_total,
  trade_of,
}
use order_processor.Processor.Live.{save_state-at}
use order_processor.Processor.Loop.{
  Processor, returned, unfinished, ◌then_run◌, on_desk, after_batch, new_scope, added_to,
  enqueue_transaction, run_batch, on_deferred_event, clear_events, process_deferred_from,
}

-- The two events of a match that leaves something of the order open.
abbrev pub chain : Address → TradeParams → List Deferred
chain a t = Deferred.execution a (t ∷ []) ∷ Deferred.match_again a ∷ []

-- A transaction without operations is always taken.
enqueue-empty :
    (p : Processor)
    → p.desk.machine.work.operations ≡ []
    → (m : Manager Desk) × (enqueue_transaction p
        ≡ returned (record {
          desk = set_work (record p.desk.machine.work { counter = m.counter }) p.desk;
          manager = m;
        }))
unfolding enqueue_transaction add_transaction release_scope get_related_objects
enqueue-empty p h =
    let now = p.desk.machine.work.now in
    let s = release_scope p.desk in
    let m = record p.manager { counter = p.desk.machine.work.counter } in
    (
      insert_transaction now s [] m,
      ap
          (λ ops.
            added_to p
              (insert_related now s m (get_related_objects (map (as_operation p.desk) ops))))
          h,
    )

module _ (process : Event → Machine → Machine)
    (documented : (e : Event) (m : Machine) → process e m ≡ dispatch e m) where
  -- A trade changes nothing in a machine that is in no state for it.
  process-inactive :
      (u : Trade) (m : Machine)
      → is_active m.zone1 ≡ false
      → is_active m.zone2 ≡ false
      → m.work.posted ≡ []
      → process (event_of (Trigger.trade_execution (some u))) m ≡ m
  unfolding both_zones
  process-inactive u m h k i =
      let e = event_of (Trigger.trade_execution (some u)) in
      let q : both_zones e m ≡ m =
        ap (λ r. in_zone1 r e m) (react-inactive m.zone1 u m.work h)
        ∙ ap (λ r. in_zone2 r m) (react-inactive m.zone2 u m.work k) in
      documented e m ∙ dispatch_idle e m (ap (λ n. n.work.posted) q ∙ i) ∙ q

  module _ (a : Address) (t : TradeParams) (s : Persistence) (order : s.order ≡ some t.order)
      (out1 : is_active s.zone1 ≡ false) (out2 : is_active s.zone2 ≡ false) where
    -- The order at `a` meets the same order again and again, whose machine is in the state `s`.
    pub record Spins (d : Desk) : Type 0 where
      pub found : match_order a d.machine.work.storage d.machine.work.book ≡ Matching.ok (chain a t)
      pub state : d.states t.order ≡ s
      pub idle : d.machine.work.posted ≡ []

    -- The desk after the trade on the order that was found.
    refused : Desk → Desk
    refused d = record (set_persistance s d) { states = update d.states t.order s }

    execute_trade-refused : (d : Desk) → Spins d → execute_trade process t d ≡ ok (refused d)
    unfolding execute_trade process_on run_machine set_persistance save_state refused
    execute_trade-refused d v =
        let e = event_of (Trigger.trade_execution (some (trade_of t d))) in
        ap (λ z. save_state (process_event process e (set_persistance z d))) v.state
        ∙ ap (λ m. save_state (record (set_persistance s d) { machine = m }))
            (process-inactive (trade_of t d) (set_persistance s d).machine out1 out2 v.idle)
        ∙ save_state-at (set_persistance s d) t.order order

    refused-Spins : (d : Desk) → Spins d → Spins (refused d)
    unfolding refused set_persistance
    refused-Spins d v = record {
      found = v.found;
      state = ground (arith, ==-refl t.order);
      idle = v.idle;
    }

    -- The trade was not applied, so that there is none of the base order.
    uncounted :
        (d : Desk)
        → execute_base process a
            (count_trade t (order_of t.order d).leaves_qty (refused d) no_total)
            (refused d)
          ≡ ok (refused d)
    unfolding execute_base refused set_persistance
    uncounted d = ground arith

    execute-refused :
        (d : Desk) → Spins d → execute_trades process a (t ∷ []) no_total d ≡ ok (refused d)
    unfolding execute_trades refused set_persistance
    execute-refused d v =
        let n = (order_of t.order d).leaves_qty in
        ap (λ r. r >>= λ d'. execute_base process a (count_trade t n d' no_total) d')
          (execute_trade-refused d v)
        ∙ uncounted d

    scope-Spins : (d : Desk) → Spins d → Spins (new_scope d)
    scope-Spins d v = record { found = v.found; state = v.state; idle = v.idle }

    -- A call that leaves no operation, and the transaction after it.
    handed_over :
        (x : Step) (d : Desk) (p : Processor)
        → x ≡ ok d
        → d.machine.work.operations ≡ []
        → Spins d
        → (q : Processor) × (on_desk x p then_run enqueue_transaction ≡ returned q)
          × (q.desk.deferred ≡ d.deferred)
          × Spins q.desk
    handed_over x d p e h v =
        let (m, f) = enqueue-empty (record p { desk = d }) h in
        (
          record { desk = set_work (record d.machine.work { counter = m.counter }) d; manager = m },
          ap (λ y. on_desk y p then_run enqueue_transaction) e ∙ f,
          refl,
          record { found = v.found; state = v.state; idle = v.idle },
        )

    execution-Spins :
        (p : Processor)
        → Spins p.desk
        → (q : Processor) × (on_deferred_event process (Deferred.execution a (t ∷ [])) p
            ≡ returned q)
          × (q.desk.deferred ≡ p.desk.deferred)
          × Spins q.desk
    unfolding on_deferred_event execute_deferred refused set_persistance
    execution-Spins p v =
        let d = new_scope p.desk in
        handed_over (execute_trades process a (t ∷ []) no_total d) (refused d) p
          (execute-refused d (scope-Spins p.desk v)) refl (refused-Spins d (scope-Spins p.desk v))

    match-Spins :
        (p : Processor)
        → Spins p.desk
        → p.desk.deferred ≡ []
        → (q : Processor) × (on_deferred_event process (Deferred.match_again a) p ≡ returned q)
          × (q.desk.deferred ≡ chain a t)
          × Spins q.desk
    unfolding on_deferred_event execute_deferred match_at
    match-Spins p v h =
        let d = new_scope p.desk in
        let f : Matching.Result (List Deferred) → Step = λ r. elim r [
          | Matching.err e ↦ threw (Fault.match_failed e) d
          | Matching.ok es ↦ ok (add_deferred es d)
        ] in
        let (q, e, k, w) =
          handed_over (match_at a d) (add_deferred (chain a t) d) p (ap f v.found) refl
            (record { found = v.found; state = v.state; idle = v.idle }) in
        (q, e, k ∙ ap (λ es. es ++ chain a t) h, w)

    round-Spins :
        (p : Processor)
        → Spins p.desk
        → (q : Processor) × (run_batch process (chain a t) (clear_events p) ≡ returned q)
          × (q.desk.deferred ≡ chain a t)
          × Spins q.desk
    unfolding run_batch
    round-Spins p v =
        let (q, e, k, w) =
          execution-Spins (clear_events p)
            (record { found = v.found; state = v.state; idle = v.idle }) in
        let (q', e', k', w') = match-Spins q w k in
        (
          q',
          ap
                (λ r. r then_run λ x.
                  on_deferred_event process (Deferred.match_again a) x then_run λ y. returned y)
                e
              ∙ ap (λ r. r then_run λ y. returned y) e',
          k',
          w',
        )

    -- A match finds an order whose state machine has no row for a trade in either zone, while no event
    -- waits, and defers the trade and another match: then the loop over these two does not end,
    -- whatever number of rounds it is given. The dispatch of Boost MSM is that of its documentation.
    pub process_deferred-unfinished :
        (n : ℕ) (p : Processor)
        → Spins p.desk
        → process_deferred_from process n (chain a t) p ≡ unfinished
    unfolding process_deferred_from
    process_deferred-unfinished zero p v = refl
    process_deferred-unfinished (suc n) p v =
        let (q, e, k, w) = round-Spins p v in
        ap
          (λ r.
            after_batch process r then_run λ x. process_deferred_from process n x.desk.deferred x)
          e
        ∙ ap (λ es. process_deferred_from process n es q) k
        ∙ process_deferred-unfinished n q w
