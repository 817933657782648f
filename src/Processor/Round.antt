-- ===== src/Processor/Round.antt =====
-- A round of the loop over the deferred events in src/Processor.cpp, after a match that left something
-- of the order open.
use order_processor.Common.{
  ◌+◌, ◌^◌, ◌<◌, ◌≤◌, ◌≡◌, refl, sym, subst, ap, ◌∙◌, some, List, [], ◌∷◌, ◌++◌, arith,
}
use order_processor.Model.Ids.{IdT}
use order_processor.Store.Defs.{Address}
use order_processor.Processor.Operations.{match_at, add_deferred}
use order_processor.Matching.Defs as Matching
use order_processor.Matching.Defs.{TradeParams, Deferred, match_order}
use order_processor.Machine.States.{Event}
use order_processor.Machine.Dispatch.{Machine, dispatch}
use order_processor.Processor.Desk.{Desk, Fault, ok, threw}
use order_processor.Processor.Deferred.{execute_deferred}
use order_processor.Processor.Loop.{
  Processor, ◌then_run◌, on_desk, new_scope, enqueue_transaction, run_batch, on_deferred_event,
  clear_events,
}
use order_processor.Processor.Endless.{chain}
use order_processor.Processor.Live.{Live, Runs, Runs-trans}
use order_processor.Processor.Totals.{open_qty}
use order_processor.Processor.Follows.{Follows, match_order-Follows}
use order_processor.Processor.Ends.{Ends, Ends-then_run, Ends-map, enqueue-Ends}
use order_processor.Processor.Trades.{trades-Runs}

-- After the round of a match that leaves something of the order open.
pub record Round (c : Address) (d q : Desk) : Type 0 where
  pub live : Live q
  pub by_id : q.machine.work.storage.by_id ≡ d.machine.work.storage.by_id
  pub fresh : q.machine.work.storage.fresh ≡ d.machine.work.storage.fresh
  pub counter : q.machine.work.counter ≤ d.machine.work.counter + 4
  pub shrinks : (b : Address) → open_qty q b ≤ open_qty d b
  pub less : open_qty q c < open_qty d c
  pub follows : Follows q.machine.work.storage q.deferred

scope-Live : (d : Desk) → Live d → Live (new_scope d)
scope-Live d v = record { idle = v.idle; ids = v.ids; stored = v.stored; trading = v.trading }

-- The trade of the round.
Traded : Address → Desk → Processor → Type 0
Traded c d q = Runs 3 d q.desk × (open_qty q.desk c < open_qty d c)

scope-Traded :
    (c : Address) (d e : Desk) (q : Processor)
    → Runs 2 (new_scope d) e
    → open_qty e c < open_qty d c
    → Runs 1 e q.desk
    → Traded c d q
unfolding Traded
scope-Traded c d e q r s w =
    let v = Runs-trans 2 1 (new_scope d) e q.desk r w in
    (
      record {
        live = v.live;
        by_id = v.by_id;
        fresh = v.fresh;
        counter = v.counter;
        shrinks = v.shrinks;
        deferred = v.deferred;
      },
      omega (arith, w.shrinks c, s),
    )

-- What a match leaves to do.
Matched : Desk → Processor → Type 0
Matched d q =
    (es : List Deferred) × Runs 1 (record d { deferred = es }) q.desk
    × Follows q.desk.machine.work.storage es

scope-Matched :
    (d : Desk) (es : List Deferred) (q : Processor)
    → d.deferred ≡ []
    → Follows d.machine.work.storage es
    → Runs 1 (add_deferred es (new_scope d)) q.desk
    → q.desk.machine.work.storage ≡ d.machine.work.storage
    → Matched d q
unfolding Matched
scope-Matched d es q h f w e = (
  es,
  record {
    live = w.live;
    by_id = w.by_id;
    fresh = w.fresh;
    counter = w.counter;
    shrinks = w.shrinks;
    deferred = w.deferred ∙ ap (λ fs. fs ++ es) h;
  },
  subst (λ s. Follows s es) (sym e) f,
)

Matched-Ends :
    (p : Processor) (r : Matching.Result (List Deferred))
    → Live p.desk
    → ((es : List Deferred) → r ≡ Matching.ok es → Follows p.desk.machine.work.storage es)
    → p.desk.deferred ≡ []
    → p.desk.machine.work.counter + 1 < 2 ^ 64
    → Ends (Matched p.desk) (
        on_desk
          (elim r [
            | Matching.err e ↦ threw (Fault.match_failed e) (new_scope p.desk)
            | Matching.ok es ↦ ok (add_deferred es (new_scope p.desk))
          ])
          p
        then_run enqueue_transaction)
Matched-Ends p (Matching.err e) v f h c = tt
Matched-Ends p (Matching.ok es) v f h c =
    let d = add_deferred es (new_scope p.desk) in
    let l : Live d = record {
      idle = v.idle;
      ids = v.ids;
      stored = v.stored;
      trading = v.trading;
    } in
    Ends-map _ _ (enqueue_transaction (record p { desk = d }))
      (enqueue-Ends (record p { desk = d }) l c)
      (λ q w. scope-Matched p.desk es q h (f es refl) w.0 w.1)

module _ (process : Event → Machine → Machine)
    (documented : (e : Event) (m : Machine) → process e m ≡ dispatch e m) where
  execution-Ends :
      (j k : IdT) (a : Address) (t : TradeParams) (p : Processor)
      → Live p.desk
      → p.desk.machine.work.storage.by_id j ≡ some a
      → p.desk.machine.work.storage.by_id k ≡ some t.order
      → 0 < t.last_qty
      → t.last_qty ≡ open_qty p.desk t.order
      → t.last_qty < open_qty p.desk a
      → p.desk.machine.work.counter + 3 < 2 ^ 64
      → Ends (Traded t.order p.desk) (on_deferred_event process (Deferred.execution a (t ∷ [])) p)
  unfolding on_deferred_event execute_deferred Traded
  execution-Ends j k a t p v sa sc l q o c =
      let (d, e, r, s) =
        trades-Runs process documented j k a t (new_scope p.desk) (scope-Live p.desk v) sa sc l q o
          (omega arith) in
      subst (λ x. Ends (Traded t.order p.desk) (on_desk x p then_run enqueue_transaction)) (sym e)
        (Ends-map _ _ (enqueue_transaction (record p { desk = d }))
          (enqueue-Ends (record p { desk = d }) r.live (omega (arith, r.counter)))
          (λ q w. scope-Traded t.order p.desk d q r s w.0))

  match-Ends :
      (j : IdT) (a : Address) (p : Processor)
      → Live p.desk
      → p.desk.machine.work.storage.by_id j ≡ some a
      → p.desk.deferred ≡ []
      → p.desk.machine.work.counter + 1 < 2 ^ 64
      → Ends (Matched p.desk) (on_deferred_event process (Deferred.match_again a) p)
  unfolding on_deferred_event execute_deferred match_at
  match-Ends j a p v s h c =
      let w = p.desk.machine.work in
      Matched-Ends p (match_order a w.storage w.book) v
        (λ es e. match_order-Follows j a w.storage w.book s e) h c

  -- A round of a match that leaves something of the order open.
  pub Round-Ends :
      (j k : IdT) (a : Address) (t : TradeParams) (p : Processor)
      → Live p.desk
      → p.desk.machine.work.storage.by_id j ≡ some a
      → p.desk.machine.work.storage.by_id k ≡ some t.order
      → 0 < t.last_qty
      → t.last_qty ≡ open_qty p.desk t.order
      → t.last_qty < open_qty p.desk a
      → p.desk.machine.work.counter + 4 < 2 ^ 64
      → Ends (λ q. Round t.order p.desk q.desk) (run_batch process (chain a t) (clear_events p))
  unfolding run_batch Traded Matched
  Round-Ends j k a t p v sa sc l q o c =
      let p' = clear_events p in
      let v' : Live p'.desk = record {
        idle = v.idle;
        ids = v.ids;
        stored = v.stored;
        trading = v.trading;
      } in
      Ends-then_run (Traded t.order p'.desk) (λ q. Round t.order p.desk q.desk)
        (on_deferred_event process (Deferred.execution a (t ∷ [])) p') _
        (execution-Ends j k a t p' v' sa sc l q o (omega arith))
        λ p1 (r, s).
          Ends-then_run (Matched p1.desk) (λ q. Round t.order p.desk q.desk)
            (on_deferred_event process (Deferred.match_again a) p1) _
            (match-Ends j a p1 r.live (ap (λ m. m j) r.by_id ∙ sa) r.deferred
              (omega (arith, r.counter)))
            λ p2 (es, w, f). record {
              live = w.live;
              by_id = w.by_id ∙ r.by_id;
              fresh = w.fresh ∙ r.fresh;
              counter = omega (arith, w.counter, r.counter);
              shrinks = λ b. omega (arith, w.shrinks b, r.shrinks b);
              less = omega (arith, w.shrinks t.order, s);
              follows = subst (Follows p2.desk.machine.work.storage) (sym w.deferred) f;
            }
