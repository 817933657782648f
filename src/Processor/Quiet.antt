-- ===== src/Processor/Quiet.antt =====
-- No deferred event outlives a call of the processor in src/Processor.cpp.
use order_processor.Common.{
  is_some, Option-cases, inl, inr, ℕ, zero, suc, ◌≡◌, ◌≢◌, refl, sym, subst, ◌∙◌, Bool, true, false,
  Option, none, some, List, [], ◌∷◌, arith,
}
use order_processor.Model.Ids.{IdT}
use order_processor.Store.Defs.{Address}
use order_processor.Acid.Operation as Acid
use order_processor.Acid.Operation.{execute_transaction}
use order_processor.Acid.Scope.{Scope}
use order_processor.Queues.Events as Q
use order_processor.Matching.Defs.{Deferred}
use order_processor.Manager.Defs.{Manager}
use order_processor.Machine.States.{Trigger, Event}
use order_processor.Machine.Dispatch.{Machine}
use order_processor.Processor.Desk.{
  Desk, Fault, Step, ok, threw, set_persistance, event_of, process_event, initial_state,
  run_machine,
}
use order_processor.Processor.Loop.{
  Processor, Run, returned, failed, unfinished, ◌then_run◌, on_desk, added_to, enqueue_transaction,
  after_batch, run_batch, clear_events, process_deferred_from, process_deferred, finish_transaction,
  process_transaction, new_scope,
}
use order_processor.Processor.Handlers.{on_order, handle_event, on_event, process_next}
use order_processor.Processor.Keeps.{left, save_state-state, handle_event-Keeps}

-- A call: an event, the next event of the incoming queues, or a transaction of the manager, with a bound
-- on the rounds over the deferred events.
data Call : Type 0 where
  queued : ℕ → Q.Event → Call
  poll : ℕ → Call
  transaction : ℕ → Scope (Acid.Operation Desk) → Call

-- Whether a call returns or throws, no deferred event waits.
abbrev pub Quiet : Run → Type 0
Quiet (returned p) = p.desk.deferred ≡ []
Quiet (failed x p) = p.desk.deferred ≡ []
Quiet unfinished = Unit {0}

on_desk-Quiet : (s : Step) (p : Processor) → (left s).deferred ≡ [] → Quiet (on_desk s p)
on_desk-Quiet (ok d) p h = h
on_desk-Quiet (threw x d) p h = h

added_to-Quiet :
    (p : Processor) (m : Option (Manager Desk)) → p.desk.deferred ≡ [] → Quiet (added_to p m)
added_to-Quiet p none h = h
added_to-Quiet p (some m) h = h

enqueue-Quiet : (p : Processor) → p.desk.deferred ≡ [] → Quiet (enqueue_transaction p)
unfolding enqueue_transaction
enqueue-Quiet p h = added_to-Quiet p _ h

then_run-Quiet :
    (r : Run) (f : Processor → Run)
    → Quiet r
    → ((p : Processor) → p.desk.deferred ≡ [] → Quiet (f p))
    → Quiet (r then_run f)
then_run-Quiet (returned p) f h k = k p h
then_run-Quiet (failed x p) f h k = h
then_run-Quiet unfinished f h k = tt

module _ (process : Event → Machine → Machine) where
  after_batch-Quiet :
      (r : Run) (f : Processor → Run)
      → ((p : Processor) → Quiet (f p))
      → Quiet (after_batch process r then_run f)
  after_batch-Quiet (returned p) f k = k p
  after_batch-Quiet (failed x p) f k = refl
  after_batch-Quiet unfinished f k = tt

  pub rounds-Quiet :
      (n : ℕ) (es : List Deferred) (p : Processor)
      → es ≡ p.desk.deferred
      → Quiet (process_deferred_from process n es p)
  unfolding process_deferred_from
  rounds-Quiet n [] p h = sym h
  rounds-Quiet zero (e ∷ es) p h = tt
  rounds-Quiet (suc n) (e ∷ es) p h =
      after_batch-Quiet (run_batch process (e ∷ es) (clear_events p)) _
        λ p'. rounds-Quiet n p'.desk.deferred p' refl

  on_event-Quiet :
      (n : ℕ) (e : Q.Event) (p : Processor) → p.desk.deferred ≡ [] → Quiet (on_event process n e p)
  unfolding on_event
  on_event-Quiet n e p h =
      let d = new_scope p.desk in
      then_run-Quiet (on_desk (handle_event process e d) p then_run enqueue_transaction)
        (process_deferred process n)
        (then_run-Quiet (on_desk (handle_event process e d) p) enqueue_transaction
          (on_desk-Quiet (handle_event process e d) p (handle_event-Keeps process e d ∙ h))
          enqueue-Quiet)
        (λ q k. rounds-Quiet n q.desk.deferred q refl)

  finish-Quiet :
      (n : ℕ) (p : Processor) (r : Bool × Desk) → Quiet (finish_transaction process n p r)
  finish-Quiet n p (true, d) = rounds-Quiet n d.deferred (record p { desk = d }) refl
  finish-Quiet n p (false, d) = refl

  transaction-Quiet :
      (n : ℕ) (tr : Scope (Acid.Operation Desk)) (p : Processor)
      → Quiet (process_transaction process n tr p)
  unfolding process_transaction
  transaction-Quiet n tr p =
      finish-Quiet n p (execute_transaction tr.operations (record p.desk { counts = [] }))

  -- A processor gets calls, with the rounds that each may take, and goes on after an exception.
  abbrev go_on : Run → Option Processor
  go_on (returned p) = some p
  go_on (failed x p) = some p
  go_on unfinished = none

  abbrev serve : Call → Processor → Run
  serve (queued n e) p = on_event process n e p
  serve (poll n) p = process_next process n p
  serve (transaction n tr) p = process_transaction process n tr p

  serve_all : List Call → Processor → Option Processor
  serve_all [] p = some p
  serve_all (c ∷ cs) p = elim (go_on (serve c p)) [ none ↦ none | some p' ↦ serve_all cs p' ]

  next-Quiet :
      (n : ℕ) (p : Processor) (es : List Q.QueuedEvent)
      → p.desk.deferred ≡ []
      → Quiet (elim es [
        | [] ↦ returned p
        | e ∷ fs ↦ on_event process n e.event (record p { desk = record p.desk { incoming = fs } })
      ])
  next-Quiet n p [] h = h
  next-Quiet n p (e ∷ es) h =
      on_event-Quiet n e.event (record p { desk = record p.desk { incoming = es } }) h

  serve-Quiet : (c : Call) (p : Processor) → p.desk.deferred ≡ [] → Quiet (serve c p)
  unfolding process_next
  serve-Quiet (queued n e) p h = on_event-Quiet n e p h
  serve-Quiet (poll n) p h = next-Quiet n p p.desk.incoming h
  serve-Quiet (transaction n tr) p h = transaction-Quiet n tr p

  served-Quiet :
      (cs : List Call) (r : Run) {p' : Processor}
      → Quiet r
      → ((p : Processor) → p.desk.deferred ≡ [] → serve_all cs p ≡ some p' → p'.desk.deferred ≡ [])
      → (elim (go_on r) [ none ↦ none | some p ↦ serve_all cs p ]) ≡ some p'
      → p'.desk.deferred ≡ []
  served-Quiet cs (returned p) h k e = k p h e
  served-Quiet cs (failed x p) h k e = k p h e
  served-Quiet cs unfinished h k e = absurd (cc e)

  all-Quiet :
      (cs : List Call) (p : Processor) {p' : Processor}
      → p.desk.deferred ≡ []
      → serve_all cs p ≡ some p'
      → p'.desk.deferred ≡ []
  unfolding serve_all
  all-Quiet [] p {p' = p'} h e = let q : p ≡ p' = cc in subst (λ z. z.desk.deferred ≡ []) q h
  all-Quiet (c ∷ cs) p h e =
      served-Quiet cs (serve c p) (serve-Quiet c p h) (λ q k f. all-Quiet cs q k f) e

  not_waiting :
      (a : Address) (d d' : Desk)
      → d.deferred ≡ []
      → on_order process a d ≢ threw Fault.events_waiting d'
  unfolding run_machine
  not_waiting a d d' h e = ground (
    arith,
    save_state-state
        (process_event process (event_of (Trigger.order_received a))
          (set_persistance initial_state d))
        d',
  )

  -- Whatever events and transactions a processor gets that starts without a deferred event, and
  -- whatever exceptions they end with, provided that each of them ends within the rounds that it may
  -- take: after them no deferred event waits, and a new order is not refused because of such events.
  serve_all-Quiet :
      (cs : List Call) (p : Processor)
      → p.desk.deferred ≡ []
      → is_some (serve_all cs p) ≡ true
      → (p' : Processor) × (serve_all cs p ≡ some p')
        × (p'.desk.deferred ≡ [])
        × ((k : IdT) (a : Address) (d : Desk)
            → handle_event process (Q.order_event k a) (new_scope p'.desk)
              ≢ threw Fault.events_waiting d)
  unfolding handle_event
  serve_all-Quiet cs p h s = elim (Option-cases (serve_all cs p)) [
    | inl e ↦ absurd (cc)
    | inr (p', e) ↦
        let q = all-Quiet cs p h e in (p', e, q, λ k a d. not_waiting a (new_scope p'.desk) d q)
  ]
