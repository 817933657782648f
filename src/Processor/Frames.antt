-- ===== src/Processor/Frames.antt =====
-- The deferred events that wait play no part in what a deferred event of src/Processor.cpp does.
use order_processor.Common.{
  ◌≡◌, refl, ap, ◌∙◌, Option, none, some, List, [], ◌∷◌, ◌++◌, ltb, Bool-cases, inl, inr, ◌/◌,
  update,
}
use mathlib.Core.List.{append_assoc}
use order_processor.Store.Defs.{Address}
use order_processor.Matching.Defs as Matching
use order_processor.Matching.Defs.{Deferred, TradeParams, match_order}
use order_processor.Manager.Defs.{Manager}
use order_processor.Machine.States.{Event}
use order_processor.Machine.Dispatch.{Machine}
use order_processor.Processor.Desk.{
  Desk, Fault, Step, ok, threw, set_persistance, get_persistence, save_state, run_machine, ◌>>=◌,
}
use order_processor.Processor.Operations.{order_of, match_at, add_deferred}
use order_processor.Processor.Deferred.{
  Total, no_total, count_trade, process_on, execute_trade, execute_base, execute_trades,
  execute_deferred,
}
use order_processor.Processor.Loop.{
  Processor, Run, returned, failed, unfinished, ◌then_run◌, on_desk, added_to, new_scope,
  enqueue_transaction, on_deferred_event,
}

-- With these events in front of those that wait.
abbrev framed : List Deferred → Desk → Desk
framed xs d = record d { deferred = xs ++ d.deferred }

abbrev framed_step : List Deferred → Step → Step
framed_step xs (ok d) = ok (framed xs d)
framed_step xs (threw x d) = threw x (framed xs d)

abbrev pub framed_processor : List Deferred → Processor → Processor
framed_processor xs p = record p { desk = framed xs p.desk }

abbrev pub framed_run : List Deferred → Run → Run
framed_run xs (returned p) = returned (framed_processor xs p)
framed_run xs (failed x p) = failed x (framed_processor xs p)
framed_run xs unfinished = unfinished

save_state-framed :
    (xs : List Deferred) (d : Desk) → save_state (framed xs d) ≡ framed_step xs (save_state d)
unfolding save_state get_persistence
save_state-framed xs d = go d.machine.work.order
  where
    go :
        (o : Option Address)
        → elim o [
          | none ↦ threw Fault.null_state (framed xs d)
          | some a ↦
              ok (record (framed xs d) {
                states = update d.states a (get_persistence (framed xs d));
              })
        ]
          ≡ framed_step xs (elim o [
            | none ↦ threw Fault.null_state d
            | some a ↦ ok (record d { states = update d.states a (get_persistence d) })
          ])
    go none = refl
    go (some a) = refl

>>=-framed :
    (xs : List Deferred) (s : Step) (f : Desk → Step)
    → ((d : Desk) → f (framed xs d) ≡ framed_step xs (f d))
    → (framed_step xs s >>= f) ≡ framed_step xs (s >>= f)
>>=-framed xs (ok d) f h = h d
>>=-framed xs (threw x d) f h = refl

match_at-framed :
    (xs : List Deferred) (a : Address) (d : Desk)
    → match_at a (framed xs d) ≡ framed_step xs (match_at a d)
unfolding match_at
match_at-framed xs a d = go (match_order a d.machine.work.storage d.machine.work.book)
  where
    go :
        (r : Matching.Result (List Deferred))
        → elim r [
          | Matching.err e ↦ threw (Fault.match_failed e) (framed xs d)
          | Matching.ok es ↦ ok (add_deferred es (framed xs d))
        ]
          ≡ framed_step xs (elim r [
            | Matching.err e ↦ threw (Fault.match_failed e) d
            | Matching.ok es ↦ ok (add_deferred es d)
          ])
    go (Matching.err e) = refl
    go (Matching.ok es) = ap (λ l. ok (record d { deferred = l })) (append_assoc xs d.deferred es)

module _ (process : Event → Machine → Machine) (xs : List Deferred) where
  execute_trade-framed :
      (p : TradeParams) (d : Desk)
      → execute_trade process p (framed xs d) ≡ framed_step xs (execute_trade process p d)
  unfolding execute_trade process_on run_machine set_persistance
  execute_trade-framed p d = save_state-framed xs _

  execute_base-framed :
      (a : Address) (t : Total) (d : Desk)
      → execute_base process a t (framed xs d) ≡ framed_step xs (execute_base process a t d)
  unfolding execute_base
  execute_base-framed a t d = elim (Bool-cases (ltb 0 t.qty)) [
    | inl h ↦
        rw h
          (execute_trade-framed (record { last_qty = t.qty; last_px = t.px / t.qty; order = a }) d)
    | inr h ↦ rw h refl
  ]

  execute_trades-framed :
      (a : Address) (ts : List TradeParams) (t : Total) (d : Desk)
      → execute_trades process a ts t (framed xs d)
        ≡ framed_step xs (execute_trades process a ts t d)
  unfolding execute_trades
  execute_trades-framed a [] t d = execute_base-framed a t d
  execute_trades-framed a (p ∷ ps) t d =
      let f : Desk → Step =
        λ d'. execute_trades process a ps (count_trade p (order_of p.order d).leaves_qty d' t) d' in
      ap (λ s. s >>= f) (execute_trade-framed p d)
      ∙ >>=-framed xs (execute_trade process p d) f
          (λ d'. execute_trades-framed a ps (count_trade p (order_of p.order d).leaves_qty d' t) d')

  execute_deferred-framed :
      (e : Deferred) (d : Desk)
      → execute_deferred process e (framed xs d) ≡ framed_step xs (execute_deferred process e d)
  unfolding execute_deferred process_on run_machine set_persistance
  execute_deferred-framed (Deferred.execution a ts) d = execute_trades-framed a ts no_total d
  execute_deferred-framed (Deferred.match_again a) d = match_at-framed xs a d
  execute_deferred-framed (Deferred.cancel a) d = save_state-framed xs _

  added_to-framed :
      (p : Processor) (m : Option (Manager Desk))
      → added_to (framed_processor xs p) m ≡ framed_run xs (added_to p m)
  added_to-framed p none = refl
  added_to-framed p (some m) = refl

  enqueue-framed :
      (s : Step) (p : Processor)
      → (on_desk (framed_step xs s) (framed_processor xs p) then_run enqueue_transaction)
        ≡ framed_run xs (on_desk s p then_run enqueue_transaction)
  unfolding enqueue_transaction
  enqueue-framed (ok d) p = added_to-framed (record p { desk = d }) _
  enqueue-framed (threw x d) p = refl

  -- A deferred event does the same whatever events wait, and leaves those where they are.
  pub on_deferred_event-framed :
      (e : Deferred) (p : Processor)
      → on_deferred_event process e (framed_processor xs p)
        ≡ framed_run xs (on_deferred_event process e p)
  unfolding on_deferred_event
  on_deferred_event-framed e p =
      ap (λ s. on_desk s (framed_processor xs p) then_run enqueue_transaction)
        (execute_deferred-framed e (new_scope p.desk))
      ∙ enqueue-framed (execute_deferred process e (new_scope p.desk)) p
