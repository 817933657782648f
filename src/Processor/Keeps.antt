-- ===== src/Processor/Keeps.antt =====
-- Which calls of src/Processor.cpp leave the deferred events as they were.
use order_processor.Common.{◌≡◌, ◌≢◌, refl, ◌∙◌, Option, none, some, List, [], ◌∷◌, arith, ◌/◌}
use order_processor.Model.Ids.{IdT}
use order_processor.Store.Defs.{Address, locate_by_order_id}
use order_processor.Queues.Events as Q
use order_processor.Matching.Defs.{Deferred, TradeParams}
use order_processor.Machine.States.{Trigger, Event}
use order_processor.Machine.Dispatch.{Machine}
use order_processor.Processor.Desk.{
  Desk, Persistence, Fault, Step, ok, threw, set_persistance, event_of, process_event, save_state,
  initial_state, run_machine, ◌>>=◌,
}
use order_processor.Processor.Handlers.{
  located_at, when_valid, process_trigger, run_known, on_order, handle_event,
}
use order_processor.Processor.Operations.{order_of}
use order_processor.Processor.Deferred.{
  Total, no_total, count_trade, process_on, execute_trade, execute_base, execute_trades,
  execute_deferred,
}

-- What a step leaves, whether it throws or not.
abbrev pub left : Step → Desk
left (ok d) = d
left (threw x d) = d

-- A step leaves the deferred events of a desk as they were.
abbrev pub Keeps : Desk → Step → Type 0
Keeps d s = (left s).deferred ≡ d.deferred

save_state-Keeps : (d : Desk) → Keeps d (save_state d)
unfolding save_state
save_state-Keeps d = ground arith

pub save_state-state : (d d' : Desk) → save_state d ≢ threw Fault.events_waiting d'
unfolding save_state
save_state-state d d' e = ground arith

when_valid-Keeps : (k : IdT) (d : Desk) (s : Step) → Keeps d s → Keeps d (when_valid k d s)
when_valid-Keeps k d s h = ground (arith, h)

located-Keeps :
    (d : Desk) (f : Address → Step)
    → ((a : Address) → Keeps d (f a))
    → (r : Option Address) → Keeps d (elim r [ none ↦ threw Fault.unknown_order d | some a ↦ f a ])
located-Keeps d f h none = refl
located-Keeps d f h (some a) = h a

module _ (process : Event → Machine → Machine) where
  run_machine-Keeps :
      (s : Persistence) (t : Trigger) (d : Desk) → Keeps d (run_machine process s t d)
  unfolding run_machine set_persistance
  run_machine-Keeps s t d =
      save_state-Keeps (process_event process (event_of t) (set_persistance s d))

  run_known-Keeps :
      (t : Option Trigger) (a : Address) (d : Desk) → Keeps d (run_known process t a d)
  run_known-Keeps none a d = refl
  run_known-Keeps (some t) a d = run_machine-Keeps (d.states a) t d

  on_order-Keeps : (a : Address) (d : Desk) → Keeps d (on_order process a d)
  on_order-Keeps a d = ground (arith, run_machine-Keeps initial_state (Trigger.order_received a) d)

  -- The order that an id names gets an event.
  known-Keeps :
      (k : IdT) (t : Option Trigger) (d : Desk)
      → Keeps d (located_at k d (λ a. run_known process t a d))
  known-Keeps k t d =
      located-Keeps d (λ a. run_known process t a d) (λ a. run_known-Keeps t a d)
        (locate_by_order_id k d.machine.work.storage)

  pub handle_event-Keeps : (e : Q.Event) (d : Desk) → Keeps d (handle_event process e d)
  unfolding handle_event
  handle_event-Keeps (Q.order_event k a) d = on_order-Keeps a d
  handle_event-Keeps (Q.cancel_event k reason) d =
      when_valid-Keeps k d _ (known-Keeps k (some Trigger.cancel_received) d)
  handle_event-Keeps (Q.replace_event k none) d =
      when_valid-Keeps k d _ (known-Keeps k (some (Trigger.replace_received k)) d)
  handle_event-Keeps (Q.replace_event k (some a)) d =
      when_valid-Keeps k d _ (run_machine-Keeps initial_state (Trigger.rpl_order_received a) d)
  handle_event-Keeps (Q.change_state_event k Q.invalid_change) d = when_valid-Keeps k d _ refl
  handle_event-Keeps (Q.change_state_event k Q.suspend) d =
      when_valid-Keeps k d _ (known-Keeps k (some Trigger.suspended) d)
  handle_event-Keeps (Q.change_state_event k Q.resume) d =
      when_valid-Keeps k d _ (known-Keeps k (some Trigger.continue) d)
  handle_event-Keeps (Q.change_state_event k Q.finish) d =
      when_valid-Keeps k d _ (known-Keeps k (some Trigger.finished) d)
  handle_event-Keeps (Q.process_event k c) d = known-Keeps k (process_trigger k c) d
  handle_event-Keeps (Q.timer_event k Q.invalid_timer) d = when_valid-Keeps k d _ refl
  handle_event-Keeps (Q.timer_event k Q.expiration) d =
      when_valid-Keeps k d _ (known-Keeps k (some Trigger.expired) d)
  handle_event-Keeps (Q.timer_event k Q.day_end) d =
      when_valid-Keeps k d _ (known-Keeps k (some Trigger.new_day) d)
  handle_event-Keeps (Q.timer_event k Q.day_start) d =
      when_valid-Keeps k d _ (known-Keeps k (some Trigger.continue) d)

-- The deferred events that trade or cancel add none.
module _ (process : Event → Machine → Machine) where
  execute_trade-Keeps : (p : TradeParams) (d : Desk) → Keeps d (execute_trade process p d)
  unfolding execute_trade process_on
  execute_trade-Keeps p d = run_machine-Keeps process (d.states p.order) _ d

  execute_base-Keeps : (a : Address) (t : Total) (d : Desk) → Keeps d (execute_base process a t d)
  unfolding execute_base
  execute_base-Keeps a t d = ground (
    arith,
    execute_trade-Keeps (record { last_qty = t.qty; last_px = t.px / t.qty; order = a }) d,
  )

  >>=-Keeps :
      (d : Desk) (s : Step) (f : Desk → Step)
      → Keeps d s
      → ((d' : Desk) → Keeps d' (f d'))
      → Keeps d (s >>= f)
  >>=-Keeps d (ok d') f h k = k d' ∙ h
  >>=-Keeps d (threw x d') f h k = h

  execute_trades-Keeps :
      (a : Address) (ts : List TradeParams) (t : Total) (d : Desk)
      → Keeps d (execute_trades process a ts t d)
  unfolding execute_trades
  execute_trades-Keeps a [] t d = execute_base-Keeps a t d
  execute_trades-Keeps a (p ∷ ps) t d =
      >>=-Keeps d (execute_trade process p d) _ (execute_trade-Keeps p d)
        (λ d'. execute_trades-Keeps a ps (count_trade p (order_of p.order d).leaves_qty d' t) d')

  pub execution-Keeps :
      (a : Address) (ts : List TradeParams) (d : Desk)
      → Keeps d (execute_deferred process (Deferred.execution a ts) d)
  unfolding execute_deferred
  execution-Keeps a ts d = execute_trades-Keeps a ts no_total d

  pub cancel-Keeps :
      (a : Address) (d : Desk) → Keeps d (execute_deferred process (Deferred.cancel a) d)
  unfolding execute_deferred process_on
  cancel-Keeps a d = run_machine-Keeps process (d.states a) Trigger.internal_cancel d
