-- ===== src/Processor/Handlers.antt =====
-- The handlers of the queued events in src/Processor.cpp. `n` bounds the rounds of the loop over the
-- deferred events.
use order_processor.Common.{ℕ, Option, none, some, [], ◌∷◌, if◌then◌else◌}
use order_processor.Model.Ids.{IdT, is_valid_id}
use order_processor.Store.Defs.{Address, locate_by_order_id}
use order_processor.Queues.Events as Q
use order_processor.Machine.States.{Trigger, Event}
use order_processor.Machine.Dispatch.{Machine}
use order_processor.Processor.Desk.{Desk, Fault, Step, threw, initial_state, run_machine}
use order_processor.Processor.Loop.{
  Processor, Run, returned, ◌then_run◌, on_desk, new_scope, enqueue_transaction,
  process_deferred_from, process_deferred,
}

-- The order that an id names, or the fault.
abbrev pub located_at : IdT → Desk → (Address → Step) → Step
located_at k d f = elim (locate_by_order_id k d.machine.work.storage) [
  | none ↦ threw Fault.unknown_order d
  | some a ↦ f a
]

abbrev pub when_valid : IdT → Desk → Step → Step
when_valid k d s = if is_valid_id k then s else threw Fault.invalid_id d

-- The event of the state machine for each type that a `switch` knows.
abbrev pub change_trigger : Q.StateChange → Option Trigger
change_trigger Q.suspend = some Trigger.suspended
change_trigger Q.resume = some Trigger.continue
change_trigger Q.finish = some Trigger.finished
change_trigger Q.invalid_change = none

abbrev pub process_trigger : IdT → Q.ProcessType → Option Trigger
process_trigger k Q.on_replace_received = some (Trigger.replace_received k)
process_trigger k Q.on_exec_replace = some (Trigger.exec_replace k)
process_trigger k Q.on_replace_rejected = some (Trigger.replace_rejected k)
process_trigger k Q.invalid_process = none

abbrev pub timer_trigger : Q.TimerType → Option Trigger
timer_trigger Q.expiration = some Trigger.expired
timer_trigger Q.day_end = some Trigger.new_day
timer_trigger Q.day_start = some Trigger.continue
timer_trigger Q.invalid_timer = none

module _ (process : Event → Machine → Machine) where
  -- An order that is stored gets an event.
  abbrev pub run_stored : Address → Trigger → Desk → Step
  run_stored a t d = run_machine process (d.states a) t d

  abbrev pub run_known : Option Trigger → Address → Desk → Step
  run_known none a d = threw Fault.unknown_type d
  run_known (some t) a d = run_stored a t d

  abbrev pub on_order : Address → Desk → Step
  on_order a d = elim d.deferred [
    | [] ↦ run_machine process initial_state (Trigger.order_received a) d
    | e ∷ es ↦ threw Fault.events_waiting d
  ]

  abbrev pub on_cancel : IdT → Desk → Step
  on_cancel k d = when_valid k d (located_at k d (λ a. run_stored a Trigger.cancel_received d))

  abbrev pub on_replace : IdT → Option Address → Desk → Step
  on_replace k (some a) d =
      when_valid k d (run_machine process initial_state (Trigger.rpl_order_received a) d)
  on_replace k none d =
      when_valid k d (located_at k d (λ a. run_stored a (Trigger.replace_received k) d))

  abbrev pub on_change_state : IdT → Q.StateChange → Desk → Step
  on_change_state k Q.invalid_change d = when_valid k d (threw Fault.invalid_change d)
  on_change_state k c d = when_valid k d (located_at k d (λ a. run_known (change_trigger c) a d))

  -- The id is not checked here, but an id that is not valid names no order.
  abbrev pub on_process : IdT → Q.ProcessType → Desk → Step
  on_process k c d = located_at k d (λ a. run_known (process_trigger k c) a d)

  abbrev pub on_timer : IdT → Q.TimerType → Desk → Step
  on_timer k Q.invalid_timer d = when_valid k d (threw Fault.invalid_change d)
  on_timer k c d = when_valid k d (located_at k d (λ a. run_known (timer_trigger c) a d))

  -- The part of `onEvent` before the transaction is handed over.
  unfoldable pub handle_event : Q.Event → Desk → Step
  unfolding run_machine locate_by_order_id is_valid_id
  handle_event (Q.order_event k a) d = on_order a d
  handle_event (Q.cancel_event k reason) d = on_cancel k d
  handle_event (Q.replace_event k replacement) d = on_replace k replacement d
  handle_event (Q.change_state_event k c) d = on_change_state k c d
  handle_event (Q.process_event k c) d = on_process k c d
  handle_event (Q.timer_event k c) d = on_timer k c d

  -- `onEvent`, for each kind of event.
  unfoldable pub on_event : ℕ → Q.Event → Processor → Run
  unfolding handle_event enqueue_transaction process_deferred_from
  on_event n e p =
      on_desk (handle_event e (new_scope p.desk)) p
      then_run enqueue_transaction
      then_run process_deferred process n

  -- `process`: the first event of the incoming queues, if there is one.
  unfoldable pub process_next : ℕ → Processor → Run
  unfolding on_event
  process_next n p = elim p.desk.incoming [
    | [] ↦ returned p
    | e ∷ es ↦ on_event n e.event (record p { desk = record p.desk { incoming = es } })
  ]
