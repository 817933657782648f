-- ===== src/Processor/Desk.antt =====
-- What the calls of src/Processor.cpp work on, and its uses of the state machine.
use order_processor.Common.{ℕ, Option, none, some, List, false, true, update}
use order_processor.Model.Ids.{IdT}
use order_processor.Model.Order.{Text}
use order_processor.Store.Defs.{Address}
use order_processor.Book.Defs.{BookError}
use order_processor.Matching.Defs.{Deferred, MatchError}
use order_processor.Queues.Events.{QueuedEvent}
use order_processor.Machine.States.{State, Trigger, Event}
use order_processor.Machine.Context.{Work}
use order_processor.Machine.Dispatch.{Machine}

-- `OrderStatePersistence`
pub record Persistence : Type 0 where
  pub order : Option Address
  pub zone1 : State
  pub zone2 : State

-- An event in the outgoing queues, with its target: a report is named by the id of its execution.
pub data Sent : Type 0 where
  exec_report : IdT → Text → Sent
  cancel_reject : Text → Sent

-- `machine` is the state machine of the thread, whose work has the storage, the book and the clock, and
-- the operations of the transaction. `states` and `sources` are fields of the orders at their addresses.
-- `deferred` are the deferred events of the thread, and `counts` the counts that the matching operations
-- of the transaction that runs have kept, the last one first.
pub record Desk : Type 0 where
  pub machine : Machine
  pub states : Address → Persistence
  pub sources : Address → Text
  pub deferred : List Deferred
  pub counts : List ℕ
  pub incoming : List QueuedEvent
  pub outgoing : List Sent

-- Why a call throws. A null pointer that the source follows is `null_order` or `null_state`.
pub data Fault : Type 0 where
  null_order null_state events_waiting invalid_id unknown_order invalid_change unknown_type : Fault
  same_exec_id unsupported_report too_many_objects no_trade : Fault
  match_failed : MatchError → Fault
  book_failed : BookError → Fault

pub data Step : Type 0 where
  ok : Desk → Step
  threw : Fault → Desk → Step

infixl 5 ◌>>=◌
abbrev pub ◌>>=◌ : Step → (Desk → Step) → Step
ok d >>= f = f d
threw x d >>= f = threw x d

abbrev pub set_work : Work → Desk → Desk
set_work w d = record d { machine = record d.machine { work = w } }

-- `setPersistance` and `getPersistence`
unfoldable pub set_persistance : Persistence → Desk → Desk
set_persistance p d = record d {
  machine = record {
    zone1 = p.zone1;
    zone2 = p.zone2;
    work = record d.machine.work { order = p.order };
  };
}

unfoldable pub get_persistence : Desk → Persistence
get_persistence d = record {
  order = d.machine.work.order;
  zone1 = d.machine.zone1;
  zone2 = d.machine.zone2;
}

-- The state machine of a thread after its start.
abbrev pub initial_state : Persistence
initial_state = record { order = none; zone1 = State.rcvd_new; zone2 = State.no_cnl_replace }

-- `setStateMachinePersistance` of the order that the machine has.
unfoldable pub save_state : Desk → Step
unfolding get_persistence
save_state d = elim d.machine.work.order [
  | none ↦ threw Fault.null_state d
  | some a ↦ ok (record d { states = update d.states a (get_persistence d) })
]

abbrev pub event_of : Trigger → Event
event_of t = record { trigger = t; order_id = 0; test = false; check_result = true }

module _ (process : Event → Machine → Machine) where
  abbrev pub process_event : Event → Desk → Desk
  process_event e d = record d { machine = process e d.machine }

  -- The machine gets a state, then an event, and its state goes to its order.
  unfoldable pub run_machine : Persistence → Trigger → Desk → Step
  unfolding set_persistance save_state
  run_machine p t d = save_state (process_event (event_of t) (set_persistance p d))
