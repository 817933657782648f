-- ===== src/Machine/Context.antt =====
-- What the actions of src/OrderStateMachineImpl.cpp read and change: the order of the machine, the
-- storage, the order book, the generator, and the operations of the transaction.
use order_processor.Common.{ℕ, Option, none, some, List, [], ◌∷◌, ◌++◌, update}
use order_processor.Model.Ids.{IdT}
use order_processor.Model.Enums.{OrderStatus, ExecType, Currency}
use order_processor.Model.Order.{Order, Trade}
use order_processor.Store.Defs.{Address, Storage}
use order_processor.Book.Defs.{Book}
use order_processor.Machine.States.{Reason, Correction, Trigger, Event}

-- The operations of src/TrOperations.h with the references that they keep: an order is an address.
pub data Operation : Type 0 where
  match_order : Address → Operation
  add_to_order_book remove_from_order_book : Address → IdT → Operation
  exec_report : OrderStatus → ExecType → Address → Operation
  trade_report : Option Trade → OrderStatus → Address → Operation
  reject_report : Reason → OrderStatus → Address → Operation
  replace_report : IdT → OrderStatus → Address → Operation
  correct_report : Option Correction → OrderStatus → Address → Operation
  cancel_reject : OrderStatus → Address → Operation
  enqueue_event : Address → Trigger → Option IdT → Operation

-- What the classes derived from `ExecutionEntry` add: of a trade the quantity, the price and the
-- currency, and of a correction what an order takes over.
pub data Content : Type 0 where
  plain : Content
  traded : ℕ → ℕ → Currency → Content
  corrected : Correction → Content
  turned_down : Reason → Content
  replaced : IdT → Content

-- A stored execution.
pub record Execution : Type 0 where
  pub exec_id : IdT
  pub order_id : IdT
  pub type : ExecType
  pub status : OrderStatus
  pub content : Content

-- `order` is `orderData_`, null at first. `posted` holds the events that an action hands to the
-- machine while the machine is busy with another.
pub record Work : Type 0 where
  pub order : Option Address
  pub storage : Storage
  pub executions : IdT → Option Execution
  pub book : Book
  pub now : ℕ
  pub counter : ℕ
  pub operations : List Operation
  pub posted : List Event

-- The result of a call, and what a call that throws has changed by then.
pub data Done : Type 0 where
  ok : Work → Done
  threw : Work → Reason → Done

infixl 5 ◌>>=◌
abbrev pub ◌>>=◌ : Done → (Work → Done) → Done
ok w >>= f = f w
threw w x >>= f = threw w x

abbrev pub add_operation : Operation → Work → Work
add_operation op w = record w { operations = w.operations ++ op ∷ [] }

abbrev pub order_at : Address → Work → Order
order_at a w = w.storage.cells a

abbrev pub set_order : Address → Order → Work → Work
set_order a o w = record w { storage = record w.storage { cells = update w.storage.cells a o } }

abbrev pub set_status : OrderStatus → Address → Work → Work
set_status st a w = set_order a (record (order_at a w) { status = st }) w

-- A call on the order of the machine. A null pointer is not defined in the source; here it throws.
abbrev pub with_order : (Address → Work → Done) → Work → Done
with_order f w = elim w.order [ none ↦ threw w Reason.null_order | some a ↦ f a w ]
