-- ===== src/Machine/States.antt =====
-- The states of src/OrderStates.h with their names, and the events of src/OrderStateEvents.h.
use order_processor.Common.{ℕ, Bool, Option, List, [], ◌∷◌, get_elem?}
use order_processor.Model.Ids.{IdT}
use order_processor.Model.Enums.{Currency}
use order_processor.Model.Order.{Text, Trade}
use order_processor.Model.Validity.{Complaint}
use order_processor.Store.Defs.{Address, StoreError}
use order_processor.Book.Defs.{BookError}

pub data State : Type 0 where
  rcvd_new pend_new pend_replace new part_fill filled expired done_for_day suspended rejected :
      State
  no_cnl_replace going_cancel going_replace cncl_replaced : State

-- What is told to an exception; `told` is the reason of an event that comes from outside.
pub data Reason : Type 0 where
  told : Text → Reason
  invalid_order : Complaint → Reason
  store_failed : StoreError → Reason
  book_failed : BookError → Reason
  same_exec_id no_market no_original no_trade no_correction over_fill test_reject null_order :
      Reason

-- `ExecCorrectExecEntry`, the part that an order takes over.
pub record Correction : Type 0 where
  pub leaves_qty : ℕ
  pub cum_qty : ℕ
  pub currency : Currency

-- The types of the events that the table mentions.
pub data Kind : Type 0 where
  order_received recv_order_rejected rpl_order_received recv_rpl_order_rejected : Kind
  external_order external_order_rejected replace rpl_order_rejected rpl_order_expired : Kind
  trade_execution trade_crct_cncl order_rejected expired finished suspended new_day continue : Kind
  cancel_received replace_received internal_cancel cancel_rejected exec_cancel : Kind
  replace_rejected exec_replace : Kind

-- The events with what they carry. A trade or a correction is a pointer, which may be null.
pub data Trigger : Type 0 where
  order_received rpl_order_received external_order : Address → Trigger
  recv_order_rejected recv_rpl_order_rejected : Address → Reason → Trigger
  external_order_rejected : Address → Reason → Trigger
  replace : IdT → Trigger
  rpl_order_rejected order_rejected : Reason → Trigger
  rpl_order_expired expired finished suspended new_day continue : Trigger
  trade_execution : Option Trade → Trigger
  trade_crct_cncl : Option Correction → Trigger
  cancel_received internal_cancel cancel_rejected exec_cancel : Trigger
  replace_received replace_rejected : IdT → Trigger
  exec_replace : IdT → Trigger

abbrev pub kind : Trigger → Kind
kind (Trigger.order_received a) = Kind.order_received
kind (Trigger.rpl_order_received a) = Kind.rpl_order_received
kind (Trigger.external_order a) = Kind.external_order
kind (Trigger.recv_order_rejected a x) = Kind.recv_order_rejected
kind (Trigger.recv_rpl_order_rejected a x) = Kind.recv_rpl_order_rejected
kind (Trigger.external_order_rejected a x) = Kind.external_order_rejected
kind (Trigger.replace k) = Kind.replace
kind (Trigger.rpl_order_rejected x) = Kind.rpl_order_rejected
kind (Trigger.order_rejected x) = Kind.order_rejected
kind Trigger.rpl_order_expired = Kind.rpl_order_expired
kind Trigger.expired = Kind.expired
kind Trigger.finished = Kind.finished
kind Trigger.suspended = Kind.suspended
kind Trigger.new_day = Kind.new_day
kind Trigger.continue = Kind.continue
kind (Trigger.trade_execution t) = Kind.trade_execution
kind (Trigger.trade_crct_cncl c) = Kind.trade_crct_cncl
kind Trigger.cancel_received = Kind.cancel_received
kind Trigger.internal_cancel = Kind.internal_cancel
kind Trigger.cancel_rejected = Kind.cancel_rejected
kind Trigger.exec_cancel = Kind.exec_cancel
kind (Trigger.replace_received k) = Kind.replace_received
kind (Trigger.replace_rejected k) = Kind.replace_rejected
kind (Trigger.exec_replace k) = Kind.exec_replace

-- `OrderStateEvent`, whose two flags let a test run the table without an order, and the id of its
-- order, which the sender may leave at `IdT()`.
pub record Event : Type 0 where
  pub trigger : Trigger
  pub order_id : IdT
  pub test : Bool
  pub check_result : Bool

abbrev pub state_names : List State
state_names =
    State.rcvd_new ∷ State.pend_replace ∷ State.new ∷ State.part_fill ∷ State.filled ∷ State.expired
    ∷ State.done_for_day ∷ State.suspended ∷ State.no_cnl_replace ∷ State.going_cancel
    ∷ State.going_replace ∷ State.cncl_replaced ∷ State.rejected ∷ []

-- `getStateName`, for an index that is not negative: `none` is the exception. A name stands for
-- the state that it names.
unfoldable pub get_state_name : ℕ → Option State
get_state_name i = get_elem? state_names i
