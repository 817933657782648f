-- ===== src/Machine/Entries.antt =====
-- The entry actions of the states, src/OrderStates.cpp: each sets the status of the order and adds one
-- report to the transaction.
use order_processor.Common.{[], if◌then◌else◌}
use order_processor.Model.Ids.{IdT}
use order_processor.Model.Enums as E
use order_processor.Store.Defs.{Address}
use order_processor.Machine.States.{Reason, State, Trigger, Event}
use order_processor.Machine.Context.{
  Operation, Work, Done, ok, add_operation, order_at, set_status, with_order,
}

-- The status, and an operation about the order.
abbrev pub report : E.OrderStatus → (Address → Operation) → Work → Done
report st op = with_order (λ a w. ok (add_operation (op a) (set_status st a w)))

-- The status stays, and stands in the operation.
abbrev pub report_current : (E.OrderStatus → Address → Operation) → Work → Done
report_current op = with_order (λ a w. ok (add_operation (op (order_at a w).status a) w))

abbrev pub no_reason : Reason
no_reason = Reason.told []

abbrev pub executed : E.OrderStatus → E.ExecType → Work → Done
executed st type = report st (Operation.exec_report st type)

abbrev pub turned_down : Reason → Work → Done
turned_down x = report E.rejected_status (Operation.reject_report x E.rejected_status)

-- `GoingCancel`, `GoingReplace` and `NoCnlReplace`.
unfoldable pub enter_pending : State → IdT → Trigger → Work → Done
enter_pending State.going_cancel k Trigger.cancel_received w =
    report_current (λ st a. Operation.exec_report st E.pend_cancel_exec a) w
enter_pending State.going_replace k (Trigger.replace_received j) w =
    report_current (λ st a. Operation.exec_report st E.pend_replace_exec a) w
enter_pending State.no_cnl_replace k Trigger.cancel_rejected w =
    report_current Operation.cancel_reject w
enter_pending State.no_cnl_replace k (Trigger.replace_rejected j) w =
    report_current Operation.cancel_reject w
enter_pending s k t w = ok w

-- A corrected trade in the states that are not traded.
unfoldable pub enter_corrected : State → IdT → Trigger → Work → Done
unfolding enter_pending
enter_corrected State.expired k (Trigger.trade_crct_cncl c) w =
    report E.expired_status (Operation.correct_report c E.expired_status) w
enter_corrected State.suspended k (Trigger.trade_crct_cncl c) w =
    report E.suspended_status (Operation.correct_report c E.suspended_status) w
enter_corrected State.done_for_day k (Trigger.trade_crct_cncl c) w =
    report E.dfd_status (Operation.correct_report c E.dfd_status) w
enter_corrected s k t w = enter_pending s k t w

-- `PartFill` and `Filled`, and `New` after a correction.
unfoldable pub enter_traded : State → IdT → Trigger → Work → Done
unfolding enter_corrected
enter_traded State.new k (Trigger.trade_crct_cncl c) w =
    report E.new_status (Operation.correct_report c E.new_status) w
enter_traded State.part_fill k (Trigger.trade_execution t) w =
    report E.part_fill (Operation.trade_report t E.part_fill) w
enter_traded State.part_fill k (Trigger.trade_crct_cncl c) w =
    report E.part_fill (Operation.correct_report c E.part_fill) w
enter_traded State.part_fill k Trigger.new_day w = executed E.part_fill E.restated_exec w
enter_traded State.part_fill k Trigger.continue w = executed E.part_fill E.restated_exec w
enter_traded State.filled k (Trigger.trade_execution t) w =
    report E.filled_status (Operation.trade_report t E.filled_status) w
enter_traded s k t w = enter_corrected s k t w

-- `Expired`, `CnclReplaced`, `Suspended` and `DoneForDay`.
unfoldable pub enter_ended : State → IdT → Trigger → Work → Done
unfolding enter_traded
enter_ended State.expired k Trigger.expired w = executed E.expired_status E.expired_exec w
enter_ended State.expired k Trigger.rpl_order_expired w = executed E.expired_status E.expired_exec w
enter_ended State.cncl_replaced k Trigger.exec_cancel w = executed E.canceled_status E.cancel_exec w
enter_ended State.cncl_replaced k Trigger.internal_cancel w =
    executed E.canceled_status E.cancel_exec w
enter_ended State.cncl_replaced k (Trigger.exec_replace j) w =
    report E.replaced_status (Operation.replace_report k E.replaced_status) w
enter_ended State.suspended k Trigger.suspended w = executed E.suspended_status E.suspended_exec w
enter_ended State.done_for_day k Trigger.finished w = executed E.dfd_status E.dfd_exec w
enter_ended s k t w = enter_traded s k t w

-- `New`
unfoldable pub enter_new : State → IdT → Trigger → Work → Done
unfolding enter_ended
enter_new State.new k (Trigger.external_order a) w = executed E.new_status E.new_exec w
enter_new State.new k (Trigger.order_received a) w = executed E.new_status E.new_exec w
enter_new State.new k (Trigger.replace j) w =
    report E.new_status (Operation.replace_report j E.new_status) w
enter_new State.new k Trigger.new_day w = executed E.new_status E.new_exec w
enter_new State.new k Trigger.continue w = executed E.new_status E.new_exec w
enter_new s k t w = enter_ended s k t w

-- `Rejected`
unfoldable pub enter_rejected : State → IdT → Trigger → Work → Done
unfolding enter_new
enter_rejected State.rejected k (Trigger.replace j) w = turned_down no_reason w
enter_rejected State.rejected k (Trigger.recv_order_rejected a x) w = turned_down x w
enter_rejected State.rejected k (Trigger.recv_rpl_order_rejected a x) w = turned_down x w
enter_rejected State.rejected k (Trigger.external_order_rejected a x) w = turned_down x w
enter_rejected State.rejected k (Trigger.order_rejected x) w = turned_down x w
enter_rejected State.rejected k (Trigger.rpl_order_rejected x) w = turned_down x w
enter_rejected State.rejected k (Trigger.external_order a) w = turned_down no_reason w
enter_rejected s k t w = enter_new s k t w

-- What `on_entry` of a state does for an event; the overloads for any event do nothing.
unfoldable pub enter_state : State → IdT → Trigger → Work → Done
unfolding enter_rejected
enter_state s k t w = enter_rejected s k t w

-- A test of the table does nothing on entry.
unfoldable pub on_entry : State → Event → Work → Done
unfolding enter_state
on_entry s e w = if e.test then ok w else enter_state s e.order_id e.trigger w
