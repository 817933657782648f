-- ===== src/Processor/Reports.antt =====
-- The operations of src/TrOperations.cpp that report executions or push events.
use order_processor.Common.{if◌then◌else◌, Option, none, some, [], ◌∷◌, ◌++◌}
use order_processor.Model.Ids.{IdT}
use order_processor.Model.Enums.{OrderStatus, ExecType}
use order_processor.Model.Enums as E
use order_processor.Model.Order.{Text, Trade, add_execution}
use order_processor.Store.Defs.{Address, locate_by_order_id}
use order_processor.Queues.Events as Q
use order_processor.Machine.States.{Reason, Correction, Trigger}
use order_processor.Machine.Context.{Content, Execution, order_at, set_order}
use order_processor.Machine.Actions.{save_execution}
use order_processor.Processor.Desk.{Desk, Fault, Step, ok, threw, Sent, set_work}

-- An execution as the operations fill it, without an id.
abbrev pub new_execution : IdT → ExecType → OrderStatus → Content → Execution
new_execution k type st c = record {
  exec_id = 0;
  order_id = k;
  type = type;
  status = st;
  content = c;
}

-- The order at an address gets the execution, and its source the report.
unfoldable pub send_report : Execution → Address → Desk → Step
unfolding save_execution
send_report e a d =
    let (k, is_saved, w) = save_execution e d.machine.work in
    if is_saved
    then ok (record (set_work (set_order a (add_execution k (order_at a w)) w) d) {
      outgoing = d.outgoing ++ Sent.exec_report k (d.sources a) ∷ [];
    })
    else threw Fault.same_exec_id (set_work w d)

-- `processEvent_GenerateExecution`
unfoldable pub generate_execution : IdT → Execution → Desk → Step
unfolding send_report locate_by_order_id
generate_execution k e d = elim (locate_by_order_id k d.machine.work.storage) [
  | none ↦ threw Fault.null_order d
  | some a ↦ send_report e a d
]

-- `"_"`
abbrev pub internal_source : Text
internal_source = b'_' ∷ []

abbrev pub push_process_event : IdT → Q.ProcessType → Desk → Desk
push_process_event k type d = record d {
  incoming = d.incoming ++ record { source = internal_source; event = Q.process_event k type } ∷ [];
}

-- `executeEnqueueOrderEvent`, whose events have no `orderId_` of their own: it is `k`, and `IdT()` where
-- the state machine makes them. The rejection of a replacement is pushed without an id.
unfoldable pub enqueue_order_event : IdT → Trigger → Desk → Step
unfolding generate_execution
enqueue_order_event k (Trigger.replace_received repl) d =
    generate_execution k
      (new_execution k E.pend_replace_exec E.pending_replace (Content.replaced repl))
      (push_process_event repl Q.on_replace_received d)
enqueue_order_event k (Trigger.exec_replace repl) d =
    generate_execution k (new_execution k E.replace_exec E.replaced_status (Content.replaced repl))
      (push_process_event repl Q.on_exec_replace d)
enqueue_order_event k (Trigger.replace_rejected repl) d =
    generate_execution k
      (new_execution k E.replace_exec E.rejected_status (Content.turned_down (Reason.told [])))
      (push_process_event 0 Q.on_replace_rejected d)
enqueue_order_event k _ d = ok d

-- `CreateExecReportTrOperation::execute`
unfoldable pub create_exec_report : OrderStatus → ExecType → IdT → Desk → Step
unfolding generate_execution
create_exec_report st E.trade_exec k d = threw Fault.unsupported_report d
create_exec_report st E.reject_exec k d = threw Fault.unsupported_report d
create_exec_report st E.replace_exec k d = threw Fault.unsupported_report d
create_exec_report st E.invalid_exectype k d = threw Fault.unsupported_report d
create_exec_report st type k d = generate_execution k (new_execution k type st Content.plain) d

-- The other reports. A null trade or correction is followed when the operation is made.
unfoldable pub create_trade_report : Option Trade → OrderStatus → IdT → Desk → Step
unfolding generate_execution
create_trade_report none st k d = threw Fault.no_trade d
create_trade_report (some t) st k d =
    generate_execution k
      (new_execution k E.trade_exec st (Content.traded t.last_qty t.last_px t.currency)) d

unfoldable pub create_correct_report : Option Correction → OrderStatus → IdT → Desk → Step
unfolding generate_execution
create_correct_report none st k d = threw Fault.no_trade d
create_correct_report (some c) st k d =
    generate_execution k (new_execution k E.correct_exec st (Content.corrected c)) d

unfoldable pub create_reject_report : Reason → OrderStatus → IdT → Desk → Step
unfolding generate_execution
create_reject_report x st k d =
    generate_execution k (new_execution k E.reject_exec st (Content.turned_down x)) d

unfoldable pub create_replace_report : IdT → OrderStatus → IdT → Desk → Step
unfolding generate_execution
create_replace_report original st k d =
    generate_execution k (new_execution k E.replace_exec st (Content.replaced original)) d

-- `CancelRejectTrOperation::execute`, which has one target.
unfoldable pub reject_cancel : Desk → Step
reject_cancel d =
    ok (record d { outgoing = d.outgoing ++ Sent.cancel_reject (b't' ∷ b'g' ∷ b't' ∷ []) ∷ [] })
