-- ===== src/Machine/Handlers.antt =====
-- The actions and the guards of `OrderState_`, src/StateMachine.cpp.
use order_processor.Common.{◌==◌, ltb, if◌then◌else◌, Bool, true, Option, none, some, [], ◌∷◌, ◌++◌}
use order_processor.Model.Order.{Order, Trade}
use order_processor.Machine.States.{Trigger, Event, Reason, Correction}
use order_processor.Machine.Context.{Work, Done, ok, threw, order_at, with_order}
use order_processor.Machine.Actions as A
use order_processor.Machine.Table.{Action, Guard}

abbrev pub on_trade : (Trade → Work → Done) → Option Trade → Work → Done
on_trade f none w = threw w Reason.no_trade
on_trade f (some t) w = f t w

abbrev pub on_correction : (Correction → Work → Done) → Option Correction → Work → Done
on_correction f none w = threw w Reason.no_correction
on_correction f (some c) w = f c w

-- The handler of an exception hands the machine another event, and throws again.
abbrev pub post : Event → Trigger → Work → Work
post e t w = record w { posted = w.posted ++ record e { trigger = t } ∷ [] }

abbrev pub catching : Event → (Reason → Trigger) → Done → Done
catching e t (ok w) = ok w
catching e t (threw w x) = threw (post e (t x) w) x

-- The overloads of the actions, as they follow one another in the source. The table pairs no action with
-- an event that it has no overload for.
unfoldable pub act_last : Action → Trigger → Work → Done
act_last Action.reject (Trigger.rpl_order_rejected x) w = with_order A.give_up_replacement w
act_last Action.reject_new (Trigger.order_rejected x) w = with_order A.reject_new w
act_last Action.reject (Trigger.recv_order_rejected a x) w = A.reject_received a w
act_last Action.fill (Trigger.trade_execution t) w = on_trade (λ u. with_order (A.fill u)) t w
act_last Action.reject (Trigger.recv_rpl_order_rejected a x) w = A.reject_given a w
act_last Action.expire Trigger.rpl_order_expired w = with_order A.give_up_replacement w
act_last _ _ w = ok w

unfoldable pub act_next : Action → Trigger → Work → Done
unfolding act_last
act_next Action.corrected (Trigger.trade_crct_cncl c) w =
    on_correction (λ d. with_order (A.correct d)) c w
act_next Action.corrected_without_restore (Trigger.trade_crct_cncl c) w =
    on_correction (λ d. with_order (A.correct_without_restore d)) c w
act_next Action.expire Trigger.expired w = with_order A.leave_book w
act_next Action.restored Trigger.new_day w = with_order A.restore_order w
act_next Action.continued Trigger.continue w = with_order A.continue_order w
act_next Action.finished Trigger.finished w = with_order A.leave_book w
act_next Action.suspended Trigger.suspended w = with_order A.leave_book w
act_next Action.canceled Trigger.exec_cancel w = with_order A.leave_book w
act_next Action.canceled Trigger.internal_cancel w = with_order A.leave_book w
act_next Action.replaced (Trigger.exec_replace j) w = with_order A.leave_book w
act_next a t w = act_last a t w

unfoldable pub act : Action → Event → Trigger → Work → Done
unfolding act_next
act Action.receive e (Trigger.order_received a) w =
    catching e (Trigger.recv_order_rejected a) (A.receive_order a w)
act Action.receive e (Trigger.rpl_order_received a) w =
    catching e (Trigger.recv_rpl_order_rejected a) (A.receive_replacement a w)
act Action.accept e (Trigger.external_order a) w =
    catching e (Trigger.external_order_rejected a) (A.accept_external a w)
act Action.reject e (Trigger.external_order_rejected a x) w = A.reject_given a w
act Action.accept e (Trigger.replace j) w =
    catching e Trigger.rpl_order_rejected (with_order A.accept_replacement w)
act a e t w = act_next a t w

-- In a test an action does nothing, but for `accept(onReplace)`, which can be told to fail.
unfoldable pub act_test : Action → Event → Trigger → Work → Done
act_test Action.accept e (Trigger.replace j) w =
    if e.check_result
    then ok w
    else threw (post e (Trigger.rpl_order_rejected Reason.test_reject) w) Reason.test_reject
act_test _ e _ w = ok w

unfoldable pub run_action : Action → Event → Work → Done
unfolding act act_test
run_action a e w = if e.test then act_test a e e.trigger w else act a e e.trigger w

pub data Verdict : Type 0 where
  passed : Bool → Verdict
  raised : Reason → Verdict

abbrev pub judge : (Order → Verdict) → Work → Verdict
judge f w = elim w.order [ none ↦ raised Reason.null_order | some a ↦ f (order_at a w) ]

-- `processComplete`
abbrev pub is_complete : Option Trade → Order → Verdict
is_complete none o = raised Reason.no_trade
is_complete (some t) o =
    if ltb o.leaves_qty t.last_qty
    then raised Reason.over_fill
    else passed (t.last_qty == o.leaves_qty)

-- `processNotExecuted`
abbrev pub is_unexecuted : Option Correction → Order → Verdict
is_unexecuted none o = raised Reason.no_correction
is_unexecuted (some c) o = passed (c.leaves_qty == o.order_qty)

unfoldable pub judge_event : Guard → Trigger → Work → Verdict
judge_event Guard.complete (Trigger.trade_execution t) w = judge (is_complete t) w
judge_event Guard.not_executed (Trigger.trade_crct_cncl c) w = judge (is_unexecuted c) w
judge_event Guard.not_executed Trigger.new_day w =
    judge (λ o. passed (o.leaves_qty == o.order_qty)) w
judge_event Guard.not_executed Trigger.continue w =
    judge (λ o. passed (o.leaves_qty == o.order_qty)) w
judge_event _ _ w = passed true

unfoldable pub run_guard : Guard → Event → Work → Verdict
unfolding judge_event
run_guard g e w = if e.test then passed e.check_result else judge_event g e.trigger w
