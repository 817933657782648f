-- ===== src/Machine/Table.antt =====
-- The transition table of `OrderState_` in src/StateMachine.h.
use order_processor.Common.{Option, none, some, List, [], ◌∷◌}
use order_processor.Machine.States.{State, Kind}

pub data Action : Type 0 where
  receive accept reject reject_new fill corrected corrected_without_restore expire : Action
  restored continued finished suspended canceled replaced : Action

pub data Guard : Type 0 where
  complete not_executed : Guard

pub record Row : Type 0 where
  pub source : State
  pub event : Kind
  pub target : State
  pub action : Action
  pub guard : Option Guard

abbrev pub a_row : State → Kind → State → Action → Row
a_row s k t a = record { source = s; event = k; target = t; action = a; guard = none }

abbrev pub row : State → Kind → State → Action → Guard → Row
row s k t a g = record { source = s; event = k; target = t; action = a; guard = some g }

unfoldable pub transition_table : List Row
transition_table =
    a_row State.rcvd_new Kind.order_received State.new Action.receive
    ∷ a_row State.rcvd_new Kind.recv_order_rejected State.rejected Action.reject
    ∷ a_row State.rcvd_new Kind.rpl_order_received State.pend_replace Action.receive
    ∷ a_row State.rcvd_new Kind.recv_rpl_order_rejected State.rejected Action.reject
    ∷ a_row State.rcvd_new Kind.external_order_rejected State.rejected Action.reject
    ∷ a_row State.rcvd_new Kind.external_order State.new Action.accept
    ∷ a_row State.pend_replace Kind.replace State.new Action.accept
    ∷ a_row State.pend_replace Kind.rpl_order_rejected State.rejected Action.reject
    ∷ a_row State.pend_replace Kind.rpl_order_expired State.expired Action.expire
    ∷ a_row State.new Kind.trade_execution State.part_fill Action.fill
    ∷ row State.new Kind.trade_execution State.filled Action.fill Guard.complete
    ∷ a_row State.new Kind.order_rejected State.rejected Action.reject_new
    ∷ a_row State.new Kind.expired State.expired Action.expire
    ∷ a_row State.new Kind.finished State.done_for_day Action.finished
    ∷ a_row State.new Kind.suspended State.suspended Action.suspended
    ∷ a_row State.part_fill Kind.trade_execution State.part_fill Action.fill
    ∷ row State.part_fill Kind.trade_execution State.filled Action.fill Guard.complete
    ∷ a_row State.part_fill Kind.trade_crct_cncl State.part_fill Action.corrected
    ∷ row State.part_fill Kind.trade_crct_cncl State.new Action.corrected Guard.not_executed
    ∷ a_row State.part_fill Kind.expired State.expired Action.expire
    ∷ a_row State.part_fill Kind.finished State.done_for_day Action.finished
    ∷ a_row State.part_fill Kind.suspended State.suspended Action.suspended
    ∷ a_row State.filled Kind.trade_crct_cncl State.part_fill Action.corrected
    ∷ row State.filled Kind.trade_crct_cncl State.new Action.corrected Guard.not_executed
    ∷ a_row State.expired Kind.trade_crct_cncl State.expired Action.corrected_without_restore
    ∷ a_row State.done_for_day Kind.new_day State.part_fill Action.restored
    ∷ row State.done_for_day Kind.new_day State.new Action.restored Guard.not_executed
    ∷ a_row State.done_for_day Kind.trade_crct_cncl State.done_for_day
        Action.corrected_without_restore
    ∷ a_row State.done_for_day Kind.suspended State.suspended Action.suspended
    ∷ a_row State.suspended Kind.continue State.part_fill Action.continued
    ∷ row State.suspended Kind.continue State.new Action.continued Guard.not_executed
    ∷ a_row State.suspended Kind.expired State.expired Action.expire
    ∷ a_row State.suspended Kind.finished State.done_for_day Action.finished
    ∷ a_row State.suspended Kind.trade_crct_cncl State.suspended Action.corrected_without_restore
    ∷ a_row State.no_cnl_replace Kind.cancel_received State.going_cancel Action.receive
    ∷ a_row State.no_cnl_replace Kind.replace_received State.going_replace Action.receive
    ∷ a_row State.no_cnl_replace Kind.internal_cancel State.cncl_replaced Action.canceled
    ∷ a_row State.going_cancel Kind.cancel_rejected State.no_cnl_replace Action.reject
    ∷ a_row State.going_cancel Kind.exec_cancel State.cncl_replaced Action.canceled
    ∷ a_row State.going_replace Kind.replace_rejected State.no_cnl_replace Action.reject
    ∷ a_row State.going_replace Kind.exec_replace State.cncl_replaced Action.replaced
    ∷ a_row State.cncl_replaced Kind.trade_crct_cncl State.cncl_replaced
        Action.corrected_without_restore
    ∷ []
