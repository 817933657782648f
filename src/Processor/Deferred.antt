-- ===== src/Processor/Deferred.antt =====
-- The deferred events: src/ExecutionDeferedEvent.cpp, src/MatchOrderDeferedEvent.cpp and
-- src/CancelOrderDeferedEvent.cpp, with the functions of src/Processor.cpp that they call.
use order_processor.Common.{ℕ, ◌+◌, ◌*◌, ◌/◌, ◌%◌, some, List, [], ◌∷◌, ltb, if◌then◌else◌}
use order_processor.Model.Order.{Trade, qty_limit}
use order_processor.Store.Defs.{Address}
use order_processor.Matching.Defs.{Deferred, TradeParams}
use order_processor.Machine.States.{Trigger, Event}
use order_processor.Machine.Dispatch.{Machine}
use order_processor.Processor.Desk.{Desk, Step, ok, ◌>>=◌, run_machine}
use order_processor.Processor.Operations.{order_of, match_at}

abbrev pub trade_of : TradeParams → Desk → Trade
trade_of p d = record {
  last_qty = p.last_qty;
  last_px = p.last_px;
  currency = (order_of p.order d).currency;
  exec_id = 0;
}

-- What the trades have come to: the quantity, and the sum of the prices times the quantities.
pub record Total : Type 0 where
  pub qty : ℕ
  pub px : ℕ

abbrev pub no_total : Total
no_total = record { qty = 0; px = 0 }

abbrev pub count_trade : TradeParams → ℕ → Desk → Total → Total
count_trade p before d t =
    if ltb (order_of p.order d).leaves_qty before
    then record { qty = (t.qty + p.last_qty) % qty_limit; px = t.px + p.last_qty * p.last_px }
    else t

module _ (process : Event → Machine → Machine) where
  -- `Processor::process` of a trade or of a cancellation, on the order at an address.
  unfoldable pub process_on : Address → Trigger → Desk → Step
  unfolding run_machine
  process_on a t d = run_machine process (d.states a) t d

  -- `execute` on one trade
  unfoldable pub execute_trade : TradeParams → Desk → Step
  unfolding process_on
  execute_trade p d = process_on p.order (Trigger.trade_execution (some (trade_of p d))) d

  -- The end of `execute`: the trades that were applied, as one trade of the base order. The mean price is
  -- exact for the trades of the matcher, which come one by one.
  unfoldable pub execute_base : Address → Total → Desk → Step
  unfolding execute_trade
  execute_base base t d =
      if ltb 0 t.qty
      then execute_trade (record { last_qty = t.qty; last_px = t.px / t.qty; order = base }) d
      else ok d

  -- The loop of `execute`
  unfoldable pub execute_trades : Address → List TradeParams → Total → Desk → Step
  unfolding execute_trade execute_base
  execute_trades base [] t d = execute_base base t d
  execute_trades base (p ∷ ps) t d = execute_trade p d >>= λ d'.
      execute_trades base ps (count_trade p (order_of p.order d).leaves_qty d' t) d'

  -- `DeferedEventBase::execute`
  unfoldable pub execute_deferred : Deferred → Desk → Step
  unfolding execute_trades process_on match_at
  execute_deferred (Deferred.execution base trades) d = execute_trades base trades no_total d
  execute_deferred (Deferred.match_again a) d = match_at a d
  execute_deferred (Deferred.cancel a) d = process_on a Trigger.internal_cancel d
