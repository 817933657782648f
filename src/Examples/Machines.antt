-- ===== src/Examples/Machines.antt =====
-- The theorems on the state machine at the order of an offer that waits in the book, and at a market
-- order that does not.
use order_processor.Common.{◌≡◌, refl, arith, true, none, some, List, [], ◌∷◌}
use order_processor.Model.Enums
use order_processor.Model.Order.{Order, Trade}
use order_processor.Book.Defs as Book
use order_processor.Book.Side
use order_processor.Machine.States.{State, Event, Trigger}
use order_processor.Machine.Context.{Work, order_at}
use order_processor.Machine.Actions as A
use order_processor.Machine.Dispatch.{Machine, dispatch}
use order_processor.Machine.Zones.{Keeps, run, run-Keep}
use order_processor.Machine.Filling.{Filled, fill-Filled}
use order_processor.Machine.Standing.{plain}
use order_processor.Machine.CancelZone.{is_canceled}
use order_processor.Machine.Resting.{Stands, Settled, process-Settled}
use order_processor.Machine.Canceling.{cancel_events, cancel_reaches}
use order_processor.Machine.Receiving.{Answered, process-Answered}
use order_processor.Machine.Unfilled.{process-Stuck}
use order_processor.Examples.Data.{storage, book, offer, trade}

abbrev work : Work
work = record {
  order = some 0;
  storage = storage;
  executions = λ k. none;
  book = book;
  now = 3;
  counter = 12;
  operations = [];
  posted = [];
}

abbrev resting : Machine
resting = record { zone1 = State.new; zone2 = State.no_cnl_replace; work = work }

documented : (e : Event) (m : Machine) → dispatch e m ≡ dispatch e m
documented e m = refl

abbrev life : List Event
life = plain (Trigger.trade_execution (some trade)) 0 true ∷ plain Trigger.expired 0 true ∷ []

run-Keep_example :
    Keeps State.new (run dispatch life resting).zone1
    × Keeps State.no_cnl_replace (run dispatch life resting).zone2
run-Keep_example = run-Keep dispatch documented life resting

fill-Filled_example : Filled trade 0 work (A.fill trade 0 work)
fill-Filled_example = fill-Filled trade 0 work (omega arith)

abbrev book_of : Book.Result Book.Book → Book.Book
book_of (Book.ok b) = b
book_of (Book.err e) = book

resting-Stands : Stands 0 resting
unfolding Book.remove Book.take_side Side.remove Side.erase_at
resting-Stands = record {
  fits = record {
    order = refl;
    status = refl;
    limit = refl;
    pending = λ h. omega arith;
    filled = λ h. absurd (cc);
    started = refl;
    idle = refl;
  };
  waiting = refl;
  fresh = refl;
  held = λ h. (book_of (Book.remove offer book), refl);
}

process-Settled_example :
    let m = dispatch (plain (Trigger.trade_execution (some trade)) 0 true) resting in
    Settled (is_canceled m.zone2) 0 resting m
process-Settled_example =
    process-Settled dispatch documented 0 resting (Trigger.trade_execution (some trade)) 0 true
      resting-Stands tt

cancel_reaches_example :
    let m =
      run dispatch
        (cancel_events State.going_replace 5 true)
        (record { zone1 = State.part_fill; zone2 = State.going_replace; work = work }) in
    (m.zone2 ≡ State.cncl_replaced) × (m.zone1 ≡ State.part_fill)
cancel_reaches_example =
    cancel_reaches dispatch documented 0 5 true State.part_fill refl State.going_replace work refl
      refl refl

-- The incoming order is at address 3, and its id is in use, so that it is rejected.
abbrev empty_work : Work
empty_work = record work { order = none }

process-Answered_example :
    Answered 3 empty_work
      (dispatch
        (plain (Trigger.order_received 3) 0 true)
        (record { zone1 = State.rcvd_new; zone2 = State.no_cnl_replace; work = empty_work }))
      (A.receive_order 3 empty_work)
process-Answered_example = process-Answered dispatch documented 3 0 true empty_work refl refl

-- A market order is not in the book.
abbrev market_offer : Order
market_offer = record offer { ord_type = Enums.market; order_id = 77; price = 0 }

abbrev market_work : Work
market_work = record work { storage = record storage { cells = λ a. market_offer } }

abbrev last_trade : Trade
last_trade = record trade { last_qty = 40 }

process-Stuck_example :
    let m =
      dispatch
        (plain (Trigger.trade_execution (some last_trade)) 0 true)
        (record { zone1 = State.new; zone2 = State.no_cnl_replace; work = market_work }) in
    (m.zone1 ≡ State.new)
    × (m.zone2 ≡ State.no_cnl_replace)
    × ((order_at 0 m.work).leaves_qty ≡ 0)
    × ((order_at 0 m.work).status ≡ Enums.new_status)
    × (m.work.operations ≡ [])
unfolding Book.remove Book.take_side Side.remove Side.erase_at
process-Stuck_example =
    process-Stuck last_trade 0 market_work 0 true refl refl refl Book.order_not_found refl dispatch
      documented refl State.new State.no_cnl_replace refl
