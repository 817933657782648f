-- ===== src/Examples/Processors.antt =====
-- The theorems on the processor at a bid that meets an offer whose order was suspended.
use order_processor.Common.{◌<◌, arith, ◌≡◌, refl, none, some, [], ◌∷◌, ◌==◌, if◌then◌else◌}
use order_processor.Model.Ids.{IdT, make_id, is_valid_id, get_id}
use order_processor.Book.Defs as Book
use order_processor.Book.Side as Side
use order_processor.Store.Defs.{Address, choose_id}
use order_processor.Matching.Defs as Matching
use order_processor.Matching.Defs.{TradeParams, match_order}
use order_processor.Acid.Related.{get_related_objects, note_operation}
use order_processor.Manager.Defs.{new_manager}
use order_processor.Machine.States.{State, Event}
use order_processor.Machine.Dispatch.{Machine, dispatch}
use order_processor.Processor.Desk.{Desk, Persistence}
use order_processor.Processor.Loop.{
  Processor, process_deferred, process_deferred_from, unfinished, on_deferred_event,
}
use order_processor.Machine.Handlers.{run_guard}
use order_processor.Machine.Actions.{fill}
use order_processor.Processor.Quiet.{Quiet}
use order_processor.Processor.Endless.{chain, Spins, process_deferred-unfinished}
use order_processor.Acid.Operation.{execute_transaction}
use order_processor.Acid.Execution.{RunsOrStays, execute_transaction-atomic}
use order_processor.Processor.Undoing.{match-IsUndoable}
use order_processor.Machine.Context.{Operation}
use order_processor.Processor.Operations.{as_operation}
use order_processor.Processor.Queue.{drain, drain_from, process_deferred-drain}
use order_processor.Processor.Ends.{Ends}
use order_processor.Processor.Live.{Live}
use order_processor.Processor.Totals.{total}
use order_processor.Processor.Rounds.{AllDone, process_deferred-AllDone}
use order_processor.Examples.Data.{storage, book, by_id}

documented : (e : Event) (m : Machine) → dispatch e m ≡ dispatch e m
documented e m = refl

abbrev suspended : Persistence
suspended = record { order = some 0; zone1 = State.suspended; zone2 = State.no_cnl_replace }

abbrev states : Address → Persistence
states a = if a == 0 then suspended else record suspended { order = some a; zone1 = State.new }

abbrev desk : Desk
desk = record {
  machine = record {
    zone1 = State.rcvd_new;
    zone2 = State.no_cnl_replace;
    work = record {
      order = none;
      storage = storage;
      executions = λ k. none;
      book = book;
      now = 3;
      counter = 12;
      operations = [];
      posted = [];
    };
  };
  states = states;
  sources = λ a. b'x' ∷ [];
  deferred = [];
  counts = [];
  incoming = [];
  outgoing = [];
}

abbrev processor : Processor
processor = record { desk = desk; manager = new_manager }

abbrev first_trade : TradeParams
first_trade = record { last_qty = 40; last_px = 101; order = 0 }

desk-Spins : Spins dispatch documented 3 first_trade suspended refl refl refl desk
unfolding match_order Book.find Matching.opposite Matching.match_found is_valid_id Side.find
    Matching.find_opposite
desk-Spins = record { found = refl; state = refl; idle = refl }

process_deferred-unfinished_example :
    process_deferred_from dispatch 1000 (chain 3 first_trade) processor ≡ unfinished
process_deferred-unfinished_example =
    process_deferred-unfinished dispatch documented 3 first_trade suspended refl refl refl 1000
      processor desk-Spins

-- The same, where the offers can be traded.
abbrev open_desk : Desk
open_desk = record desk {
  states = λ a. record { order = some a; zone1 = State.new; zone2 = State.no_cnl_replace };
  deferred = chain 3 first_trade;
}

by_id-fresh : (k : IdT) (c : Address) → by_id k ≡ some c → c < 4
by_id-fresh k c h = ground arith

open_desk-Live : Live open_desk
open_desk-Live = record {
  idle = refl;
  ids = λ k h. refl;
  stored = by_id-fresh;
  trading = λ k c h l. (refl, refl, refl);
}

process_deferred-AllDone_example :
    Ends AllDone
      (process_deferred dispatch 500 (record { desk = open_desk; manager = new_manager }))
unfolding match_order Book.find Matching.opposite Matching.match_found is_valid_id Side.find
    Matching.find_opposite total
process_deferred-AllDone_example =
    process_deferred-AllDone dispatch documented (make_id 4 1) 3 500
      (record { desk = open_desk; manager = new_manager }) open_desk-Live refl refl (omega arith)
      (omega arith)

abbrev open_processor : Processor
open_processor = record { desk = open_desk; manager = new_manager }

-- The trade, and the matches behind it.
process_deferred-drain_example :
    (process_deferred dispatch 20 open_processor ≡ drain dispatch 20 open_processor)
    × Quiet (process_deferred dispatch 20 open_processor)
unfolding drain_from on_deferred_event match_order dispatch get_related_objects note_operation
    run_guard fill Book.remove Side.remove choose_id get_id is_valid_id Book.find Matching.opposite
    Matching.match_found Side.find Matching.find_opposite
process_deferred-drain_example = process_deferred-drain dispatch 20 open_processor refl

-- Two matches, for the bid and for the first offer.
execute_transaction-atomic_example :
    RunsOrStays
      (as_operation open_desk (Operation.match_order 3)
        ∷ as_operation open_desk (Operation.match_order 0)
        ∷ [])
      open_desk
      open_desk
      (execute_transaction
        (as_operation open_desk (Operation.match_order 3)
          ∷ as_operation open_desk (Operation.match_order 0)
          ∷ [])
        open_desk)
execute_transaction-atomic_example =
    execute_transaction-atomic
      (as_operation open_desk (Operation.match_order 3)
        ∷ as_operation open_desk (Operation.match_order 0)
        ∷ [])
      open_desk (match-IsUndoable open_desk 3, (match-IsUndoable open_desk 0, tt))
