-- ===== src/Processor/Operations.antt =====
-- The operations of src/TrOperations.cpp on the processor's state, and the transactions made of them.
use order_processor.Common.{ℕ, Option, none, some, List, [], ◌∷◌, ◌++◌, length, take}
use mathlib.Core.List.{map}
use order_processor.Model.Ids.{IdT}
use order_processor.Model.Order.{Order}
use order_processor.Store.Defs.{Address}
use order_processor.Book.Defs as Book
use order_processor.Book.Defs.{Book}
use order_processor.Matching.Defs as Matching
use order_processor.Matching.Defs.{Deferred, match_order}
use order_processor.Acid.Operation as Acid
use order_processor.Acid.Operation.{Outcome}
use order_processor.Acid.Scope.{Scope}
use order_processor.Machine.Context.{Operation, order_at}
use order_processor.Processor.Desk.{Desk, Fault, Step, ok, threw, set_work}
use order_processor.Processor.Reports.{
  enqueue_order_event, create_exec_report, create_trade_report, create_correct_report,
  create_reject_report, create_replace_report, reject_cancel,
}

-- `addDeferedEvent`, for the events of a call, and `removeDeferedEventsFrom`.
abbrev pub add_deferred : List Deferred → Desk → Desk
add_deferred es d = record d { deferred = d.deferred ++ es }

abbrev pub remove_deferred_from : ℕ → Desk → Desk
remove_deferred_from n d = record d { deferred = take n d.deferred }

-- `OrderMatcher::match` on the order at an address.
unfoldable pub match_at : Address → Desk → Step
match_at a d = elim (match_order a d.machine.work.storage d.machine.work.book) [
  | Matching.err e ↦ threw (Fault.match_failed e) d
  | Matching.ok es ↦ ok (add_deferred es d)
]

-- `MatchOrderTrOperation`: the count of the events is kept for the rollback.
unfoldable pub execute_match : Address → Desk → Step
unfolding match_at
execute_match a d = match_at a (record d { counts = length d.deferred ∷ d.counts })

abbrev pub drop_count : List ℕ → Desk → Desk
drop_count [] d = d
drop_count (n ∷ ns) d = remove_deferred_from n (record d { counts = ns })

unfoldable pub roll_back_match : Desk → Step
roll_back_match d = ok (drop_count d.counts d)

abbrev pub on_book : (Book → Book.Result Book) → Desk → Step
on_book f d = elim (f d.machine.work.book) [
  | Book.err e ↦ threw (Fault.book_failed e) d
  | Book.ok b ↦ ok (set_work (record d.machine.work { book = b }) d)
]

abbrev pub order_of : Address → Desk → Order
order_of a d = order_at a d.machine.work

unfoldable pub execute_operation : Operation → Desk → Step
unfolding execute_match enqueue_order_event create_exec_report create_trade_report
    create_correct_report create_reject_report create_replace_report reject_cancel
execute_operation (Operation.match_order a) d = execute_match a d
execute_operation (Operation.add_to_order_book a i) d = on_book (Book.add (order_of a d)) d
execute_operation (Operation.remove_from_order_book a i) d = on_book (Book.remove (order_of a d)) d
execute_operation (Operation.exec_report st type a) d =
    create_exec_report st type (order_of a d).order_id d
execute_operation (Operation.trade_report t st a) d =
    create_trade_report t st (order_of a d).order_id d
execute_operation (Operation.reject_report x st a) d =
    create_reject_report x st (order_of a d).order_id d
execute_operation (Operation.replace_report k st a) d =
    create_replace_report k st (order_of a d).order_id d
execute_operation (Operation.correct_report c st a) d =
    create_correct_report c st (order_of a d).order_id d
execute_operation (Operation.cancel_reject st a) d = reject_cancel d
execute_operation (Operation.enqueue_event a t i) d = enqueue_order_event 0 t d

-- The reports and the pushed events have no rollback.
unfoldable pub roll_back_operation : Operation → Desk → Step
unfolding roll_back_match
roll_back_operation (Operation.match_order a) d = roll_back_match d
roll_back_operation (Operation.add_to_order_book a i) d = on_book (Book.remove (order_of a d)) d
roll_back_operation (Operation.remove_from_order_book a i) d = on_book (Book.add (order_of a d)) d
roll_back_operation _ d = ok d

abbrev pub id_or_none : Option IdT → IdT
id_or_none none = 0
id_or_none (some k) = k

-- `getObjectId`: the order that the operation is about.
abbrev pub subject : Operation → Address
subject (Operation.match_order a) = a
subject (Operation.add_to_order_book a i) = a
subject (Operation.remove_from_order_book a i) = a
subject (Operation.exec_report st type a) = a
subject (Operation.trade_report t st a) = a
subject (Operation.reject_report x st a) = a
subject (Operation.replace_report k st a) = a
subject (Operation.correct_report c st a) = a
subject (Operation.cancel_reject st a) = a
subject (Operation.enqueue_event a t i) = a

abbrev pub related : Operation → IdT
related (Operation.add_to_order_book a i) = i
related (Operation.remove_from_order_book a i) = i
related (Operation.enqueue_event a t i) = id_or_none i
related _ = 0

abbrev pub outcome : Step → Outcome Desk
outcome (ok d) = Acid.returned d
outcome (threw x d) = Acid.threw d

-- The operation as transactions see it. The id of its order was taken when it was made.
unfoldable pub as_operation : Desk → Operation → Acid.Operation Desk
unfolding execute_operation roll_back_operation
as_operation made op = record {
  object_id = (order_of (subject op) made).order_id;
  related_id = related op;
  execute = λ d. outcome (execute_operation op d);
  rollback = λ d. outcome (roll_back_operation op d);
}

-- The transaction of the operations that the machine has added.
unfoldable pub release_scope : Desk → Scope (Acid.Operation Desk)
unfolding as_operation
release_scope d = record {
  operations = map (as_operation d) d.machine.work.operations;
  boundaries = [];
  id = 0;
  arena_offset = 0;
}
