-- ===== src/Machine/Actions.antt =====
-- The functions of `OrdStateImpl` in src/OrderStateMachineImpl.cpp.
use order_processor.Common.{
  ◌==◌, ltb, if◌then◌else◌, Bool, true, false, not, ◌&&◌, none, some, is_some, update,
}
use order_processor.Model.Ids.{IdT, is_valid_id}
use order_processor.Model.Enums.{
  Side, OrderStatus, trade_exec, buy, sell, new_status, part_fill, invalid_status, filled_status,
  pending_replace,
}
use order_processor.Model.Order.{Order, Trade, apply_trade, is_market, is_buy}
use order_processor.Model.Validity.{check_order}
use order_processor.Store.Defs as Store
use order_processor.Store.Defs.{Address}
use order_processor.Book.Defs as Book
use order_processor.Matching.Defs.{accept}
use order_processor.Machine.States.{Reason, Correction, Trigger}
use order_processor.Machine.Context.{
  Operation, Content, Execution, Work, Done, ok, threw, ◌>>=◌, add_operation, order_at, set_order,
  set_status, with_order,
}

-- The side that `FindAnyOpositeOrder` looks at.
abbrev pub opposite_side : Order → Side
opposite_side o = if is_buy o.side then sell else buy

-- A market order needs an order of the other side, any that the search meets first.
unfoldable pub require_market : Address → Work → Done
require_market a w =
    let o = order_at a w in
    if is_market o.ord_type
    then elim (Book.find o.instrument.id (opposite_side o) (λ k. accept) w.book) [
      | Book.err e ↦ threw w (Reason.book_failed e)
      | Book.ok k ↦ if is_valid_id k then ok w else threw w Reason.no_market
    ]
    else ok w

-- The operations that match the order at `a`, and put it into the order book unless it is a market order.
unfoldable pub match_and_add : Address → Work → Work
match_and_add a w =
    let o = order_at a w in
    let w' = add_operation (Operation.match_order a) w in
    if is_market o.ord_type
    then w'
    else add_operation (Operation.add_to_order_book a o.instrument.id) w'

-- `save`: the machine goes on with the stored copy.
unfoldable pub save_order : Address → Work → Done
save_order a w = elim (Store.save (order_at a w) w.now w.counter w.storage) [
  | Store.err e ↦ threw w (Reason.store_failed e)
  | Store.ok (a', counter, storage) ↦
      ok (record w { order = some a'; counter = counter; storage = storage })
]

abbrev pub hold : Address → Work → Work
hold a w = record w { order = some a }

unfoldable pub require_valid : Address → Work → Done
require_valid a w = elim (check_order (order_at a w)) [
  | some c ↦ threw w (Reason.invalid_order c)
  | none ↦ ok w
]

-- `processReceive(onOrderReceived)`
unfoldable pub receive_order : Address → Work → Done
unfolding require_valid save_order require_market match_and_add
receive_order a w = require_valid a w >>= λ w1. save_order a (hold a w1) >>= λ w2.
    with_order (λ b w3. ok (set_status new_status b w3)) w2 >>= λ w4.
    with_order require_market w4 >>= λ w5. with_order (λ b w6. ok (match_and_add b w6)) w5

-- `processReceive(onRplOrderReceived)`
abbrev pub link_replacement : Address → Address → Work → Done
link_replacement original b w =
    let o = order_at b w in
    let k = (order_at original w).order_id in
    ok (
      add_operation
        (Operation.enqueue_event original (Trigger.replace_received o.order_id)
          (some o.instrument.id))
        (set_order b (record o { orig_order_id = k; status = pending_replace }) w))

unfoldable pub receive_replacement : Address → Work → Done
unfolding save_order
receive_replacement a w =
    let w1 = hold a w in
    elim (Store.locate_by_cl_order_id (order_at a w1).orig_cl_order_id w1.storage) [
      | none ↦ threw w1 Reason.no_original
      | some original ↦ save_order a w1 >>= λ w2. with_order (link_replacement original) w2
    ]

-- The order is saved, if it can be: a refusal is ignored.
abbrev pub or_keep : Work → Done → Done
or_keep w (ok w') = ok w'
or_keep w (threw w' x) = ok w

-- `processReject(onRecvOrderRejected)`: the order of the event, unless there is one by now.
unfoldable pub reject_received : Address → Work → Done
unfolding save_order
reject_received a w =
    let w1 = if is_some w.order then w else hold a w in
    with_order (λ b w2. or_keep w2 (save_order b w2)) w1

-- `processReject(onRecvRplOrderRejected)` and `processReject(onExternalOrderRejected)`
unfoldable pub reject_given : Address → Work → Done
unfolding save_order
reject_given a w = let w1 = hold a w in or_keep w1 (save_order a w1)

-- `processAccept(onExternalOrder)`: the operations are about the order of the event, not its copy.
unfoldable pub accept_external : Address → Work → Done
unfolding require_valid save_order require_market match_and_add
accept_external a w = require_valid a (hold a w) >>= λ w1.
    require_market a w1 >>= λ w2. save_order a w2 >>= λ w3. ok (match_and_add a w3)

-- The original of a replacement, which gets an event.
unfoldable pub tell_original : (IdT → Trigger) → Address → Work → Done
tell_original event a w = elim (Store.locate_by_order_id (order_at a w).orig_order_id w.storage) [
  | none ↦ threw w Reason.no_original
  | some original ↦
      ok (add_operation (Operation.enqueue_event original (event (order_at a w).order_id) none) w)
]

unfoldable pub require_original : Address → Work → Done
require_original a w =
    if is_some (Store.locate_by_order_id (order_at a w).orig_order_id w.storage)
    then ok w
    else threw w Reason.no_original

-- `processAccept(onReplace)`; `isReplaceValid` always holds.
unfoldable pub accept_replacement : Address → Work → Done
unfolding require_valid require_market require_original match_and_add tell_original
accept_replacement a w = require_valid a w >>= λ w1. require_market a w1 >>= λ w2.
    require_original a w2 >>= λ w3. tell_original Trigger.exec_replace a (match_and_add a w3)

-- `processReject(onRplOrderRejected)` and `processExpire(onRplOrderExpired)`
unfoldable pub give_up_replacement : Address → Work → Done
unfolding tell_original
give_up_replacement a w = tell_original Trigger.replace_rejected a w

-- The copy of an execution gets an id: the id, whether the copy was saved, which it is not if the id is
-- taken, and what is left. The generator has moved on in both cases.
unfoldable pub save_execution : Execution → Work → IdT × Bool × Work
save_execution e w =
    let (k, counter) = Store.choose_id e.exec_id w.now w.counter in
    if is_some (w.executions k) then (k, false, record w { counter = counter }) else (
      k,
      true,
      record w {
        counter = counter;
        executions = update w.executions k (some (record e { exec_id = k }));
      },
    )

abbrev pub set_execution_status : IdT → Execution → OrderStatus → Work → Work
set_execution_status k e st w = record w {
  executions = update w.executions k (some (record e { status = st }));
}

-- The end of `processFill`: an order with nothing left leaves the order book at once.
unfoldable pub settle_fill : IdT → Execution → Address → Work → Done
settle_fill k e a w =
    if (order_at a w).leaves_qty == 0
    then elim (Book.remove (order_at a w) w.book) [
      | Book.err x ↦ threw w (Reason.book_failed x)
      | Book.ok b ↦ ok (set_execution_status k e filled_status (record w { book = b }))
    ]
    else ok (set_execution_status k e part_fill w)

-- `processFill`
unfoldable pub fill : Trade → Address → Work → Done
unfolding save_execution settle_fill apply_trade
fill trade a w =
    let e : Execution = record {
      exec_id = 0;
      order_id = (order_at a w).order_id;
      type = trade_exec;
      status = invalid_status;
      content = Content.traded trade.last_qty trade.last_px trade.currency;
    } in
    let (k, is_saved, w') = save_execution e w in
    let saved : Trade = record trade { exec_id = k } in
    let filled : Done = elim (apply_trade saved (order_at a w')) [
      | none ↦ threw w' Reason.over_fill
      | some o ↦ settle_fill k (record e { exec_id = k }) a (set_order a o w')
    ] in
    if is_saved then filled else threw w' Reason.same_exec_id

abbrev pub take_correction : Correction → Address → Work → Work
take_correction c a w =
    set_order a
      (record (order_at a w) {
        leaves_qty = c.leaves_qty;
        cum_qty = c.cum_qty;
        currency = c.currency;
      })
      w

-- `processCorrected`: an order that was filled and is open again goes back into the order book.
unfoldable pub correct : Correction → Address → Work → Done
unfolding match_and_add
correct c a w =
    let reopened = ((order_at a w).leaves_qty == 0) && ltb 0 c.leaves_qty in
    ok (take_correction c a (if reopened then match_and_add a w else w))

-- `processCorrectedWithoutRestore`
unfoldable pub correct_without_restore : Correction → Address → Work → Done
correct_without_restore c a w = ok (take_correction c a w)

abbrev pub remove_operation : Address → Work → Work
remove_operation a w =
    add_operation (Operation.remove_from_order_book a (order_at a w).instrument.id) w

-- `processRejectNew`
unfoldable pub reject_new : Address → Work → Done
reject_new a w = ok (if is_market (order_at a w).ord_type then w else remove_operation a w)

abbrev pub is_open : OrderStatus → Bool
is_open new_status = true
is_open part_fill = true
is_open _ = false

-- `processExpire(onExpired)`, `processFinished`, `processSuspended`, `processCanceled` and `processReplaced`
unfoldable pub leave_book : Address → Work → Done
leave_book a w =
    let o = order_at a w in
    ok (if not (is_market o.ord_type) && is_open o.status then remove_operation a w else w)

-- `processRestored`: any order with something left, a market order too.
unfoldable pub restore_order : Address → Work → Done
restore_order a w =
    let w' =
      add_operation (Operation.add_to_order_book a (order_at a w).instrument.id)
        (add_operation (Operation.match_order a) w) in
    ok (if ltb 0 (order_at a w).leaves_qty then w' else w)

-- `processContinued`
unfoldable pub continue_order : Address → Work → Done
unfolding match_and_add
continue_order a w = ok (if ltb 0 (order_at a w).leaves_qty then match_and_add a w else w)
