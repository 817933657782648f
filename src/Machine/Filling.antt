-- ===== src/Machine/Filling.antt =====
-- `processFill` of src/OrderStateMachineImpl.cpp.
use order_processor.Common.{
  ℕ, ◌≡◌, ◌≤◌, ◌-◌, ◌+◌, ◌%◌, true, false, some, [], ◌∷◌, ◌++◌, arith, ◌==◌, ==-refl, if◌then◌else◌,
  is_some,
}
use order_processor.Model.Ids.{IdT}
use order_processor.Model.Enums as E
use order_processor.Model.Order.{Order, Trade, qty_limit, apply_trade, add_execution}
use order_processor.Store.Defs as Store
use order_processor.Store.Defs.{Address}
use order_processor.Book.Defs as Book
use order_processor.Machine.States.{Reason}
use order_processor.Machine.Context.{Content, Work, order_at, Done, ok, threw}
use order_processor.Machine.Actions as A

-- The order with the trade applied.
abbrev pub traded : IdT → Trade → Order → Order
traded k t o = record o {
  leaves_qty = o.leaves_qty - t.last_qty;
  cum_qty = (o.cum_qty + t.last_qty) % qty_limit;
  executions = o.executions ++ k ∷ [];
}

-- What a fill leaves alone.
pub record Kept (w w' : Work) : Type 0 where
  pub order : w'.order ≡ w.order
  pub operations : w'.operations ≡ w.operations
  pub posted : w'.posted ≡ w.posted

-- The id of the execution that a fill saves.
abbrev pub exec_id_of : Work → IdT
exec_id_of w = (Store.choose_id 0 w.now w.counter).0

abbrev pub status_after : ℕ → E.OrderStatus
status_after n = if n == 0 then E.filled_status else E.part_fill

-- A fill that goes through.
pub record Executed (t : Trade) (a : Address) (w w' : Work) : Type 0 where
  pub kept : Kept w w'
  pub order : order_at a w' ≡ traded (exec_id_of w) t (order_at a w)
  pub saved :
      w'.executions (exec_id_of w)
      ≡ some (record {
        exec_id = exec_id_of w;
        order_id = (order_at a w).order_id;
        type = E.trade_exec;
        status = status_after (order_at a w').leaves_qty;
        content = Content.traded t.last_qty t.last_px t.currency;
      })

abbrev pub Filled : Trade → Address → Work → Done → Type 0
Filled t a w (ok w') =
    Executed t a w w'
    × (is_some (w.executions (exec_id_of w)) ≡ false)
    × (if (order_at a w').leaves_qty == 0
        then Book.remove (order_at a w') w.book
        else Book.ok w.book)
      ≡ Book.ok w'.book
Filled t a w (threw w' Reason.same_exec_id) =
    (is_some (w.executions (exec_id_of w)) ≡ true)
    × (w' ≡ record w { counter = (Store.choose_id 0 w.now w.counter).1 })
Filled t a w (threw w' (Reason.book_failed x)) =
    Kept w w'
    × (order_at a w' ≡ traded (exec_id_of w) t (order_at a w))
    × ((order_at a w').leaves_qty ≡ 0)
    × (Book.remove (order_at a w') w.book ≡ Book.err x)
    × (w'.book ≡ w.book)
Filled t a w _ = ⊥

-- A fill within the open quantity either goes through, and then takes the order out of the book exactly
-- if nothing is left, or it throws. It throws with only the generator changed where the id of the execution
-- is taken. It throws after the trade is applied where nothing is left and the book does not hold the order.
pub fill-Filled :
    (t : Trade) (a : Address) (w : Work)
    → t.last_qty ≤ (order_at a w).leaves_qty
    → Filled t a w (A.fill t a w)
unfolding A.fill A.save_execution A.settle_fill apply_trade add_execution
fill-Filled t a w h = ground (arith, ==-refl a, ==-refl (exec_id_of w))

-- The book looks at nothing that a trade changes.
pub remove-traded :
    (k : IdT) (t : Trade) (o : Order) (b : Book.Book)
    → Book.remove (traded k t o) b ≡ Book.remove o b
unfolding Book.remove Book.take_side
remove-traded k t o b = ground arith

pub remove-status :
    (st : E.OrderStatus) (o : Order) (b : Book.Book)
    → Book.remove (record o { status = st }) b ≡ Book.remove o b
unfolding Book.remove Book.take_side
remove-status st o b = ground arith
