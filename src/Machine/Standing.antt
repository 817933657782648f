-- ===== src/Machine/Standing.antt =====
-- When an accepted limit order stands in the order book, by the state of its main zone: src/OrderStates.cpp
-- and src/OrderStateMachineImpl.cpp taken together with the table.
use order_processor.Common.{
  ◌≡◌, ◌<◌, Bool, true, false, not, ◌&&◌, Option, none, some, List, [], ◌∷◌, ◌==◌, if◌then◌else◌,
}
use order_processor.Model.Ids.{IdT}
use order_processor.Model.Enums as E
use order_processor.Model.Order.{is_market, Trade}
use order_processor.Store.Defs.{Address}
use order_processor.Book.Defs as Book
use order_processor.Machine.States.{State, Event, Trigger, Reason}
use order_processor.Machine.Context.{Operation, Work, order_at, ◌>>=◌, threw}
use order_processor.Machine.Actions as A
use order_processor.Machine.Entries.{enter_state}
use order_processor.Machine.Handlers.{raised, is_complete}
use order_processor.Machine.Dispatch.{Reaction, unhandled, moved, failed, by_verdict, arrive}

abbrev pub status_of : State → E.OrderStatus
status_of State.new = E.new_status
status_of State.part_fill = E.part_fill
status_of State.filled = E.filled_status
status_of State.expired = E.expired_status
status_of State.done_for_day = E.dfd_status
status_of State.suspended = E.suspended_status
status_of State.rejected = E.rejected_status
status_of _ = E.invalid_status

-- An order that was accepted.
abbrev pub is_started : State → Bool
is_started State.new = true
is_started State.part_fill = true
is_started State.filled = true
is_started State.expired = true
is_started State.done_for_day = true
is_started State.suspended = true
is_started State.rejected = true
is_started _ = false

-- The states in which an order waits in the book, and those in which it can do so again.
abbrev pub is_active : State → Bool
is_active State.new = true
is_active State.part_fill = true
is_active _ = false

abbrev pub is_pending : State → Bool
is_pending State.done_for_day = true
is_pending State.suspended = true
is_pending s = is_active s

abbrev pub is_filled : State → Bool
is_filled State.filled = true
is_filled _ = false

-- The additions and removals of one order, which was in the book or not: `none` where it would be
-- added twice, or removed while it is not there.
unfoldable pub book_steps : Address → Bool → List Operation → Option Bool
book_steps a b [] = some b
book_steps a b (Operation.add_to_order_book c i ∷ ops) =
    let rest = book_steps a (if c == a then true else b) ops in if (c == a) && b then none else rest
book_steps a b (Operation.remove_from_order_book c i ∷ ops) =
    let rest = book_steps a (if c == a then false else b) ops in
    if (c == a) && not b then none else rest
book_steps a b (op ∷ ops) = book_steps a b ops

-- What an accepted limit order and its state have in common.
pub record Fits (a : Address) (s : State) (w : Work) : Type 0 where
  pub order : w.order ≡ some a
  pub status : (order_at a w).status ≡ status_of s
  pub limit : is_market (order_at a w).ord_type ≡ false
  pub pending : is_pending s ≡ true → 0 < (order_at a w).leaves_qty
  pub filled : is_filled s ≡ true → (order_at a w).leaves_qty ≡ 0
  pub started : is_started s ≡ true
  pub idle : w.posted ≡ []

-- What a step of the main zone does to the book. The last fill takes the order out by itself; any other
-- step leaves it to the operations of the transaction.
abbrev pub Follows : Bool → Address → State → Work → State → Work → Type 0
Follows true a s w s' w' =
    (book_steps a true w'.operations ≡ some true)
    × (Book.remove (order_at a w') w.book ≡ Book.ok w'.book)
Follows false a s w s' w' =
    (book_steps a (is_active s) w'.operations ≡ some (is_active s')) × (w'.book ≡ w.book)

abbrev pub After : Address → State → Work → Reaction → Type 0
After a s w unhandled = Unit {0}
After a s w (moved s' w') = Fits a s' w' × Follows (is_active s && is_filled s') a s w s' w'
After a s w (failed w') = Fits a s w' × (w'.operations ≡ []) × (w'.book ≡ w.book)

-- A correction that leaves something open.
abbrev pub Admits : Trigger → Type 0
Admits (Trigger.trade_crct_cncl (some c)) = 0 < c.leaves_qty
Admits _ = Unit {0}

abbrev pub plain : Trigger → IdT → Bool → Event
plain t k b = record { trigger = t; order_id = k; test = false; check_result = b }

-- What the table makes of a trade of an active order, once it is known which one it is.
abbrev pub sold : IdT → Work → Trade → Option Address → Reaction
sold k w t o =
    by_verdict
      (elim o [ none ↦ raised Reason.null_order | some c ↦ is_complete (some t) (order_at c w) ])
      (arrive State.filled (
        elim o [ none ↦ threw w Reason.null_order | some c ↦ A.fill t c w ]
        >>= enter_state State.filled k (Trigger.trade_execution (some t))))
      (arrive State.part_fill (
        elim o [ none ↦ threw w Reason.null_order | some c ↦ A.fill t c w ]
        >>= enter_state State.part_fill k (Trigger.trade_execution (some t))))
      w
