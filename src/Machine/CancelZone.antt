-- ===== src/Machine/CancelZone.antt =====
-- What an event does in the zone of cancel and replace of an accepted limit order, and which events
-- concern it.
use order_processor.Common.{
  ◌≡◌, refl, Bool, true, false, not, ◌&&◌, ◌||◌, some, [], All, arith, ==-refl,
}
use order_processor.Model.Ids.{IdT}
use order_processor.Store.Defs.{Address}
use order_processor.Machine.States.{State, Kind, Event, Trigger, kind}
use order_processor.Machine.Context.{Work}
use order_processor.Machine.Actions as A
use order_processor.Machine.Entries.{on_entry, enter_state}
use order_processor.Machine.Handlers.{run_action, act}
use order_processor.Machine.Table.{transition_table}
use order_processor.Machine.Rows.{react-unhandled}
use order_processor.Machine.Dispatch.{
  State-discrete, Kind-discrete, candidates, Reaction, unhandled, moved, failed, try_rows, fire,
  react,
}
use order_processor.Machine.Standing.{status_of, is_started, is_active, book_steps, Fits, plain}

-- The events that the main zone of an accepted order does not take.
abbrev pub is_foreign : Kind → Bool
is_foreign Kind.order_rejected = false
is_foreign Kind.trade_execution = false
is_foreign Kind.trade_crct_cncl = false
is_foreign Kind.expired = false
is_foreign Kind.finished = false
is_foreign Kind.suspended = false
is_foreign Kind.new_day = false
is_foreign Kind.continue = false
is_foreign _ = true

table-own : All (λ r. (is_started r.source && is_foreign r.event) ≡ false) transition_table
unfolding transition_table
table-own = ground arith

pub foreign-unhandled :
    (s : State) (e : Event) (w : Work)
    → is_started s ≡ true
    → is_foreign (kind e.trigger) ≡ true
    → react s e w ≡ unhandled
foreign-unhandled s e w h g =
    react-unhandled (λ r. (is_started r.source && is_foreign r.event) ≡ false) s e w table-own
      (λ r p q f. cc)

-- The states in which the order can still be canceled or replaced.
abbrev pub is_waiting : State → Bool
is_waiting State.no_cnl_replace = true
is_waiting State.going_cancel = true
is_waiting State.going_replace = true
is_waiting _ = false

abbrev pub is_canceled : State → Bool
is_canceled State.cncl_replaced = true
is_canceled _ = false

table-waiting :
    All (λ r. (is_waiting r.source && not (is_foreign r.event)) ≡ false) transition_table
unfolding transition_table
table-waiting = ground arith

pub waiting-unhandled :
    (s : State) (e : Event) (w : Work)
    → is_waiting s ≡ true
    → is_foreign (kind e.trigger) ≡ false
    → react s e w ≡ unhandled
waiting-unhandled s e w h g =
    react-unhandled (λ r. (is_waiting r.source && not (is_foreign r.event)) ≡ false) s e w
      table-waiting (λ r p q f. cc)

is_open-status_of : (s : State) → A.is_open (status_of s) ≡ is_active s
is_open-status_of State.new = refl
is_open-status_of _ = refl

-- The book follows the cancel or the replacement; else nothing changes.
abbrev pub Canceled : Bool → Address → State → Work → Work → Type 0
Canceled true a z w w' =
    (book_steps a (is_active z) w'.operations ≡ some false) × (w'.book ≡ w.book) × (w'.posted ≡ [])
Canceled false a z w w' =
    Fits a z w'
    × (book_steps a (is_active z) w'.operations ≡ some (is_active z))
    × (w'.book ≡ w.book)

abbrev pub AfterCancel : Address → State → Work → Reaction → Type 0
AfterCancel a z w unhandled = Unit {0}
AfterCancel a z w (moved s' w') =
    ((is_waiting s' || is_canceled s') ≡ true) × Canceled (is_canceled s') a z w w'
AfterCancel a z w (failed w') = Fits a z w' × (w'.operations ≡ []) × (w'.book ≡ w.book)

module _ (a : Address) (z : State) (w : Work) (k : IdT) (b : Bool) (fresh : w.operations ≡ []) where
  pub cancel-After :
      (s : State) (t : Trigger)
      → Fits a z w
      → is_waiting s ≡ true
      → AfterCancel a z w (react s (plain t k b) w)
  unfolding react try_rows candidates transition_table State-discrete Kind-discrete fire run_action
      act on_entry enter_state book_steps A.leave_book
  cancel-After State.no_cnl_replace Trigger.cancel_received f h =
      ground (arith, ==-refl a, is_open-status_of z)
  cancel-After State.no_cnl_replace _ f h = ground (arith, ==-refl a, is_open-status_of z)
  cancel-After State.going_replace Trigger.exec_cancel f h =
      ground (arith, ==-refl a, is_open-status_of z)
  cancel-After State.going_replace _ f h = ground (arith, ==-refl a, is_open-status_of z)
  cancel-After State.going_cancel Trigger.exec_cancel f h =
      ground (arith, ==-refl a, is_open-status_of z)
  cancel-After State.going_cancel _ f h = ground (arith, ==-refl a, is_open-status_of z)
  cancel-After _ t f h = absurd (cc)
