-- ===== src/Machine/Receiving.antt =====
-- The first event of an order, `onOrderReceived`: accepted or rejected.
use order_processor.Common.{
  ◌≡◌, refl, ap, sym, subst, ◌∙◌, inl, inr, Bool, true, Option, none, some, List, [], ◌∷◌, ◌++◌,
  arith, ==-refl, if◌then◌else◌, Option-cases, is_some,
}
use mathlib.Core.List.{append_assoc}
use order_processor.Model.Ids.{IdT}
use order_processor.Model.Enums as E
use order_processor.Model.Order.{Order, is_market}
use order_processor.Model.Validity.{check_order}
use order_processor.Store.Defs as Store
use order_processor.Store.Defs.{Address}
use order_processor.Machine.States.{State, Event, Trigger, Reason}
use order_processor.Machine.Context.{Operation, Work, Done, ok, threw, order_at, ◌>>=◌}
use order_processor.Machine.Actions as A
use order_processor.Machine.Entries.{on_entry, enter_state}
use order_processor.Machine.Handlers.{run_action, act, catching}
use order_processor.Machine.Table.{transition_table}
use order_processor.Machine.Dispatch.{
  State-discrete, Kind-discrete, candidates, Machine, try_rows, fire, arrive, react, in_zone1,
  both_zones, drain, idle, dispatch, dispatch_idle,
}
use order_processor.Machine.Standing.{plain}

-- The operations that match an order, and put a limit order into the book.
abbrev pub opening : Address → Order → List Operation
opening a o =
    Operation.match_order a
    ∷ (if is_market o.ord_type then [] else Operation.add_to_order_book a o.instrument.id ∷ [])

-- What `processReceive` makes of an order: a stored copy that is New, or an exception that has added
-- no operation.
abbrev pub Received : Address → Work → Done → Type 0
Received a w (ok w') =
    (check_order (order_at a w) ≡ none)
    × (w'.order ≡ some w.storage.fresh)
    × ((order_at w.storage.fresh w').status ≡ E.new_status)
    × (w'.operations ≡ w.operations ++ opening w.storage.fresh (order_at a w))
    × (w'.posted ≡ w.posted)
    × (w'.book ≡ w.book)
Received a w (threw w' x) =
    (w'.operations ≡ w.operations) × (w'.posted ≡ w.posted) × (w'.book ≡ w.book)

pub receive-Received : (a : Address) (w : Work) → Received a w (A.receive_order a w)
unfolding A.receive_order A.require_valid A.save_order A.require_market A.match_and_add Store.save
    Store.enter
receive-Received a w = ground (
  arith,
  ==-refl w.storage.fresh,
  append_assoc w.operations (Operation.match_order w.storage.fresh ∷ [])
      (Operation.add_to_order_book w.storage.fresh (order_at a w).instrument.id ∷ []),
)

-- A rejection always goes through, and has an order.
abbrev Refused : Work → Done → Type 0
Refused w (ok w') =
    (is_some w'.order ≡ true)
    × (w'.operations ≡ w.operations)
    × (w'.posted ≡ w.posted)
    × (w'.book ≡ w.book)
Refused w (threw w' x) = ⊥

reject_received-Refused : (a : Address) (w : Work) → Refused w (A.reject_received a w)
unfolding A.reject_received A.save_order
reject_received-Refused a w = ground arith

abbrev start : Work → Machine
start w = record { zone1 = State.rcvd_new; zone2 = State.no_cnl_replace; work = w }

-- The one report of a rejection, about the order of the machine.
abbrev pub Rejected : Reason → Work → Option Address → Type 0
Rejected x w none = ⊥
Rejected x w (some b) =
    ((order_at b w).status ≡ E.rejected_status)
    × (w.operations ≡ Operation.reject_report x E.rejected_status b ∷ [])

-- Accepted with the status New and one report, or rejected with one report and nothing else to do.
abbrev pub Answered : Address → Work → Machine → Done → Type 0
Answered a w m (ok w') =
    (m.zone1 ≡ State.new)
    × (check_order (order_at a w) ≡ none)
    × (m.work.order ≡ some w.storage.fresh)
    × ((order_at w.storage.fresh m.work).status ≡ E.new_status)
    × (m.work.operations
        ≡ opening w.storage.fresh (order_at a w)
          ++ Operation.exec_report E.new_status E.new_exec w.storage.fresh ∷ [])
    × (m.work.posted ≡ [])
Answered a w m (threw w' x) =
    (m.zone1 ≡ State.rejected) × Rejected x m.work m.work.order × (m.work.posted ≡ [])

abbrev Clean : Work → Type 0
Clean w = (w.operations ≡ []) × (w.posted ≡ [])

-- What both zones make of an order that is received.
abbrev received : Address → IdT → Bool → Work → Done → Machine
received a k b w d =
    in_zone1
      (arrive State.new (
        catching (plain (Trigger.order_received a) k b) (Trigger.recv_order_rejected a) d
        >>= enter_state State.new k (Trigger.order_received a)))
      (plain (Trigger.order_received a) k b) (start w)

both-received :
    (a : Address) (k : IdT) (b : Bool) (w : Work)
    → both_zones (plain (Trigger.order_received a) k b) (start w)
      ≡ received a k b w (A.receive_order a w)
unfolding both_zones react try_rows candidates transition_table State-discrete Kind-discrete fire
    run_action act on_entry
both-received a k b w = refl

abbrev refused : Address → IdT → Bool → Reason → Work → Done → Machine
refused a k b x w d =
    in_zone1
      (arrive State.rejected (d >>= enter_state State.rejected k (Trigger.recv_order_rejected a x)))
      (plain (Trigger.recv_order_rejected a x) k b) (start w)

both-refused :
    (a : Address) (k : IdT) (b : Bool) (x : Reason) (w : Work)
    → both_zones (plain (Trigger.recv_order_rejected a x) k b) (start w)
      ≡ refused a k b x w (A.reject_received a w)
unfolding both_zones react try_rows candidates transition_table State-discrete Kind-discrete fire
    run_action act on_entry
both-refused a k b x w = refl

enters-new :
    (a : Address) (k : IdT) (b : Bool) (w w' : Work)
    → Clean w
    → Received a w (ok w')
    → Answered a w (received a k b w (ok w')) (ok w')
unfolding react try_rows candidates transition_table State-discrete Kind-discrete enter_state
enters-new a k b w w' c (v, o, s, p, i, g) = ground (arith, ==-refl w.storage.fresh)

enters-rejected :
    (a : Address) (k : IdT) (b : Bool) (x : Reason) (w : Work) (d : Done)
    → Clean w
    → Refused w d
    → Rejected x (refused a k b x w d).work (refused a k b x w d).work.order
      × ((refused a k b x w d).zone1 ≡ State.rejected)
      × ((refused a k b x w d).work.posted ≡ [])
unfolding react try_rows candidates transition_table State-discrete Kind-discrete enter_state
enters-rejected a k b x w (ok w') c (o, p, i, g) = elim (Option-cases w'.order) [
  | inl h ↦ absurd (cc)
  | inr (a', h) ↦ rw h (ground (arith, ==-refl a'))
]
enters-rejected a k b x w (threw w' y) c h = absurd h

-- The rejection that waits.
drained :
    (a : Address) (k : IdT) (b : Bool) (w : Work) (d : Done)
    → Clean w
    → Received a w d
    → A.receive_order a w ≡ d
    → Answered a w (dispatch (plain (Trigger.order_received a) k b) (start w)) d
unfolding dispatch drain
drained a k b w (ok w') c r q =
    let e = plain (Trigger.order_received a) k b in
    let both : both_zones e (start w) ≡ received a k b w (ok w') =
      both-received a k b w ∙ ap (received a k b w) q in
    let h = enters-new a k b w w' c r in
    subst (λ m. Answered a w m (ok w'))
      (sym (dispatch_idle e (start w) (ap (λ m. m.work.posted) both ∙ h.5) ∙ both)) h
drained a k b w (threw w' x) c r q =
    let e = plain (Trigger.order_received a) k b in
    let e' = plain (Trigger.recv_order_rejected a x) k b in
    let w'' = record w' { posted = [] } in
    let after : dispatch e (start w) ≡ refused a k b x w'' (A.reject_received a w'') =
      ap (λ m. drain m.work.posted (idle m)) (both-received a k b w ∙ ap (received a k b w) q)
      ∙ ap (λ ps. drain (ps ++ e' ∷ []) (start w'')) (r.1 ∙ c.1)
      ∙ both-refused a k b x w'' in
    let (h, i, j) =
      enters-rejected a k b x w'' (A.reject_received a w'') (r.0 ∙ c.0, refl)
        (reject_received-Refused a w'') in
    subst (λ m. Answered a w m (threw w' x)) (sym after) (i, h, j)

module _ (process : Event → Machine → Machine)
    (documented : (e : Event) (m : Machine) → process e m ≡ dispatch e m) where
  -- A new machine, with no operation and no event waiting, receives an order that is no test of the table.
  -- It goes to New or to Rejected, and no event is left waiting. It goes
  -- to New exactly if `processReceive` throws nothing, which takes an order that `isValid` accepts: then the
  -- stored copy has the status New, and the operations match it, put it into the book unless it is a
  -- market order, and report it. Otherwise the order of the machine has the status Rejected, and the one
  -- operation is its report, with the exception as the reason. The dispatch of Boost MSM is that of its
  -- documentation.
  pub process-Answered :
      (a : Address) (k : IdT) (b : Bool) (w : Work)
      → w.operations ≡ []
      → w.posted ≡ []
      → Answered a w
          (process
            (plain (Trigger.order_received a) k b)
            (record { zone1 = State.rcvd_new; zone2 = State.no_cnl_replace; work = w }))
          (A.receive_order a w)
  process-Answered a k b w o p =
      subst (λ m. Answered a w m (A.receive_order a w))
        (sym (documented (plain (Trigger.order_received a) k b) (start w)))
        (drained a k b w (A.receive_order a w) (o, p) (receive-Received a w) refl)
