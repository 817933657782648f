-- ===== src/Machine/Unfilled.antt =====
-- The last fill of an order that the book does not hold, as it does not hold a market order.
use order_processor.Common.{◌≡◌, sym, subst, ◌∙◌, Bool, true, false, some, [], arith, is_some}
use order_processor.Model.Ids.{IdT}
use order_processor.Model.Order.{Trade}
use order_processor.Store.Defs.{Address}
use order_processor.Book.Defs as Book
use order_processor.Machine.States.{State, Event, Trigger}
use order_processor.Machine.Context.{Work, Done, ok, threw, order_at, ◌>>=◌}
use order_processor.Machine.Actions as A
use order_processor.Machine.Entries.{on_entry, enter_state}
use order_processor.Machine.Handlers.{run_action, act, run_guard, judge_event}
use order_processor.Machine.Table.{transition_table}
use order_processor.Machine.Filling.{Filled, Kept, traded, exec_id_of, fill-Filled, remove-traded}
use order_processor.Machine.Dispatch.{
  State-discrete, Kind-discrete, candidates, Machine, Reaction, unhandled, moved, failed, try_rows,
  fire, arrive, react, in_zone1, both_zones, dispatch, dispatch_idle,
}
use order_processor.Machine.Standing.{is_active, plain, sold}

-- The trade is applied, and nothing else happens.
abbrev pub Stuck : Trade → Address → Work → Reaction → Type 0
Stuck t a w unhandled = ⊥
Stuck t a w (moved s w') = ⊥
Stuck t a w (failed w') =
    Kept w w'
    × (order_at a w' ≡ traded (exec_id_of w) t (order_at a w))
    × ((order_at a w').leaves_qty ≡ 0)

module _ (t : Trade) (a : Address) (w : Work) (k : IdT) (b : Bool) (order : w.order ≡ some a)
    (new_id : is_some (w.executions (exec_id_of w)) ≡ false)
    (all : t.last_qty ≡ (order_at a w).leaves_qty) (x : Book.BookError)
    (absent : Book.remove (order_at a w) w.book ≡ Book.err x) where
  fill-Stuck :
      (s : State) (d : Done)
      → Filled t a w d
      → Stuck t a w (arrive s (d >>= enter_state s k (Trigger.trade_execution (some t))))
  fill-Stuck s (ok w') (e, n, r) =
      absurd (ground (arith, remove-traded (exec_id_of w) t (order_at a w) w.book))
  fill-Stuck s (threw w' y) h = ground arith

  sold-Stuck : Stuck t a w (sold k w t (some a))
  sold-Stuck =
      let h = fill-Stuck State.filled (A.fill t a w) (fill-Filled t a w (omega arith)) in
      ground arith

  react-Stuck :
      (s : State)
      → is_active s ≡ true
      → Stuck t a w (react s (plain (Trigger.trade_execution (some t)) k b) w)
  unfolding react try_rows candidates transition_table State-discrete Kind-discrete fire run_action
      run_guard judge_event act on_entry
  react-Stuck State.new h = subst (λ o. Stuck t a w (sold k w t o)) (sym order) sold-Stuck
  react-Stuck State.part_fill h = subst (λ o. Stuck t a w (sold k w t o)) (sym order) sold-Stuck
  react-Stuck _ h = absurd (cc)

  module _ (process : Event → Machine → Machine)
      (documented : (e : Event) (m : Machine) → process e m ≡ dispatch e m)
      (idle : w.posted ≡ []) where
    failed_zone :
        (s z : State) (r : Reaction)
        → Stuck t a w r
        → let m =
            in_zone1 r
              (plain (Trigger.trade_execution (some t)) k b)
              (record { zone1 = s; zone2 = z; work = w }) in
          (m.zone1 ≡ s)
          × (m.zone2 ≡ z)
          × ((order_at a m.work).leaves_qty ≡ 0)
          × ((order_at a m.work).status ≡ (order_at a w).status)
          × (m.work.operations ≡ w.operations)
          × (m.work.posted ≡ [])
    failed_zone s z unhandled h = absurd h
    failed_zone s z (moved z' w') h = absurd h
    failed_zone s z (failed w') h = ground arith

    -- An order in the state New or PartFill that the book does not hold gets a trade of all
    -- that is left, with a fresh execution id and no event waiting: then nothing of the order
    -- is left, but both zones, the status and the operations stay as they were. The dispatch of
    -- Boost MSM is that of its documentation.
    pub process-Stuck :
        (s z : State)
        → is_active s ≡ true
        → let m =
            process
              (plain (Trigger.trade_execution (some t)) k b)
              (record { zone1 = s; zone2 = z; work = w }) in
          (m.zone1 ≡ s)
          × (m.zone2 ≡ z)
          × ((order_at a m.work).leaves_qty ≡ 0)
          × ((order_at a m.work).status ≡ (order_at a w).status)
          × (m.work.operations ≡ w.operations)
    unfolding both_zones
    process-Stuck s z h =
        let e = plain (Trigger.trade_execution (some t)) k b in
        let m : Machine = record { zone1 = s; zone2 = z; work = w } in
        let (c, d, f, g, i, j) = failed_zone s z (react s e w) (react-Stuck s h) in
        let q = documented e m ∙ dispatch_idle e m j in
        subst
          (λ m'.
            (m'.zone1 ≡ s)
            × (m'.zone2 ≡ z)
            × ((order_at a m'.work).leaves_qty ≡ 0)
            × ((order_at a m'.work).status ≡ (order_at a w).status)
            × (m'.work.operations ≡ w.operations))
          (sym q) (c, d, f, g, i)
