-- ===== src/Machine/Trading.antt =====
-- What a trade of an order in the state New or PartFill changes, whether its fill goes through or throws.
use order_processor.Common.{
  ℕ, ◌≡◌, ◌≤◌, ◌-◌, refl, sym, subst, ◌∙◌, ap, Bool, true, false, ◌||◌, Option, none, some, is_some,
  [], arith, ==-refl, Bool-cases, inl, inr, ◌==◌, if◌then◌else◌,
}
use order_processor.Model.Ids.{IdT}
use order_processor.Model.Enums.{OrderStatus, filled_status, part_fill}
use order_processor.Model.Order.{Trade, apply_trade, add_execution}
use order_processor.Store.Defs as Store
use order_processor.Store.Defs.{Address}
use order_processor.Machine.States.{Reason, State, Event, Trigger}
use order_processor.Machine.Context.{
  Operation, add_operation, set_status, Work, Done, ok, threw, order_at, ◌>>=◌,
}
use order_processor.Machine.Actions as A
use order_processor.Machine.Entries.{on_entry, enter_state}
use order_processor.Machine.Handlers.{passed, is_complete, run_action, act, run_guard, judge_event}
use order_processor.Machine.Table.{transition_table}
use order_processor.Machine.Filling.{exec_id_of}
use order_processor.Machine.Dispatch.{
  by_verdict, State-discrete, Kind-discrete, candidates, Machine, Reaction, unhandled, moved,
  failed, try_rows, fire, arrive, react, in_zone1, in_zone2, both_zones, dispatch, dispatch_idle,
}
use order_processor.Machine.Standing.{is_active, plain, sold}

abbrev pub leaves : Address → Work → ℕ
leaves a w = (order_at a w).leaves_qty

-- A trade of the order at `a`, with the next id of the generator.
pub record Traded (t : Trade) (a : Address) (w w' : Work) : Type 0 where
  pub order : w'.order ≡ w.order
  pub idle : w'.posted ≡ w.posted
  pub now : w'.now ≡ w.now
  pub counter : w'.counter ≡ (Store.choose_id 0 w.now w.counter).1
  pub by_id : w'.storage.by_id ≡ w.storage.by_id
  pub fresh : w'.storage.fresh ≡ w.storage.fresh
  pub execs : (k : IdT) → (exec_id_of w == k) ≡ false → w'.executions k ≡ w.executions k
  pub left : (c : Address) → leaves c w' ≡ (if a == c then leaves a w - t.last_qty else leaves c w)

abbrev pub left_by : Done → Work
left_by (ok w) = w
left_by (threw w x) = w

-- No row of the table is for a trade and such a state.
pub react-inactive :
    (s : State) (u : Trade) (w : Work)
    → is_active s ≡ false
    → react s (plain (Trigger.trade_execution (some u)) 0 true) w ≡ unhandled
unfolding react try_rows candidates transition_table State-discrete Kind-discrete
react-inactive State.new u w h = absurd (cc h)
react-inactive State.part_fill u w h = absurd (cc h)
react-inactive State.rcvd_new u w h = refl
react-inactive _ u w h = refl

-- What a zone makes of the trade. An order with something left is in an active state behind it.
abbrev After : Trade → Address → Work → Reaction → Type 0
After t a w unhandled = ⊥
After t a w (moved s' w') = Traded t a w w' × ((is_active s' || (leaves a w' == 0)) ≡ true)
After t a w (failed w') = Traded t a w w'

leaves-set_status :
    (st : OrderStatus) (b c : Address) (w : Work) → leaves c (set_status st b w) ≡ leaves c w
leaves-set_status st b c w = ground arith

module _ (t : Trade) (a : Address) (w : Work)
    (new_id : is_some (w.executions (exec_id_of w)) ≡ false)
    (enough : t.last_qty ≤ leaves a w) where
  fill-Traded : Traded t a w (left_by (A.fill t a w))
  unfolding A.fill A.save_execution A.settle_fill apply_trade add_execution
  fill-Traded = record {
    order = ground arith;
    idle = ground arith;
    now = ground arith;
    counter = ground arith;
    by_id = ground arith;
    fresh = ground arith;
    execs = λ k h. ground arith;
    left = λ c. ground (arith, ==-refl a);
  }

  -- Entering the state sets the status, and adds an operation.
  reported-Traded :
      (st : OrderStatus) (op : Address → Operation) (w' : Work) (o : Option Address)
      → Traded t a w w'
      → Traded t a w (
          left_by (elim o [
            | none ↦ threw w' Reason.null_order
            | some b ↦ ok (add_operation (op b) (set_status st b w'))
          ]))
  reported-Traded st op w' none v = v
  reported-Traded st op w' (some b) v = record {
    order = v.order;
    idle = v.idle;
    now = v.now;
    counter = v.counter;
    by_id = v.by_id;
    fresh = v.fresh;
    execs = v.execs;
    left = λ c. leaves-set_status st b c w' ∙ v.left c;
  }

  filled-Traded :
      (k : IdT) (d : Done)
      → Traded t a w (left_by d)
      → Traded t a w (left_by (d >>= enter_state State.filled k (Trigger.trade_execution (some t))))
  unfolding enter_state
  filled-Traded k (ok w') v =
      reported-Traded filled_status (Operation.trade_report (some t) filled_status) w' w'.order v
  filled-Traded k (threw w' x) v = v

  part_filled-Traded :
      (k : IdT) (d : Done)
      → Traded t a w (left_by d)
      → Traded t a w
          (left_by (d >>= enter_state State.part_fill k (Trigger.trade_execution (some t))))
  unfolding enter_state
  part_filled-Traded k (ok w') v =
      reported-Traded part_fill (Operation.trade_report (some t) part_fill) w' w'.order v
  part_filled-Traded k (threw w' x) v = v

  arrive-After :
      (s' : State) (d : Done)
      → Traded t a w (left_by d)
      → (is_active s' || (leaves a w - t.last_qty == 0)) ≡ true
      → After t a w (arrive s' d)
  arrive-After s' (ok w') v h =
      (v, ap (λ n. is_active s' || (n == 0)) (v.left a ∙ rw (==-refl a) refl) ∙ h)
  arrive-After s' (threw w' x) v h = v

  sold-After : (k : IdT) → After t a w (sold k w t (some a))
  sold-After k =
      let e = Trigger.trade_execution (some t) in
      let full = arrive State.filled (A.fill t a w >>= enter_state State.filled k e) in
      let part = arrive State.part_fill (A.fill t a w >>= enter_state State.part_fill k e) in
      elim (Bool-cases (t.last_qty == leaves a w)) [
        | inl h ↦
            let q : is_complete (some t) (order_at a w) ≡ passed true = ground arith in
            subst (λ v. After t a w (by_verdict v full part w)) (sym q)
              (arrive-After State.filled (A.fill t a w >>= enter_state State.filled k e)
                (filled-Traded k (A.fill t a w) fill-Traded) (ground arith))
        | inr h ↦
            let q : is_complete (some t) (order_at a w) ≡ passed false = ground arith in
            subst (λ v. After t a w (by_verdict v full part w)) (sym q)
              (arrive-After State.part_fill (A.fill t a w >>= enter_state State.part_fill k e)
                (part_filled-Traded k (A.fill t a w) fill-Traded) refl)
      ]

  react-After :
      (s : State) (k : IdT) (b : Bool)
      → w.order ≡ some a
      → is_active s ≡ true
      → After t a w (react s (plain (Trigger.trade_execution (some t)) k b) w)
  unfolding react try_rows candidates transition_table State-discrete Kind-discrete fire run_action
      run_guard judge_event act on_entry
  react-After State.new k b o h = subst (λ o. After t a w (sold k w t o)) (sym o) (sold-After k)
  react-After State.part_fill k b o h =
      subst (λ o. After t a w (sold k w t o)) (sym o) (sold-After k)
  react-After _ k b o h = absurd (cc)

-- The machine after a trade.
pub record Sold (t : Trade) (a : Address) (m m' : Machine) : Type 0 where
  pub traded : Traded t a m.work m'.work
  pub zone2 : m'.zone2 ≡ m.zone2
  pub zone1 : (is_active m'.zone1 || (leaves a m'.work == 0)) ≡ true

both-Sold :
    (t : Trade) (a : Address) (m : Machine) (r : Reaction)
    → is_active m.zone2 ≡ false
    → is_active m.zone1 ≡ true
    → After t a m.work r
    → Sold t a m (in_zone1 r (plain (Trigger.trade_execution (some t)) 0 true) m)
both-Sold t a m unhandled k h v = absurd v
both-Sold t a m (failed w') k h v = record { traded = v; zone2 = refl; zone1 = ground arith }
both-Sold t a m (moved s' w') k h v =
    let n : Machine = record { zone1 = s'; zone2 = m.zone2; work = w' } in
    subst (Sold t a m) (sym (ap (λ r. in_zone2 r n) (react-inactive m.zone2 t w' k)))
      (record { traded = v.0; zone2 = refl; zone1 = v.1 })

module _ (process : Event → Machine → Machine)
    (documented : (e : Event) (m : Machine) → process e m ≡ dispatch e m) where
  -- A trade of an order in the state New or PartFill, within what is left of it and with a fresh
  -- execution id.
  pub process-Sold :
      (t : Trade) (a : Address) (m : Machine)
      → m.work.order ≡ some a
      → m.work.posted ≡ []
      → is_some (m.work.executions (exec_id_of m.work)) ≡ false
      → t.last_qty ≤ leaves a m.work
      → is_active m.zone1 ≡ true
      → is_active m.zone2 ≡ false
      → Sold t a m (process (plain (Trigger.trade_execution (some t)) 0 true) m)
  process-Sold t a m o i n l h k =
      let e = plain (Trigger.trade_execution (some t)) 0 true in
      let v =
        both-Sold t a m (react m.zone1 e m.work) k h
          (react-After t a m.work n l m.zone1 0 true o h) in
      let q : (both_zones e m).work.posted ≡ [] = unfold both_zones in (v.traded.idle ∙ i) in
      subst (Sold t a m) (sym (documented e m ∙ dispatch_idle e m q)) (unfold both_zones in v)
