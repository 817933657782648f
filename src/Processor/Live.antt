-- ===== src/Processor/Live.antt =====
-- Orders that can be traded, and what a trade of the processor in src/Processor.cpp does to them.
use order_processor.Common.{
  ℕ, ◌+◌, ◌-◌, ◌*◌, ◌^◌, ◌<◌, ◌≤◌, ◌≡◌, refl, sym, subst, ap, ◌∙◌, true, false, Option, none, some,
  is_some, [], arith, ==_iff, ◌==◌, if◌then◌else◌, Bool-cases, inl, inr, update,
}
use order_processor.Model.Ids.{IdT, date_limit, is_valid_id, get_id}
use order_processor.Store.Defs as Store
use order_processor.Store.Defs.{Address}
use order_processor.Matching.Defs.{TradeParams}
use order_processor.Machine.States.{Trigger, Event}
use order_processor.Machine.Context.{Work}
use order_processor.Machine.Standing.{is_active}
use order_processor.Machine.Filling.{exec_id_of}
use order_processor.Machine.Dispatch.{Machine, dispatch}
use order_processor.Machine.Trading.{leaves, Sold, process-Sold}
use order_processor.Processor.Desk.{
  Desk, Persistence, Fault, Step, ok, threw, set_persistance, get_persistence, event_of,
  process_event, save_state, run_machine,
}
use order_processor.Processor.Totals.{open_qty}
use order_processor.Processor.Deferred.{execute_trade, process_on, trade_of}

-- The state of an order that waits for trades.
abbrev pub IsTrading : Address → Persistence → Type 0
IsTrading c s = (s.order ≡ some c) × (is_active s.zone1 ≡ true) × (is_active s.zone2 ≡ false)

-- Every stored order with something left waits for trades, and the ids to come are not used yet.
pub record Live (d : Desk) : Type 0 where
  pub idle : d.machine.work.posted ≡ []
  pub ids :
      (k : IdT)
      → d.machine.work.counter * date_limit ≤ k
      → is_some (d.machine.work.executions k) ≡ false
  pub stored :
      (k : IdT) (c : Address)
      → d.machine.work.storage.by_id k ≡ some c
      → c < d.machine.work.storage.fresh
  pub trading :
      (k : IdT) (c : Address)
      → d.machine.work.storage.by_id k ≡ some c
      → 0 < open_qty d c
      → IsTrading c (d.states c)

-- A call that takes at most `n` ids and adds no event, and after which nothing more is left of an order.
pub record Runs (n : ℕ) (d d' : Desk) : Type 0 where
  pub live : Live d'
  pub by_id : d'.machine.work.storage.by_id ≡ d.machine.work.storage.by_id
  pub fresh : d'.machine.work.storage.fresh ≡ d.machine.work.storage.fresh
  pub counter : d'.machine.work.counter ≤ d.machine.work.counter + n
  pub shrinks : (c : Address) → open_qty d' c ≤ open_qty d c
  pub deferred : d'.deferred ≡ d.deferred

pub Runs-trans : (m n : ℕ) (d e f : Desk) → Runs m d e → Runs n e f → Runs (m + n) d f
Runs-trans m n d e f r s = record {
  live = s.live;
  by_id = s.by_id ∙ r.by_id;
  fresh = s.fresh ∙ r.fresh;
  counter = omega (arith, r.counter, s.counter);
  shrinks = λ c. omega (arith, r.shrinks c, s.shrinks c);
  deferred = s.deferred ∙ r.deferred;
}

-- The next id of the generator.
next_id-lem :
    (w : Work)
    → w.counter + 1 < 2 ^ 64
    → ((Store.choose_id 0 w.now w.counter).1 ≡ w.counter + 1)
      × (w.counter * date_limit ≤ exec_id_of w)
      × (exec_id_of w < (w.counter + 1) * date_limit)
unfolding Store.choose_id is_valid_id get_id
next_id-lem w h = (omega arith, omega arith, omega arith)

pub save_state-at :
    (d : Desk) (c : Address)
    → d.machine.work.order ≡ some c
    → save_state d ≡ ok (record d { states = update d.states c (get_persistence d) })
unfolding save_state
save_state-at d c h =
    let f : Option Address → Step = λ o. elim o [
      | none ↦ threw Fault.null_state d
      | some b ↦ ok (record d { states = update d.states b (get_persistence d) })
    ] in
    ap f h

module _ (process : Event → Machine → Machine)
    (documented : (e : Event) (m : Machine) → process e m ≡ dispatch e m) where
  module _ (p : TradeParams) (k : IdT) (d : Desk) (v : Live d)
      (stored : d.machine.work.storage.by_id k ≡ some p.order) (pos : 0 < open_qty d p.order)
      (enough : p.last_qty ≤ open_qty d p.order) (room : d.machine.work.counter + 1 < 2 ^ 64) where
    ready : Machine
    unfolding set_persistance
    ready = (set_persistance (d.states p.order) d).machine

    done : Machine
    unfolding ready
    done = process (event_of (Trigger.trade_execution (some (trade_of p d)))) ready

    sold : Sold (trade_of p d) p.order ready done
    unfolding done ready set_persistance
    sold =
        let (o, a, b) = v.trading k p.order stored pos in
        process-Sold process documented (trade_of p d) p.order ready o v.idle
          (v.ids (exec_id_of d.machine.work) (next_id-lem d.machine.work room).1) enough a b

    desk_after : Desk
    unfolding done
    desk_after = record d {
      machine = done;
      states =
          update d.states p.order
            (record { order = done.work.order; zone1 = done.zone1; zone2 = done.zone2 });
    }

    execute_trade-ok : execute_trade process p d ≡ ok desk_after
    unfolding execute_trade process_on run_machine desk_after done ready set_persistance
        get_persistence
    execute_trade-ok =
        save_state-at
          (process_event process (event_of (Trigger.trade_execution (some (trade_of p d))))
            (set_persistance (d.states p.order) d))
          p.order (sold.traded.order ∙ (v.trading k p.order stored pos).0)

    left_after :
        (c : Address)
        → open_qty desk_after c
          ≡ (if p.order == c then open_qty d p.order - p.last_qty else open_qty d c)
    unfolding desk_after ready set_persistance
    left_after c = sold.traded.left c

    next_counter : done.work.counter ≡ d.machine.work.counter + 1
    unfolding ready set_persistance
    next_counter = sold.traded.counter ∙ (next_id-lem d.machine.work room).0

    shrunk : (c : Address) → open_qty desk_after c ≤ open_qty d c
    shrunk c = ground (arith, left_after c, ==_iff p.order c)

    ids_after :
        (j : IdT) → done.work.counter * date_limit ≤ j → is_some (done.work.executions j) ≡ false
    unfolding ready set_persistance
    ids_after j h =
        let n = next_id-lem d.machine.work room in
        let far : (exec_id_of d.machine.work == j) ≡ false = ground (arith, next_counter) in
        ap is_some (sold.traded.execs j far) ∙ v.ids j (omega (arith, next_counter))

    done-IsTrading :
        (j : IdT) (c : Address)
        → done.work.storage.by_id j ≡ some c
        → 0 < open_qty desk_after c
        → IsTrading c (desk_after.states c)
    unfolding desk_after ready set_persistance
    done-IsTrading j c h l =
        let s : Persistence = record {
          order = done.work.order;
          zone1 = done.zone1;
          zone2 = done.zone2;
        } in
        elim (Bool-cases (p.order == c)) [
          | inl e ↦
              let q = (==_iff p.order c).0 e in
              let (o, _, z) = v.trading k p.order stored pos in
              let some_left : 0 < leaves p.order done.work =
                subst (λ b. 0 < leaves b done.work) (sym q) l in
              subst (IsTrading c) (sym (ap (λ b. if b then s else d.states c) e)) (
                sold.traded.order ∙ o ∙ ap some q,
                ground (arith, sold.zone1),
                ap is_active sold.zone2 ∙ z,
              )
          | inr e ↦ subst (IsTrading c) (sym (ap (λ b. if b then s else d.states c) e)) (
              v.trading j c (sym (ap (λ b. b j) sold.traded.by_id) ∙ h)
                (ground (arith, left_after c)))
        ]

    desk_after-Live : Live desk_after
    unfolding desk_after ready set_persistance
    desk_after-Live = record {
      idle = sold.traded.idle ∙ v.idle;
      ids = ids_after;
      stored = λ j c h.
          let e = v.stored j c (sym (ap (λ b. b j) sold.traded.by_id) ∙ h) in
          omega (arith, sold.traded.fresh, e);
      trading = done-IsTrading;
    }

    -- The trade is made, and less is left of the order.
    pub execute_trade-Runs :
        (d' : Desk) × (execute_trade process p d ≡ ok d')
        × Runs 1 d d'
        × ((c : Address)
            → open_qty d' c
              ≡ (if p.order == c then open_qty d p.order - p.last_qty else open_qty d c))
    unfolding desk_after ready set_persistance
    execute_trade-Runs = (
      desk_after,
      execute_trade-ok,
      record {
        live = desk_after-Live;
        by_id = sold.traded.by_id;
        fresh = sold.traded.fresh;
        counter = omega (arith, next_counter);
        shrinks = shrunk;
        deferred = refl;
      },
      left_after,
    )
