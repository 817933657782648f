-- ===== src/Processor/Trades.antt =====
-- The trades of a match, as `execute` in src/Processor.cpp makes them.
use order_processor.Common.{
  ℕ, ◌+◌, ◌-◌, ◌/◌, ◌^◌, ◌<◌, ◌≤◌, ◌≡◌, refl, ap, ◌∙◌, false, some, [], ◌∷◌, arith, ◌==◌, ==_iff,
  ==-refl, ltb, Bool-cases, inl, inr,
}
use order_processor.Model.Ids.{IdT}
use order_processor.Store.Defs.{Address}
use order_processor.Matching.Defs.{TradeParams}
use order_processor.Machine.States.{Event}
use order_processor.Machine.Dispatch.{Machine, dispatch}
use order_processor.Processor.Desk.{Desk, ok, ◌>>=◌}
use order_processor.Processor.Deferred.{Total, no_total, count_trade, execute_trades, execute_base}
use order_processor.Processor.Live.{Live, Runs, Runs-trans, execute_trade-Runs}
use order_processor.Processor.Totals.{open_qty}

module _ (process : Event → Machine → Machine)
    (documented : (e : Event) (m : Machine) → process e m ≡ dispatch e m) where
  -- The trade of the base order, if the other trade was counted.
  base-Runs :
      (j : IdT) (a : Address) (n : ℕ) (t : Total) (d : Desk)
      → Live d
      → d.machine.work.storage.by_id j ≡ some a
      → 0 < open_qty d a
      → t.qty ≤ open_qty d a
      → d.machine.work.counter + 1 < 2 ^ 64
      → (d' : Desk) × (execute_base process a t d ≡ ok d') × Runs 1 d d'
  unfolding execute_base
  base-Runs j a n t d v s l q c = elim (Bool-cases (ltb 0 t.qty)) [
    | inr h ↦ (
      d,
      rw h refl,
      record {
        live = v;
        by_id = refl;
        fresh = refl;
        counter = omega arith;
        shrinks = λ b. omega arith;
        deferred = refl;
      },
    )
    | inl h ↦
        let p : TradeParams = record { last_qty = t.qty; last_px = t.px / t.qty; order = a } in
        let (d', e, r, _) = execute_trade-Runs process documented p j d v s l q c in (d', rw h e, r)
  ]

  -- Both trades of a match. The other order is filled.
  pub trades-Runs :
      (j k : IdT) (a : Address) (t : TradeParams) (d : Desk)
      → Live d
      → d.machine.work.storage.by_id j ≡ some a
      → d.machine.work.storage.by_id k ≡ some t.order
      → 0 < t.last_qty
      → t.last_qty ≡ open_qty d t.order
      → t.last_qty < open_qty d a
      → d.machine.work.counter + 2 < 2 ^ 64
      → (d' : Desk) × (execute_trades process a (t ∷ []) no_total d ≡ ok d')
        × Runs 2 d d'
        × (open_qty d' t.order < open_qty d t.order)
  unfolding execute_trades
  trades-Runs j k a t d v sa sc l q o c =
      let (d1, e1, r1, f1) =
        execute_trade-Runs process documented t k d v sc (omega (arith, q)) (omega (arith, q))
          (omega arith) in
      let other : (t.order == a) ≡ false = elim (Bool-cases (t.order == a)) [
        | inl e ↦ absurd (omega (arith, ap (open_qty d) ((==_iff t.order a).0 e)))
        | inr e ↦ e
      ] in
      let gone : open_qty d1 t.order ≡ open_qty d t.order - t.last_qty =
        f1 t.order ∙ rw (==-refl t.order) refl in
      let same : open_qty d1 a ≡ open_qty d a = f1 a ∙ rw other refl in
      let t' = count_trade t (open_qty d t.order) d1 no_total in
      let (d2, e2, r2) =
        base-Runs j a 0 t' d1 r1.live (ap (λ m. m j) r1.by_id ∙ sa) (omega (arith, same))
          (ground (arith, same)) (omega (arith, r1.counter)) in
      (
        d2,
        ap
              (λ r. r >>= λ d'.
                execute_base process a (count_trade t (open_qty d t.order) d' no_total) d')
              e1
            ∙ e2,
        Runs-trans 1 1 d d1 d2 r1 r2,
        omega (arith, gone, r2.shrinks t.order),
      )
