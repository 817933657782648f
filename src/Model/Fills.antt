-- ===== src/Model/Fills.antt =====
-- `OrderParams::applyTrade` of src/DataModelDef.cpp over a sequence of trades.
use order_processor.Common.{
  ℕ, ◌+◌, ◌<◌, ◌≡◌, refl, ◌∙◌, ap, sym, inl, inr, Option, none, some, List, [], ◌∷◌, ◌++◌, arith,
  Option-cases,
}
use mathlib.Core.List.{append-nil, append_assoc}
use order_processor.Model.Ids.{IdT}
use order_processor.Model.Order.{Order, Trade, qty_limit, apply_trade, add_execution}

-- The trades of an order one after the other; the first exception ends them.
unfoldable pub apply_trades : List Trade → Order → Option Order
apply_trades [] o = some o
apply_trades (t ∷ ts) o = elim (apply_trade t o) [ none ↦ none | some o' ↦ apply_trades ts o' ]

abbrev pub total_qty : List Trade → ℕ
total_qty [] = 0
total_qty (t ∷ ts) = t.last_qty + total_qty ts

abbrev pub exec_ids : List Trade → List IdT
exec_ids [] = []
exec_ids (t ∷ ts) = t.exec_id ∷ exec_ids ts

-- The order as it was before its fills.
abbrev pub unfilled : Order → Order → Order
unfilled o o' = record o' {
  leaves_qty = o.leaves_qty;
  cum_qty = o.cum_qty;
  executions = o.executions;
}

abbrev pub Filled : List Trade → Order → Option Order → Type 0
Filled ts o none = o.leaves_qty < total_qty ts
Filled ts o (some o') =
    (o'.leaves_qty + total_qty ts ≡ o.leaves_qty)
    × (o'.cum_qty ≡ o.cum_qty + total_qty ts)
    × (o'.executions ≡ o.executions ++ exec_ids ts)
    × (unfilled o o' ≡ o)

apply_trade-Filled :
    (t : Trade) (o : Order)
    → o.leaves_qty + o.cum_qty < qty_limit
    → Filled (t ∷ []) o (apply_trade t o)
unfolding apply_trade add_execution
apply_trade-Filled t o h = ground arith

Filled-cons :
    (t : Trade) (ts : List Trade) (o o' : Order) (r : Option Order)
    → Filled (t ∷ []) o (some o')
    → Filled ts o' r
    → Filled (t ∷ ts) o r
Filled-cons t ts o o' none f g = omega (arith, f.0)
Filled-cons t ts o o' (some o'') f g = (
  omega (arith, f.0, g.0),
  omega (arith, f.1, g.1),
  g.2 ∙ ap (λ es. es ++ exec_ids ts) f.2 ∙ append_assoc o.executions (t.exec_id ∷ []) (exec_ids ts),
  ap (unfilled o) g.3 ∙ f.3,
)

-- Where the open and the filled quantity of an order together fit into 32 bits, its trades all apply
-- exactly if their total is at most the open quantity. Then the total moved from the open to the
-- filled quantity, the executions joined the order's in their order, and nothing else changed.
pub apply_trades-Filled :
    (ts : List Trade) (o : Order)
    → o.leaves_qty + o.cum_qty < qty_limit
    → Filled ts o (apply_trades ts o)
unfolding apply_trades
apply_trades-Filled [] o h = (omega arith, omega arith, sym (append-nil o.executions), refl)
apply_trades-Filled (t ∷ ts) o h = elim (Option-cases (apply_trade t o)) [
  | inl e ↦ rw (e, apply_trades) (ground (arith, apply_trade-Filled t o h))
  | inr (o', e) ↦
      let f : Filled (t ∷ []) o (some o') = rw e at (apply_trade-Filled t o h) in
      rw (e, apply_trades)
        (Filled-cons t ts o o' _ f (apply_trades-Filled ts o' (omega (arith, f.0, f.1))))
]
