-- ===== src/Matching/Outcome.antt =====
-- What `OrderMatcher::match` of src/OrderMatcher.cpp defers, on every branch.
use order_processor.Common.{
  ℕ, ◌-◌, ◌≤◌, min, ◌≡◌, refl, subst, ◌⊎◌, inl, inr, false, ◌&&◌, some, List, [], ◌∷◌, ◌++◌, ltb,
  ◌==◌, if◌then◌else◌, arith, All, Bool-cases,
}
use order_processor.Model.Ids.{IdT, is_valid_id}
use order_processor.Model.Order.{Order, is_buy}
use order_processor.Book.Side
use order_processor.Book.Side.{Entry, IsSorted, no_id}
use order_processor.Book.Defs as Book
use order_processor.Book.Defs.{Book, Group}
use order_processor.Store.Defs.{Address, Storage, locate_by_order_id}
use order_processor.Matching.Defs.{
  TradeParams, Deferred, execution, match_again, Result, ok, err, no_reference_price, trade_with,
  give_up_on, match_found, match_order, find_opposite, opposite,
}
use order_processor.Matching.Priority.{
  IsBacked, NotEligible, FirstEligible, opposite_direction, find-FirstEligible,
}

-- The entries that the order can trade with.
abbrev pub contra_entries : Order → Group → List Entry
contra_entries o g = if is_buy o.side then g.sells else g.buys

search_side :
    (o : Order) (s : Storage) (b : Book) (g : Group)
    → b.groups o.instrument.id ≡ some g
    → Book.find o.instrument.id (opposite o.side) (find_opposite o s) b
      ≡ Book.ok (Side.find (find_opposite o s) (contra_entries o g))
unfolding Book.find opposite
search_side o s b g e = ground arith

-- An id at the front of the backed entries is valid and stored.
IsBacked-middle :
    (s : Storage) (front : List Entry) (e : Entry) (back : List Entry)
    → All (IsBacked s) (front ++ e ∷ back)
    → IsBacked s e
IsBacked-middle s [] e back v = v.0
IsBacked-middle s (f ∷ front) e back v = IsBacked-middle s front e back v.1

abbrev pub Matched : Address → Storage → Group → Result (List Deferred) → Type 0
Matched a s g r =
    ((k : IdT) × (c : Address) × FirstEligible (s.cells a) s (contra_entries (s.cells a) g) k
      × (locate_by_order_id k s ≡ some c)
      × (r ≡ trade_with a c s))
    ⊎ (All (NotEligible (s.cells a) s) (contra_entries (s.cells a) g) × (r ≡ ok (give_up_on a s)))

pub invalid_none : is_valid_id no_id ≡ false
unfolding is_valid_id
invalid_none = refl

match_order_at :
    (a : Address) (s : Storage) (b : Book) (g : Group)
    → b.groups (s.cells a).instrument.id ≡ some g
    → match_order a s b
      ≡ match_found a (Side.find (find_opposite (s.cells a) s) (contra_entries (s.cells a) g)) s
unfolding match_order
match_order_at a s b g e = rw (search_side (s.cells a) s b g e, match_order)

-- For an order of a registered instrument, over a side in order whose entries stand for stored limit
-- orders, `match` trades with the first eligible order in the order of the side; if no order of the
-- side is eligible, it cancels a market order and leaves any other alone.
pub match_order-Matched :
    (a : Address) (s : Storage) (b : Book) (g : Group)
    → b.groups (s.cells a).instrument.id ≡ some g
    → IsSorted (opposite_direction (s.cells a)) (contra_entries (s.cells a) g)
    → All (IsBacked s) (contra_entries (s.cells a) g)
    → Matched a s g (match_order a s b)
unfolding match_found
match_order-Matched a s b g e f v =
    rw (match_order_at a s b g e)
      (elim (find-FirstEligible (s.cells a) s (contra_entries (s.cells a) g) f v) [
        | inl h ↦
            let w = IsBacked-middle s h.front h.entry h.back (subst (All (IsBacked s)) h.split v) in
            inl (_, w.address, h, rw h.result w.stored, ground (arith, h.result, w.stored, w.valid))
        | inr (n, z) ↦ inr (n, rw z (ground (arith, invalid_none)))
      ])

min_cases : (m n : ℕ) → (min m n ≡ m) ⊎ (min m n ≡ n)
min_cases m n = grind arith

-- A trade takes the smaller of what the two orders have left, so it fills one of them and overfills
-- none; it is at the price of the contra order; and matching goes on exactly if the order has
-- something left behind it. Only where neither order has a price is the match refused.
pub trade_with-fills :
    (a c : Address) (s : Storage)
    → let o = s.cells a in
      let contra = s.cells c in
      ((contra.price ≡ 0) × (o.price ≡ 0) × (trade_with a c s ≡ err no_reference_price))
      ⊎ ((t : TradeParams) × (rest : List Deferred) × (trade_with a c s
            ≡ ok (execution a (t ∷ []) ∷ rest))
          × (t.order ≡ c)
          × (t.last_px ≡ contra.price)
          × (t.last_qty ≤ o.leaves_qty)
          × (t.last_qty ≤ contra.leaves_qty)
          × ((t.last_qty ≡ o.leaves_qty) ⊎ (t.last_qty ≡ contra.leaves_qty))
          × (rest ≡ (if ltb contra.leaves_qty o.leaves_qty then match_again a ∷ [] else [])))
unfolding trade_with
trade_with-fills a c s = elim (Bool-cases ((s.cells c).price == 0 && (s.cells a).price == 0)) [
  | inl z ↦ inl (ground arith, ground arith, ground arith)
  | inr n ↦
      let qty = min (s.cells a).leaves_qty (s.cells c).leaves_qty in
      inr (
        record { last_qty = qty; last_px = (s.cells c).price; order = c },
        if ltb 0 ((s.cells a).leaves_qty - qty) then match_again a ∷ [] else [],
        ground arith,
        refl,
        refl,
        omega arith,
        omega arith,
        min_cases (s.cells a).leaves_qty (s.cells c).leaves_qty,
        ground arith,
      )
]
