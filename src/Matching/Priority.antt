-- ===== src/Matching/Priority.antt =====
-- Which contra order `OrderMatcher::match` trades with, and for how much: src/OrderMatcher.cpp.
use order_processor.Common.{
  ℕ, ◌≡◌, ◌⊎◌, inl, inr, Bool, true, false, ◌||◌, ◌&&◌, not, none, some, List, [], ◌∷◌, ◌++◌, ◌==◌,
  if◌then◌else◌, arith, All,
}
use order_processor.Model.Ids.{IdT, is_valid_id}
use order_processor.Model.Order.{Order, is_market, is_buy}
use order_processor.Book.Side.{
  Entry, Direction, ascend, descend, before, no_id, find, From, IsSorted,
}
use order_processor.Book.Sorted.{From-IsSorted}
use order_processor.Book.Search.{Passes, NoneTaken, find-first}
use order_processor.Store.Defs.{Address, Storage, locate_by_order_id}
use order_processor.Matching.Defs.{find_opposite, crosses, located}

-- An order can trade with another: it has something left, and the limits meet.
unfoldable pub is_eligible : Order → Order → Bool
is_eligible o contra =
    not (contra.leaves_qty == 0)
    && (is_market o.ord_type || (is_market contra.ord_type || crosses o contra.price))

-- An entry of the book stands for a stored limit order, under its price.
pub record IsBacked (s : Storage) (e : Entry) : Type 0 where
  pub valid : is_valid_id e.id ≡ true
  pub address : Address
  pub stored : locate_by_order_id e.id s ≡ some address
  pub same_price : (s.cells address).price ≡ e.price
  pub limit : is_market (s.cells address).ord_type ≡ false

-- The order in which the opposite side is kept.
abbrev pub opposite_direction : Order → Direction
opposite_direction o = if is_buy o.side then ascend else descend

abbrev pub eligible_entry : Order → Storage → Entry → Bool
eligible_entry o s e = elim (located s e.id) [ none ↦ false | some c ↦ is_eligible o c ]

abbrev pub NotEligible : Order → Storage → Entry → Type 0
NotEligible o s e = eligible_entry o s e ≡ false

taken-eligible :
    (o : Order) (s : Storage) (k : IdT)
    → (find_opposite o s k).taken ≡ (elim (located s k) [ none ↦ false | some c ↦ is_eligible o c ])
unfolding find_opposite is_eligible
taken-eligible o s k = ground arith

-- A search stops only at a limit order whose price does not meet that of a limit order.
stop-crosses :
    (o : Order) (s : Storage) (e : Entry)
    → IsBacked s e
    → (find_opposite o s e.id).stop ≡ true
    → (is_market o.ord_type ≡ false) × (crosses o e.price ≡ false)
unfolding find_opposite
stop-crosses o s e v h = ground (arith, v.stored, v.same_price)

not_eligible :
    (o : Order) (s : Storage) (e : Entry)
    → is_market o.ord_type ≡ false
    → crosses o e.price ≡ false
    → IsBacked s e
    → NotEligible o s e
unfolding is_eligible
not_eligible o s e m c v = ground (arith, v.stored, v.same_price, v.limit)

crosses_beyond :
    (o : Order) (r p : ℕ)
    → crosses o r ≡ false
    → before (opposite_direction o) p r ≡ false
    → crosses o p ≡ false
crosses_beyond o r p c f = ground arith

-- Behind an entry whose price does not meet the limit there is none whose price does.
none_beyond :
    (o : Order) (s : Storage) (r : ℕ) (es : List Entry)
    → is_market o.ord_type ≡ false
    → crosses o r ≡ false
    → From (opposite_direction o) r es
    → All (IsBacked s) es
    → All (NotEligible o s) es
none_beyond o s r [] m c f v = tt
none_beyond o s r (e ∷ es) m c f v =
    let c' = crosses_beyond o r e.price c f.0 in
    (not_eligible o s e m c' v.0, none_beyond o s e.price es m c' f.1 v.1)

-- A search that takes nothing has seen no eligible order, although it may stop early.
none_taken :
    (o : Order) (s : Storage) (es : List Entry)
    → IsSorted (opposite_direction o) es
    → All (IsBacked s) es
    → NoneTaken (find_opposite o s) es
    → All (NotEligible o s) es
none_taken o s [] f v n = tt
none_taken o s (e ∷ es) f v (t, inl stops) =
    let (m, c) = stop-crosses o s e v.0 stops in
    (rw (taken-eligible o s e.id) at t, none_beyond o s e.price es m c f v.1)
none_taken o s (e ∷ es) f v (t, inr n) = (
  rw (taken-eligible o s e.id) at t,
  none_taken o s es (From-IsSorted (opposite_direction o) e.price es f) v.1 n,
)

-- The first eligible order of a side in the order of its map.
pub record FirstEligible (o : Order) (s : Storage) (es : List Entry) (k : IdT) : Type 0 where
  pub front : List Entry
  pub entry : Entry
  pub back : List Entry
  pub split : es ≡ front ++ entry ∷ back
  pub passed_over : All (NotEligible o s) front
  pub eligible : eligible_entry o s entry ≡ true
  pub result : k ≡ entry.id

skipped :
    (o : Order) (s : Storage) (es : List Entry)
    → All (Passes (find_opposite o s)) es
    → All (NotEligible o s) es
skipped o s [] p = tt
skipped o s (e ∷ es) p = (rw (taken-eligible o s e.id) at p.0.0, skipped o s es p.1)

-- On a side in order whose entries stand for stored limit orders, the search finds the first
-- eligible order in the order of the side, if the side has one, and else the invalid id.
pub find-FirstEligible :
    (o : Order) (s : Storage) (es : List Entry)
    → IsSorted (opposite_direction o) es
    → All (IsBacked s) es
    → FirstEligible o s es (find (find_opposite o s) es)
      ⊎ (All (NotEligible o s) es × (find (find_opposite o s) es ≡ no_id))
find-FirstEligible o s es f v = elim (find-first (find_opposite o s) es) [
  | inl h ↦ inl (record {
    front = h.front;
    entry = h.entry;
    back = h.back;
    split = h.split;
    passed_over = skipped o s h.front h.passed;
    eligible = rw (taken-eligible o s h.entry.id) at h.taken;
    result = h.result;
  })
  | inr h ↦ inr ((none_taken o s es f v h.0, h.1))
]
