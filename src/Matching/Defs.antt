-- ===== src/Matching/Defs.antt =====
-- `OrderMatcher::match` of src/OrderMatcher.cpp and its functor. The deferred events that a call adds
-- are its result; the locks and the log are left out.
use order_processor.Common.{
  ℕ, ◌-◌, min, Bool, true, false, ◌&&◌, Option, none, some, List, [], ◌∷◌, ltb, leb, ◌==◌,
  if◌then◌else◌,
}
use order_processor.Model.Ids.{IdT, is_valid_id}
use order_processor.Model.Enums
use order_processor.Model.Order.{Order, is_market, is_buy}
use order_processor.Book.Side.{Answer}
use order_processor.Book.Defs as Book
use order_processor.Book.Defs.{Book, BookError}
use order_processor.Store.Defs.{Address, Storage, locate_by_order_id}

-- The side that `FindOpositeOrder` searches.
unfoldable pub opposite : Enums.Side → Enums.Side
opposite side = if is_buy side then Enums.sell else Enums.buy

abbrev pub refuse : Answer
refuse = record { taken = false; stop = false }

abbrev pub accept : Answer
accept = record { taken = true; stop = false }

abbrev pub give_up : Answer
give_up = record { taken = false; stop = true }

-- Whether the limits of an order and of a contra order meet.
abbrev pub crosses : Order → ℕ → Bool
crosses o price = if is_buy o.side then leb price o.price else leb o.price price

-- `FindOpositeOrder::match` on a located order.
unfoldable pub compare_with : Order → Order → Answer
compare_with o contra =
    if contra.leaves_qty == 0
    then refuse
    else if is_market o.ord_type
    then accept
    else if is_market contra.ord_type
    then accept
    else if crosses o contra.price
    then accept
    else give_up

abbrev pub located : Storage → IdT → Option Order
located s k = elim (locate_by_order_id k s) [ none ↦ none | some a ↦ some (s.cells a) ]

-- `FindOpositeOrder::match`
unfoldable pub find_opposite : Order → Storage → IdT → Answer
unfolding compare_with locate_by_order_id
find_opposite o s k = elim (located s k) [ none ↦ refuse | some contra ↦ compare_with o contra ]

-- `TradeParams`
pub record TradeParams : Type 0 where
  pub last_qty : ℕ
  pub last_px : ℕ
  pub order : Address

-- `ExecutionDeferedEvent`, `MatchOrderDeferedEvent` and `CancelOrderDeferedEvent`
pub data Deferred : Type 0 where
  execution : Address → List TradeParams → Deferred
  match_again : Address → Deferred
  cancel : Address → Deferred

pub data MatchError : Type 0 where
  from_book : BookError → MatchError
  not_retrieved no_reference_price : MatchError

pub data Result {ℓ} (A : Type ℓ) : Type ℓ where
  ok : A → Result A
  err : MatchError → Result A

-- The part of `match` behind the search: the trade with the contra order at `c`.
unfoldable pub trade_with : Address → Address → Storage → Result (List Deferred)
trade_with a c s =
    let o = s.cells a in
    let contra = s.cells c in
    let qty = min o.leaves_qty contra.leaves_qty in
    let trade : TradeParams = record { last_qty = qty; last_px = contra.price; order = c } in
    if contra.price == 0 && o.price == 0
    then err no_reference_price
    else ok
        (execution a (trade ∷ []) ∷ (if ltb 0 (o.leaves_qty - qty) then match_again a ∷ [] else []))

-- No order was found.
unfoldable pub give_up_on : Address → Storage → List Deferred
give_up_on a s = if is_market (s.cells a).ord_type then cancel a ∷ [] else []

unfoldable pub match_found : Address → IdT → Storage → Result (List Deferred)
unfolding trade_with give_up_on locate_by_order_id
match_found a k s =
    if is_valid_id k
    then elim (locate_by_order_id k s) [ none ↦ err not_retrieved | some c ↦ trade_with a c s ]
    else ok (give_up_on a s)

-- `match`
unfoldable pub match_order : Address → Storage → Book → Result (List Deferred)
match_order a s b =
    let o = s.cells a in
    elim (Book.find o.instrument.id (opposite o.side) (find_opposite o s) b) [
      | Book.err e ↦ err (from_book e)
      | Book.ok k ↦ match_found a k s
    ]
