-- ===== src/Examples/Books.antt =====
-- The theorems on the order book and the matching at a book with three offers.
use order_processor.Common.{
  ℕ, ◌≡◌, refl, ◌⊎◌, ◌≤◌, true, false, some, List, [], ◌∷◌, arith, ◌==◌, All,
}
use order_processor.Model.Ids.{make_id, IdT, is_valid_id}
use order_processor.Model.Order.{is_market}
use order_processor.Book.Side
use order_processor.Book.Side.{Entry, Answer, ascend, descend, at_price, no_id, IsSorted}
use order_processor.Book.Defs.{get_snapshot, add, remove}
use order_processor.Book.Refinement.{IsOrdered, Added, Taken, add-Added, remove-Taken}
use order_processor.Book.Search.{Hit, NoneTaken, Best, find-first, top-Best}
use order_processor.Book.Levels.{SnapshotOf, get_snapshot-SnapshotOf}
use order_processor.Store.Defs.{locate_by_order_id}
use order_processor.Matching.Defs.{
  find_opposite, trade_with, match_order, located, TradeParams, Deferred, ok, err, execution,
  match_again, no_reference_price,
}
use order_processor.Matching.Priority.{IsBacked, NotEligible, FirstEligible, find-FirstEligible}
use order_processor.Matching.Outcome.{Matched, match_order-Matched, trade_with-fills}
use order_processor.Examples.Data.{
  book, bid, far_offer, offer, sells, storage, group, instrument_id, entry,
}

book-IsOrdered : IsOrdered book
book-IsOrdered i = ground arith

add-Added_example : Added bid book (add bid book)
add-Added_example = add-Added bid book book-IsOrdered

remove-Taken_example : Taken far_offer book (remove far_offer book)
remove-Taken_example = remove-Taken far_offer book book-IsOrdered

sells-IsSorted : IsSorted ascend sells
sells-IsSorted = (refl, (refl, tt))

-- Takes the second offer.
abbrev second : IdT → Answer
second k = record { taken = k == make_id 2 1; stop = false }

find-first_example :
    Hit second sells (Side.find second sells)
    ⊎ (NoneTaken second sells × (Side.find second sells ≡ no_id))
find-first_example = find-first second sells

top-Best_example : ((sells ≡ []) × (Side.top sells ≡ no_id)) ⊎ Best ascend sells (Side.top sells)
top-Best_example = top-Best ascend sells sells-IsSorted

get_snapshot-SnapshotOf_example :
    SnapshotOf
      (located storage)
      (book.groups instrument_id)
      (get_snapshot instrument_id (located storage) book)
get_snapshot-SnapshotOf_example = get_snapshot-SnapshotOf instrument_id (located storage) book

-- The offer at an address.
backed :
    (e : Entry) (a : ℕ)
    → is_valid_id e.id ≡ true
    → locate_by_order_id e.id storage ≡ some a
    → (storage.cells a).price ≡ e.price
    → is_market (storage.cells a).ord_type ≡ false
    → IsBacked storage e
backed e a v s p m = record { valid = v; address = a; stored = s; same_price = p; limit = m }

sells-IsBacked : All (IsBacked storage) sells
unfolding is_valid_id locate_by_order_id
sells-IsBacked = (
  backed (entry 101 (make_id 1 1)) 0 refl refl refl refl,
  (
    backed (entry 101 (make_id 2 1)) 1 refl refl refl refl,
    (backed (entry 103 (make_id 3 1)) 2 refl refl refl refl, tt),
  ),
)

find-FirstEligible_example :
    FirstEligible bid storage sells (Side.find (find_opposite bid storage) sells)
    ⊎ (All (NotEligible bid storage) sells × (Side.find (find_opposite bid storage) sells ≡ no_id))
find-FirstEligible_example = find-FirstEligible bid storage sells sells-IsSorted sells-IsBacked

match_order-Matched_example : Matched 3 storage group (match_order 3 storage book)
match_order-Matched_example =
    match_order-Matched 3 storage book group refl sells-IsSorted sells-IsBacked

-- The bid of 50 takes the 40 of the first offer, and goes on.
trade_with-fills_example :
    ((offer.price ≡ 0) × (bid.price ≡ 0) × (trade_with 3 0 storage ≡ err no_reference_price))
    ⊎ ((t : TradeParams) × (rest : List Deferred) × (trade_with 3 0 storage
          ≡ ok (execution 3 (t ∷ []) ∷ rest))
        × (t.order ≡ 0)
        × (t.last_px ≡ 101)
        × (t.last_qty ≤ 50)
        × (t.last_qty ≤ 40)
        × ((t.last_qty ≡ 50) ⊎ (t.last_qty ≡ 40))
        × (rest ≡ match_again 3 ∷ []))
trade_with-fills_example = trade_with-fills 3 0 storage
