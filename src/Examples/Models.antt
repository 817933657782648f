-- ===== src/Examples/Models.antt =====
-- The theorems on ids, fills and checks at the bid of the examples.
use order_processor.Common.{◌≡◌, ◌↔◌, none, true, [], ◌∷◌, arith, All, IsAscending}
use order_processor.Model.Ids.{is_valid_id}
use order_processor.Model.Fills.{Filled, apply_trades, apply_trades-Filled}
use order_processor.Model.Generator.{next_ids, next_ids-AreFresh}
use order_processor.Model.Acceptance.{OrderIsComplete, check_order-OrderIsComplete}
use order_processor.Model.Validity.{check_order}
use order_processor.Examples.Data.{bid, trade}

-- The second 30 do not fit into the 50.
apply_trades-Filled_example :
    Filled (trade ∷ trade ∷ []) bid (apply_trades (trade ∷ trade ∷ []) bid)
apply_trades-Filled_example = apply_trades-Filled (trade ∷ trade ∷ []) bid (omega arith)

next_ids-AreFresh_example :
    IsAscending (next_ids (5 ∷ 4 ∷ 5 ∷ []) 1)
    × All (λ k. is_valid_id k ≡ true) (next_ids (5 ∷ 4 ∷ 5 ∷ []) 1)
next_ids-AreFresh_example =
    next_ids-AreFresh (5 ∷ 4 ∷ 5 ∷ []) 1 (omega arith) (omega arith) (omega arith)

check_order-OrderIsComplete_example : (check_order bid ≡ none) ↔ OrderIsComplete bid
check_order-OrderIsComplete_example = check_order-OrderIsComplete bid
