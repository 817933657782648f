-- ===== src/Examples/Subscribers.antt =====
-- The theorem on the subscriptions at an offer and three subscribers.
use order_processor.Common.{Bool, ◌≡◌, List, [], ◌∷◌, false, arith, contains}
use order_processor.Model.Ids.{make_id}
use order_processor.Model.Order.{Text}
use order_processor.Model.Enums as Enums
use order_processor.Filters.Values.{string_equal, is, less}
use order_processor.Filters.Entries.{symbol}
use order_processor.Filters.Orders.{OrderEntry, OrderFilter, get_instrument}
use order_processor.Filters.Orders as Orders
use order_processor.Subscr.Defs.{get_subscribers}
use order_processor.Subscr.Matching.{
  Request, subscribe, unsubscribe, served, wanted, get_subscribers-wanted,
}
use order_processor.Subscr.Pinning.{general-Pinned, symbol-Pinned}
use order_processor.Examples.Data.{offer}

abbrev entry : OrderEntry
entry = record {
  order = offer;
  exec_instruct = [];
  destination = b'd' ∷ [];
  source = b's' ∷ [];
  stop_px = 0;
  avg_px = 0;
  day_avg_px = 0;
  min_qty = 0;
  day_order_qty = 0;
  day_cum_qty = 0;
  expire_time = 0;
  settl_date = 0;
}

-- Orders with the symbol "A", and sells below 102.
abbrev by_symbol : OrderFilter
by_symbol = record {
  instrument_filter = symbol (string_equal (b'A' ∷ [])) ∷ [];
  account_filter = [];
  clearing_filter = [];
  filters = [];
  entry_filters = [];
}

abbrev cheap_sells : OrderFilter
cheap_sells = record {
  instrument_filter = [];
  account_filter = [];
  clearing_filter = [];
  filters = Orders.side (is Enums.sell) ∷ Orders.px (less 102) ∷ [];
  entry_filters = [];
}

abbrev requests : List Request
requests =
    subscribe [] cheap_sells (make_id 3 1)
    ∷ unsubscribe (make_id 1 1)
    ∷ subscribe [] by_symbol (make_id 2 1)
    ∷ subscribe [] by_symbol (make_id 1 1)
    ∷ []

-- No filter has a pattern.
abbrev no_patterns : Text → Text → Bool
no_patterns p t = false

get_subscribers-wanted_example :
    contains (make_id 2 1) (get_subscribers no_patterns entry (served requests))
    ≡ wanted no_patterns entry (make_id 2 1) requests
get_subscribers-wanted_example =
    let by_name = symbol-Pinned no_patterns entry (b'A' ∷ []) by_symbol in
    get_subscribers-wanted no_patterns entry (make_id 2 1) requests (omega arith)
      (general-Pinned no_patterns entry cheap_sells, (by_name, (by_name, tt)))
