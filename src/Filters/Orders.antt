-- ===== src/Filters/Orders.antt =====
-- The filter of orders in src/OrderFilter.cpp.
use order_processor.Common.{ℕ, Bool, true, ◌&&◌, Option, List, [], ◌∷◌, ite, false}
use order_processor.Model.Enums.{
  OrderType, Currency, Capacity, TimeInForce, Side, SettlType, OrderStatus,
}
use order_processor.Model.Order.{Text, Order, Instrument}
use order_processor.Filters.Values.{
  NumberFilter, filter_number, EnumFilter, filter_enum, filter_subset, StringFilter, filter_string,
}
use order_processor.Filters.Entries.{
  InstrumentElement, AccountElement, ClearingElement, match_instrument, match_account,
  match_clearing, no_instrument, get_instrument_entry,
}

-- `enum Instructions`
pub data Instructions : Type 0 where
  invalid_instruction stay_on_offer_side not_held work go_along todo : Instructions

-- An order with the fields that only filters read. A set is the list of its elements in ascending order.
pub record OrderEntry : Type 0 where
  pub order : Order
  pub exec_instruct : List Instructions
  pub destination : Text
  pub source : Text
  pub stop_px : ℕ
  pub avg_px : ℕ
  pub day_avg_px : ℕ
  pub min_qty : ℕ
  pub day_order_qty : ℕ
  pub day_cum_qty : ℕ
  pub expire_time : ℕ
  pub settl_date : ℕ

-- The subclasses of `OrderElementFilter`
pub data OrderElement : Type 0 where
  order_status : EnumFilter OrderStatus → OrderElement
  side : EnumFilter Side → OrderElement
  order_type : EnumFilter OrderType → OrderElement
  tif : EnumFilter TimeInForce → OrderElement
  settl_type : EnumFilter SettlType → OrderElement
  capacity : EnumFilter Capacity → OrderElement
  currency : EnumFilter Currency → OrderElement
  instructions_equal instructions_in : List Instructions → OrderElement
  destination : StringFilter → OrderElement
  px stop_px avg_px day_avg_px : NumberFilter → OrderElement
  min_qty order_qty leaves_qty cum_qty day_order_qty day_cum_qty : NumberFilter → OrderElement
  expire_time settl_date creation_time last_update_time : NumberFilter → OrderElement

pub OrderStatus-discrete : Discrete OrderStatus
OrderStatus-discrete = hlevel

pub Side-discrete : Discrete Side
Side-discrete = hlevel

pub OrderType-discrete : Discrete OrderType
OrderType-discrete = hlevel

pub TimeInForce-discrete : Discrete TimeInForce
TimeInForce-discrete = hlevel

pub SettlType-discrete : Discrete SettlType
SettlType-discrete = hlevel

pub Capacity-discrete : Discrete Capacity
Capacity-discrete = hlevel

pub Currency-discrete : Discrete Currency
Currency-discrete = hlevel

pub Instructions-discrete : Discrete Instructions
Instructions-discrete = hlevel

pub Instructions_set-discrete : Discrete (List Instructions)
Instructions_set-discrete = hlevel

-- `OrderFilter`. The only subclass of `OrderEntryFilter` is `SourceFilter`.
pub record OrderFilter : Type 0 where
  pub instrument_filter : List InstrumentElement
  pub account_filter : List AccountElement
  pub clearing_filter : List ClearingElement
  pub filters : List OrderElement
  pub entry_filters : List StringFilter

-- `OrderFilter::getInstrument`
unfoldable pub get_instrument : OrderFilter → Option Instrument
unfolding get_instrument_entry
get_instrument f = get_instrument_entry f.instrument_filter no_instrument

module _ (regex_match : Text → Text → Bool) where
  unfoldable pub match_element : OrderElement → OrderEntry → Bool
  unfolding filter_enum filter_subset filter_string filter_number
  match_element (order_status f) e = filter_enum OrderStatus-discrete f e.order.status
  match_element (side f) e = filter_enum Side-discrete f e.order.side
  match_element (order_type f) e = filter_enum OrderType-discrete f e.order.ord_type
  match_element (tif f) e = filter_enum TimeInForce-discrete f e.order.tif
  match_element (settl_type f) e = filter_enum SettlType-discrete f e.order.settl_type
  match_element (capacity f) e = filter_enum Capacity-discrete f e.order.capacity
  match_element (currency f) e = filter_enum Currency-discrete f e.order.currency
  match_element (instructions_equal s) e =
      ite (Instructions_set-discrete e.exec_instruct s) true false
  match_element (instructions_in s) e = filter_subset Instructions-discrete s e.exec_instruct
  match_element (destination f) e = filter_string regex_match f e.destination
  match_element (px f) e = filter_number f e.order.price
  match_element (stop_px f) e = filter_number f e.stop_px
  match_element (avg_px f) e = filter_number f e.avg_px
  match_element (day_avg_px f) e = filter_number f e.day_avg_px
  match_element (min_qty f) e = filter_number f e.min_qty
  match_element (order_qty f) e = filter_number f e.order.order_qty
  match_element (leaves_qty f) e = filter_number f e.order.leaves_qty
  match_element (cum_qty f) e = filter_number f e.order.cum_qty
  match_element (day_order_qty f) e = filter_number f e.day_order_qty
  match_element (day_cum_qty f) e = filter_number f e.day_cum_qty
  match_element (expire_time f) e = filter_number f e.expire_time
  match_element (settl_date f) e = filter_number f e.settl_date
  match_element (creation_time f) e = filter_number f e.order.creation_time
  match_element (last_update_time f) e = filter_number f e.order.last_update_time

  -- The two loops of `match`
  unfoldable pub match_elements : List OrderElement → OrderEntry → Bool
  unfolding match_element
  match_elements [] e = true
  match_elements (f ∷ fs) e = let rest = match_elements fs e in match_element f e && rest

  unfoldable pub match_sources : List StringFilter → OrderEntry → Bool
  unfolding filter_string
  match_sources [] e = true
  match_sources (f ∷ fs) e =
      let rest = match_sources fs e in filter_string regex_match f e.source && rest

  -- `OrderFilter::match`
  unfoldable pub match : OrderFilter → OrderEntry → Bool
  unfolding match_instrument match_account match_clearing match_elements match_sources
  match f e =
      match_instrument regex_match f.instrument_filter e.order.instrument
      && (match_account regex_match f.account_filter e.order.account
          && (match_clearing regex_match f.clearing_filter e.order.clearing
              && (match_elements f.filters e && match_sources f.entry_filters e)))
