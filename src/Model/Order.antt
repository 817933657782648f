-- ===== src/Model/Order.antt =====
-- `OrderEntry` of src/DataModelDef.h with the entries that its lazy references stand for, and the
-- trade arithmetic of `OrderParams` in src/DataModelDef.cpp. A price is a whole number of ticks.
use order_processor.Common.{
  ℕ, ◌+◌, ◌-◌, ◌%◌, ◌^◌, Bool, true, false, Option, none, some, List, [], ◌∷◌, ◌++◌, ltb,
  ℕ_discrete, if◌then◌else◌,
}
use order_processor.Model.Ids.{IdT}
use order_processor.Model.Enums.{
  OrderType, Currency, Capacity, TimeInForce, Side, SettlType, OrderStatus, AccountType, market,
  buy, sell,
}

abbrev pub Text : Type 0
Text = List ℕ

pub record Instrument : Type 0 where
  pub symbol : Text
  pub security_id : Text
  pub security_id_source : Text
  pub id : IdT

pub record Account : Type 0 where
  pub account : Text
  pub firm : Text
  pub id : IdT
  pub type : AccountType

pub record Clearing : Type 0 where
  pub firm : Text
  pub id : IdT

pub record RawData : Type 0 where
  pub type : ℕ
  pub bytes : List ℕ

pub RawData-discrete : Discrete RawData
RawData-discrete = hlevel ℕ_discrete

pub record Order : Type 0 where
  pub order_id : IdT
  pub orig_order_id : IdT
  pub price : ℕ
  pub status : OrderStatus
  pub side : Side
  pub ord_type : OrderType
  pub leaves_qty : ℕ
  pub cum_qty : ℕ
  pub order_qty : ℕ
  pub tif : TimeInForce
  pub creation_time : ℕ
  pub last_update_time : ℕ
  pub settl_type : SettlType
  pub capacity : Capacity
  pub currency : Currency
  pub instrument : Instrument
  pub account : Account
  pub clearing : Clearing
  pub cl_order_id : RawData
  pub orig_cl_order_id : RawData
  pub executions : List IdT

pub record Trade : Type 0 where
  pub last_qty : ℕ
  pub last_px : ℕ
  pub currency : Currency
  pub exec_id : IdT

-- `QuantityT` is `unsigned int`.
abbrev pub qty_limit : ℕ
qty_limit = 2 ^ 32

-- `addExecution`
unfoldable pub add_execution : IdT → Order → Order
add_execution exec_id o = record o { executions = o.executions ++ exec_id ∷ [] }

-- `applyTrade`; `none` is the exception. The difference is taken only where it is not negative.
unfoldable pub apply_trade : Trade → Order → Option Order
unfolding add_execution
apply_trade trade o =
    if ltb o.leaves_qty trade.last_qty
    then none
    else some (
        add_execution trade.exec_id (record o {
          leaves_qty = o.leaves_qty - trade.last_qty;
          cum_qty = (o.cum_qty + trade.last_qty) % qty_limit;
        }))

abbrev pub is_market : OrderType → Bool
is_market market = true
is_market _ = false

abbrev pub is_buy : Side → Bool
is_buy buy = true
is_buy _ = false

abbrev pub is_sell : Side → Bool
is_sell sell = true
is_sell _ = false
