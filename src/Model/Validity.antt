-- ===== src/Model/Validity.antt =====
-- The checks `isValid` of `OrderEntry`, `InstrumentEntry`, `AccountEntry` and `ClearingEntry` in
-- src/DataModelDef.cpp. The result is the first complaint, `none` for a valid entry.
use order_processor.Common.{Bool, true, false, not, Option, none, some, List, [], ◌∷◌, ◌==◌}
use order_processor.Model.Ids.{is_valid_id}
use order_processor.Model.Enums.{
  OrderType, Currency, Capacity, TimeInForce, Side, SettlType, OrderStatus, AccountType,
  invalid_ordertype, invalid_currency, invalid_capacity, invalid_tif, invalid_side,
  invalid_settltype, invalid_status, invalid_accounttype,
}
use order_processor.Model.Order.{Instrument, Account, Clearing, Order}

pub data Complaint : Type 0 where
  bad_cl_order_id bad_symbol bad_security_id bad_security_id_source bad_instrument_id : Complaint
  bad_account bad_account_firm bad_account_type bad_account_id bad_clearing_firm : Complaint
  bad_clearing_id bad_creation_time bad_update_time bad_status bad_side bad_order_type : Complaint
  bad_tif bad_settl_type bad_capacity bad_currency : Complaint

-- The first complaint of a row of checks.
infixr 6 ◌or_else◌
abbrev pub ◌or_else◌ : Option Complaint → Option Complaint → Option Complaint
none or_else c = c
some e or_else c = some e

abbrev pub complain : Bool → Complaint → Option Complaint
complain true c = some c
complain false c = none

abbrev pub is_empty {ℓ} : {A : Type ℓ} → List A → Bool
is_empty [] = true
is_empty (x ∷ xs) = false

unfoldable pub check_instrument : Instrument → Option Complaint
check_instrument i =
    complain (is_empty i.symbol) bad_symbol
    or_else complain (is_empty i.security_id) bad_security_id
    or_else complain (is_empty i.security_id_source) bad_security_id_source
    or_else complain (not (is_valid_id i.id)) bad_instrument_id

abbrev no_account_type : AccountType → Bool
no_account_type invalid_accounttype = true
no_account_type _ = false

unfoldable pub check_account : Account → Option Complaint
check_account a =
    complain (is_empty a.account) bad_account
    or_else complain (is_empty a.firm) bad_account_firm
    or_else complain (no_account_type a.type) bad_account_type
    or_else complain (not (is_valid_id a.id)) bad_account_id

unfoldable pub check_clearing : Clearing → Option Complaint
check_clearing c =
    complain (is_empty c.firm) bad_clearing_firm
    or_else complain (not (is_valid_id c.id)) bad_clearing_id

abbrev pub no_status : OrderStatus → Bool
no_status invalid_status = true
no_status _ = false

abbrev pub no_side : Side → Bool
no_side invalid_side = true
no_side _ = false

abbrev pub no_order_type : OrderType → Bool
no_order_type invalid_ordertype = true
no_order_type _ = false

abbrev pub no_tif : TimeInForce → Bool
no_tif invalid_tif = true
no_tif _ = false

abbrev pub no_settl_type : SettlType → Bool
no_settl_type invalid_settltype = true
no_settl_type _ = false

abbrev pub no_capacity : Capacity → Bool
no_capacity invalid_capacity = true
no_capacity _ = false

abbrev pub no_currency : Currency → Bool
no_currency invalid_currency = true
no_currency _ = false

-- The part of `OrderEntry::isValid` behind the referenced entries.
unfoldable pub check_fields : Order → Option Complaint
check_fields o =
    complain (o.creation_time == 0) bad_creation_time
    or_else complain (o.last_update_time == 0) bad_update_time
    or_else complain (no_status o.status) bad_status
    or_else complain (no_side o.side) bad_side
    or_else complain (no_order_type o.ord_type) bad_order_type
    or_else complain (no_tif o.tif) bad_tif
    or_else complain (no_settl_type o.settl_type) bad_settl_type
    or_else complain (no_capacity o.capacity) bad_capacity
    or_else complain (no_currency o.currency) bad_currency

-- `OrderEntry::isValid`
unfoldable pub check_order : Order → Option Complaint
unfolding check_instrument check_account check_clearing check_fields
check_order o =
    complain (is_empty o.cl_order_id.bytes) bad_cl_order_id
    or_else check_instrument o.instrument
    or_else check_account o.account
    or_else check_clearing o.clearing
    or_else check_fields o
