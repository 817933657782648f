-- ===== src/Model/Acceptance.antt =====
-- What `OrderEntry::isValid` of src/DataModelDef.cpp demands of an order.
use order_processor.Common.{
  ℕ, ◌==◌, ◌≡◌, ◌≢◌, refl, ◌↔◌, Bool, true, false, none, List, [], arith, Option, some,
}
use order_processor.Model.Ids.{IdT, is_valid_id, id_field, date_field}
use order_processor.Model.Enums
use order_processor.Model.Order.{Instrument, Account, Clearing, Order}
use order_processor.Model.Validity.{
  Complaint, check_instrument, check_account, check_clearing, check_fields, check_order, ◌or_else◌,
  is_empty, complain, bad_cl_order_id, bad_creation_time, bad_update_time, bad_status, bad_side,
  bad_order_type, bad_tif, bad_settl_type, bad_capacity, bad_currency, no_status, no_side,
  no_order_type, no_tif, no_settl_type, no_capacity, no_currency,
}

pub record IdIsSet (k : IdT) : Type 0 where
  pub number : id_field k ≢ 0
  pub date : date_field k ≢ 0

pub record InstrumentIsComplete (i : Instrument) : Type 0 where
  pub symbol : i.symbol ≢ []
  pub security_id : i.security_id ≢ []
  pub security_id_source : i.security_id_source ≢ []
  pub id : IdIsSet i.id

pub record AccountIsComplete (a : Account) : Type 0 where
  pub account : a.account ≢ []
  pub firm : a.firm ≢ []
  pub type : a.type ≢ Enums.invalid_accounttype
  pub id : IdIsSet a.id

pub record ClearingIsComplete (c : Clearing) : Type 0 where
  pub firm : c.firm ≢ []
  pub id : IdIsSet c.id

-- What the checks look at. The ids of the order and of the original order, and the original client order
-- id, are not among it.
pub record OrderIsComplete (o : Order) : Type 0 where
  pub cl_order_id : o.cl_order_id.bytes ≢ []
  pub instrument : InstrumentIsComplete o.instrument
  pub account : AccountIsComplete o.account
  pub clearing : ClearingIsComplete o.clearing
  pub creation_time : o.creation_time ≢ 0
  pub last_update_time : o.last_update_time ≢ 0
  pub status : o.status ≢ Enums.invalid_status
  pub side : o.side ≢ Enums.invalid_side
  pub ord_type : o.ord_type ≢ Enums.invalid_ordertype
  pub tif : o.tif ≢ Enums.invalid_tif
  pub settl_type : o.settl_type ≢ Enums.invalid_settltype
  pub capacity : o.capacity ≢ Enums.invalid_capacity
  pub currency : o.currency ≢ Enums.invalid_currency

instrument_iff : (i : Instrument) → (check_instrument i ≡ none) ↔ InstrumentIsComplete i
unfolding check_instrument is_valid_id
instrument_iff i = (λ h. ground arith, λ h. ground arith)

account_iff : (a : Account) → (check_account a ≡ none) ↔ AccountIsComplete a
unfolding check_account is_valid_id
account_iff a = (λ h. ground arith, λ h. ground arith)

clearing_iff : (c : Clearing) → (check_clearing c ≡ none) ↔ ClearingIsComplete c
unfolding check_clearing is_valid_id
clearing_iff c = (λ h. ground arith, λ h. ground arith)

-- A row of checks passes exactly if each of them does.
both :
    {P Q : Type 0} (a b : Option Complaint)
    → (a ≡ none) ↔ P
    → (b ≡ none) ↔ Q
    → ((a or_else b) ≡ none) ↔ (P × Q)
both none b p q = (λ h. (p.0 refl, q.0 h), λ h. q.1 h.1)
both (some e) b p q = (λ h. absurd (cc h), λ h. absurd (cc (p.1 h.0)))

complain_iff : {P : Type 0} (b : Bool) (c : Complaint) → (b ≡ false) ↔ P → (complain b c ≡ none) ↔ P
complain_iff true c p = (λ h. absurd (cc h), λ h. absurd (cc (p.1 h)))
complain_iff false c p = (λ h. p.0 refl, λ h. refl)

zero_iff : (n : ℕ) → ((n == 0) ≡ false) ↔ (n ≢ 0)
zero_iff n = (λ h. ground arith, λ h. ground arith)

empty_iff {ℓ} : {A : Type ℓ} (xs : List A) → (is_empty xs ≡ false) ↔ (xs ≢ [])
empty_iff xs = (λ h. ground arith, λ h. ground arith)

status_iff : (s : Enums.OrderStatus) → (no_status s ≡ false) ↔ (s ≢ Enums.invalid_status)
status_iff s = (λ h. ground arith, λ h. ground arith)

side_iff : (s : Enums.Side) → (no_side s ≡ false) ↔ (s ≢ Enums.invalid_side)
side_iff s = (λ h. ground arith, λ h. ground arith)

order_type_iff : (t : Enums.OrderType) → (no_order_type t ≡ false) ↔ (t ≢ Enums.invalid_ordertype)
order_type_iff t = (λ h. ground arith, λ h. ground arith)

tif_iff : (t : Enums.TimeInForce) → (no_tif t ≡ false) ↔ (t ≢ Enums.invalid_tif)
tif_iff t = (λ h. ground arith, λ h. ground arith)

settl_type_iff : (t : Enums.SettlType) → (no_settl_type t ≡ false) ↔ (t ≢ Enums.invalid_settltype)
settl_type_iff t = (λ h. ground arith, λ h. ground arith)

capacity_iff : (c : Enums.Capacity) → (no_capacity c ≡ false) ↔ (c ≢ Enums.invalid_capacity)
capacity_iff c = (λ h. ground arith, λ h. ground arith)

currency_iff : (c : Enums.Currency) → (no_currency c ≡ false) ↔ (c ≢ Enums.invalid_currency)
currency_iff c = (λ h. ground arith, λ h. ground arith)

-- The part behind the referenced entries.
abbrev FieldsAreSet : Order → Type 0
FieldsAreSet o =
    (o.creation_time ≢ 0)
    × ((o.last_update_time ≢ 0)
        × ((o.status ≢ Enums.invalid_status)
            × ((o.side ≢ Enums.invalid_side)
                × ((o.ord_type ≢ Enums.invalid_ordertype)
                    × ((o.tif ≢ Enums.invalid_tif)
                        × ((o.settl_type ≢ Enums.invalid_settltype)
                            × ((o.capacity ≢ Enums.invalid_capacity)
                                × (o.currency ≢ Enums.invalid_currency))))))))

fields_iff : (o : Order) → (check_fields o ≡ none) ↔ FieldsAreSet o
unfolding check_fields
fields_iff o = both _ _ (complain_iff _ bad_creation_time (zero_iff o.creation_time)) (
    both _ _ (complain_iff _ bad_update_time (zero_iff o.last_update_time)) (
      both _ _ (complain_iff _ bad_status (status_iff o.status)) (
        both _ _ (complain_iff _ bad_side (side_iff o.side)) (
          both _ _ (complain_iff _ bad_order_type (order_type_iff o.ord_type)) (
            both _ _ (complain_iff _ bad_tif (tif_iff o.tif)) (
              both _ _ (complain_iff _ bad_settl_type (settl_type_iff o.settl_type)) (
                both _ _ (complain_iff _ bad_capacity (capacity_iff o.capacity))
                  (complain_iff _ bad_currency (currency_iff o.currency)))))))))

abbrev PartsAreComplete : Order → Type 0
PartsAreComplete o =
    (o.cl_order_id.bytes ≢ [])
    × (InstrumentIsComplete o.instrument
        × (AccountIsComplete o.account × (ClearingIsComplete o.clearing × FieldsAreSet o)))

order_iff : (o : Order) → (check_order o ≡ none) ↔ PartsAreComplete o
unfolding check_order
order_iff o = both _ _ (complain_iff _ bad_cl_order_id (empty_iff o.cl_order_id.bytes)) (
    both _ _ (instrument_iff o.instrument)
      (both _ _ (account_iff o.account) (both _ _ (clearing_iff o.clearing) (fields_iff o))))

OrderIsComplete-parts : (o : Order) → PartsAreComplete o → OrderIsComplete o
OrderIsComplete-parts o (cl, (i, (a, (c, (t, (u, (st, (sd, (ty, (tif, (se, (cp, cu)))))))))))) =
    record {
      cl_order_id = cl;
      instrument = i;
      account = a;
      clearing = c;
      creation_time = t;
      last_update_time = u;
      status = st;
      side = sd;
      ord_type = ty;
      tif = tif;
      settl_type = se;
      capacity = cp;
      currency = cu;
    }

-- The checks accept an order exactly if its client order id has bytes, the texts of its instrument,
-- account and clearing are not empty, both numbers of the ids of these three are not 0, both times are
-- set, and no enumeration is at its invalid value. They demand nothing of the order's own id, of the
-- id of the original order or of the original client order id.
pub check_order-OrderIsComplete : (o : Order) → (check_order o ≡ none) ↔ OrderIsComplete o
check_order-OrderIsComplete o = (
  λ h. OrderIsComplete-parts o ((order_iff o).0 h),
  λ v. (order_iff o).1 (
    v.cl_order_id,
    (
      v.instrument,
      (
        v.account,
        (
          v.clearing,
          (
            v.creation_time,
            (
              v.last_update_time,
              (v.status, (v.side, (v.ord_type, (v.tif, (v.settl_type, (v.capacity, v.currency)))))),
            ),
          ),
        ),
      ),
    ),
  ),
)
