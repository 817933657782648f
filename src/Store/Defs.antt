-- ===== src/Store/Defs.antt =====
-- The orders of `OrderDataStorage` in src/OrderStorage.cpp: two maps to shared objects. An object is
-- a cell of `cells` at its address; the saver is the list of the orders handed to it. The locks and
-- the log are left out.
use order_processor.Common.{
  ℕ, suc, Bool, ◌&&◌, Option, none, some, is_some, List, [], ◌∷◌, ◌++◌, ite, update, if◌then◌else◌,
}
use order_processor.Model.Ids.{IdT, is_valid_id, get_id}
use order_processor.Model.Order.{Order, RawData, RawData-discrete}
use order_processor.Model.Validity.{is_empty}

abbrev pub Address : Type 0
Address = ℕ

pub record Storage : Type 0 where
  pub cells : Address → Order
  pub fresh : Address
  pub by_id : IdT → Option Address
  pub by_cl_id : RawData → Option Address
  pub has_saver : Bool
  pub saved : List Order

pub data StoreError : Type 0 where
  same_order_id empty_cl_order_id same_cl_order_id : StoreError

pub data Result {ℓ} (A : Type ℓ) : Type ℓ where
  ok : A → Result A
  err : StoreError → Result A

-- `locateByOrderId` and `locateByClOrderId`
unfoldable pub locate_by_order_id : IdT → Storage → Option Address
locate_by_order_id k s = s.by_id k

unfoldable pub locate_by_cl_order_id : RawData → Storage → Option Address
locate_by_cl_order_id c s = s.by_cl_id c

-- `map::insert`: a key that is there keeps its value.
abbrev pub insert_id : IdT → Address → (IdT → Option Address) → IdT → Option Address
insert_id k a m = if is_some (m k) then m else update m k (some a)

abbrev pub set_raw : RawData → Address → (RawData → Option Address) → RawData → Option Address
set_raw c a m j = ite (RawData-discrete c j) (some a) (m j)

abbrev pub insert_raw : RawData → Address → (RawData → Option Address) → RawData → Option Address
insert_raw c a m = if is_some (m c) then m else set_raw c a m

-- The guards that `save` and `restore` share.
unfoldable pub refusal : Order → Storage → Option StoreError
refusal o s =
    if is_valid_id o.order_id && is_some (s.by_id o.order_id)
    then some same_order_id
    else if is_empty o.cl_order_id.bytes
    then some empty_cl_order_id
    else if is_some (s.by_cl_id o.cl_order_id)
    then some same_cl_order_id
    else none

abbrev pub hand_over : Order → Storage → List Order
hand_over o s = if s.has_saver then s.saved ++ o ∷ [] else s.saved

-- The two insertions of an order that is at a new address.
unfoldable pub enter : Order → Storage → Storage
enter o s = record s {
  cells = update s.cells s.fresh o;
  fresh = suc s.fresh;
  by_id = insert_id o.order_id s.fresh s.by_id;
  by_cl_id = insert_raw o.cl_order_id s.fresh s.by_cl_id;
  saved = hand_over o s;
}

-- The id of the copy: that of the order if it is valid, else the next of the generator.
unfoldable pub choose_id : IdT → ℕ → ℕ → IdT × ℕ
choose_id k now counter = if is_valid_id k then (k, counter) else get_id now counter

-- `save(order, idGenerator)`: the address of the stored copy, and the counter of the generator.
unfoldable pub save : Order → ℕ → ℕ → Storage → Result (Address × ℕ × Storage)
unfolding refusal enter choose_id
save o now counter s = elim (refusal o s) [
  | some e ↦ err e
  | none ↦
      let (k, counter') = choose_id o.order_id now counter in
      ok (s.fresh, counter', enter (record o { order_id = k }) s)
]

-- `restore(order)`: the object itself enters the maps.
unfoldable pub restore : Order → Storage → Result Storage
unfolding refusal enter
restore o s = elim (refusal o s) [ some e ↦ err e | none ↦ ok (enter o s) ]
