-- ===== src/Examples/Data.antt =====
-- Orders, a book and a storage for the examples.
use order_processor.Common.{ℕ, true, Option, none, some, List, [], ◌∷◌, ◌==◌, if◌then◌else◌, ite}
use order_processor.Model.Ids.{IdT, make_id}
use order_processor.Model.Enums
use order_processor.Model.Order.{
  Instrument, Account, Clearing, RawData, RawData-discrete, Order, Trade,
}
use order_processor.Book.Side.{Entry}
use order_processor.Book.Defs.{Group, Book}
use order_processor.Store.Defs.{Storage}

abbrev pub instrument_id : IdT
instrument_id = make_id 7 1

abbrev pub instrument : Instrument
instrument = record {
  symbol = b'A' ∷ [];
  security_id = b'A' ∷ [];
  security_id_source = b'I' ∷ [];
  id = instrument_id;
}

abbrev pub account : Account
account = record {
  account = b'a' ∷ [];
  firm = b'f' ∷ [];
  id = make_id 8 1;
  type = Enums.principal_account;
}

abbrev pub clearing : Clearing
clearing = record { firm = b'c' ∷ []; id = make_id 9 1 }

abbrev pub limit_order : ℕ → Enums.Side → ℕ → ℕ → Order
limit_order n side price qty = record {
  order_id = make_id n 1;
  orig_order_id = 0;
  price = price;
  status = Enums.new_status;
  side = side;
  ord_type = Enums.limit;
  leaves_qty = qty;
  cum_qty = 0;
  order_qty = qty;
  tif = Enums.day;
  creation_time = 1;
  last_update_time = 1;
  settl_type = Enums.settl_0;
  capacity = Enums.principal;
  currency = Enums.usd;
  instrument = instrument;
  account = account;
  clearing = clearing;
  cl_order_id = record { type = 1; bytes = n ∷ [] };
  orig_cl_order_id = record { type = 1; bytes = [] };
  executions = [];
}

-- Two offers at 101, and one at 103.
abbrev pub offer : Order
offer = limit_order 1 Enums.sell 101 40

abbrev pub later_offer : Order
later_offer = limit_order 2 Enums.sell 101 20

abbrev pub far_offer : Order
far_offer = limit_order 3 Enums.sell 103 10

abbrev pub bid : Order
bid = limit_order 4 Enums.buy 102 50

abbrev pub trade : Trade
trade = record { last_qty = 30; last_px = 101; currency = Enums.usd; exec_id = make_id 20 1 }

abbrev pub entry : ℕ → IdT → Entry
entry price id = record { price = price; id = id }

abbrev pub sells : List Entry
sells = entry 101 (make_id 1 1) ∷ entry 101 (make_id 2 1) ∷ entry 103 (make_id 3 1) ∷ []

abbrev pub group : Group
group = record { buys = entry 99 (make_id 5 1) ∷ []; sells = sells }

abbrev pub groups : ℕ → Option Group
groups i = if i == instrument_id then some group else none

abbrev pub book : Book
book = record { groups = groups; has_storage = true; saved = [] }

-- The offers are at the addresses 0 to 2 and the bid is at 3.
abbrev pub cells : ℕ → Order
cells a =
    if a == 0 then offer else if a == 1 then later_offer else if a == 2 then far_offer else bid

abbrev pub by_id : IdT → Option ℕ
by_id k =
    if k == make_id 1 1
    then some 0
    else if k == make_id 2 1
    then some 1
    else if k == make_id 3 1
    then some 2
    else if k == make_id 4 1
    then some 3
    else none

abbrev pub cl_id : ℕ → RawData
cl_id n = record { type = 1; bytes = n ∷ [] }

abbrev pub by_cl_id : RawData → Option ℕ
by_cl_id c = ite (RawData-discrete (cl_id 1) c) (some 0) (
    ite (RawData-discrete (cl_id 2) c) (some 1) (
      ite (RawData-discrete (cl_id 3) c) (some 2)
        (ite (RawData-discrete (cl_id 4) c) (some 3) none)))

abbrev pub storage : Storage
storage = record {
  cells = cells;
  fresh = 4;
  by_id = by_id;
  by_cl_id = by_cl_id;
  has_saver = true;
  saved = [];
}
