-- ===== src/Book/Defs.antt =====
-- The operations of `OrderBookImpl` in src/OrderBookImpl.cpp. The locks and the log are left out,
-- and the saver is the list of the orders that were handed to it.
use order_processor.Common.{
  ℕ, Bool, true, Option, none, some, List, [], ◌∷◌, ◌++◌, ◌+◌, ◌%◌, update, if◌then◌else◌,
}
use order_processor.Model.Ids.{IdT}
use order_processor.Model.Enums
use order_processor.Model.Order.{Order, qty_limit}
use order_processor.Book.Side
use order_processor.Book.Side.{Entry, Answer, Direction, ascend, descend, before, no_id}

pub record Group : Type 0 where
  pub buys : List Entry
  pub sells : List Entry

pub record Book : Type 0 where
  pub groups : ℕ → Option Group
  pub has_storage : Bool
  pub saved : List Order

pub data BookError : Type 0 where
  instrument_not_registered side_not_supported order_not_found : BookError

pub data Result {ℓ} (A : Type ℓ) : Type ℓ where
  ok : A → Result A
  err : BookError → Result A

abbrev pub empty_group : Group
empty_group = record { buys = []; sells = [] }

-- `init`: one empty group for each instrument.
unfoldable pub register : List IdT → (ℕ → Option Group) → ℕ → Option Group
register [] groups = groups
register (i ∷ is) groups = register is (update groups i (some empty_group))

unfoldable pub init : List IdT → Book
unfolding register
init instruments = record {
  groups = register instruments (λ i. none);
  has_storage = true;
  saved = [];
}

abbrev pub set_group : Book → IdT → Group → Book
set_group b i g = record b { groups = update b.groups i (some g) }

-- The entry of an order on the side that its type names.
unfoldable pub place_side : Enums.Side → Order → Group → Result Group
place_side Enums.buy o g = ok (record g { buys = Side.insert descend o.price o.order_id g.buys })
place_side Enums.sell o g = ok (record g { sells = Side.insert ascend o.price o.order_id g.sells })
place_side _ o g = err side_not_supported

abbrev pub store_group : Book → IdT → Result Group → Result Book
store_group b i (ok g) = ok (set_group b i g)
store_group b i (err e) = err e

-- `restore`
unfoldable pub restore : Order → Book → Result Book
unfolding place_side
restore o b = elim (b.groups o.instrument.id) [
  | none ↦ err instrument_not_registered
  | some g ↦ store_group b o.instrument.id (place_side o.side o g)
]

-- `storage_->save(order)`, if there is a storage.
abbrev pub save_order : Order → Result Book → Result Book
save_order o (err e) = err e
save_order o (ok b) = ok (if b.has_storage then record b { saved = b.saved ++ o ∷ [] } else b)

-- `add`
unfoldable pub add : Order → Book → Result Book
unfolding restore
add o b = save_order o (restore o b)

abbrev pub found_or : Option Group → Result Group
found_or none = err order_not_found
found_or (some g) = ok g

abbrev pub with_buys : Group → Option (List Entry) → Option Group
with_buys g none = none
with_buys g (some es) = some (record g { buys = es })

abbrev pub with_sells : Group → Option (List Entry) → Option Group
with_sells g none = none
with_sells g (some es) = some (record g { sells = es })

unfoldable pub take_side : Enums.Side → Order → Group → Result Group
take_side Enums.buy o g = found_or (with_buys g (Side.remove descend o.price o.order_id g.buys))
take_side Enums.sell o g = found_or (with_sells g (Side.remove ascend o.price o.order_id g.sells))
take_side _ o g = err side_not_supported

-- `remove`
unfoldable pub remove : Order → Book → Result Book
unfolding take_side
remove o b = elim (b.groups o.instrument.id) [
  | none ↦ err instrument_not_registered
  | some g ↦ store_group b o.instrument.id (take_side o.side o g)
]

-- The side of a group, for the searches.
abbrev pub side_of : Enums.Side → Group → Result (List Entry)
side_of Enums.buy g = ok g.buys
side_of Enums.sell g = ok g.sells
side_of _ g = err side_not_supported

abbrev pub entries_of : Book → IdT → Enums.Side → Result (List Entry)
entries_of b instrument side = elim (b.groups instrument) [
  | none ↦ err instrument_not_registered
  | some g ↦ side_of side g
]

abbrev pub map_ok {ℓ κ} : {A : Type ℓ} {B : Type κ} → (A → B) → Result A → Result B
map_ok f (ok a) = ok (f a)
map_ok f (err e) = err e

-- `find`, for a functor of an instrument and a side.
unfoldable pub find : IdT → Enums.Side → (IdT → Answer) → Book → Result IdT
find instrument side match' b = map_ok (Side.find match') (entries_of b instrument side)

-- `findAll`
unfoldable pub find_all : IdT → Enums.Side → (IdT → Answer) → Book → Result (List IdT)
find_all instrument side match' b = map_ok (Side.find_all match') (entries_of b instrument side)

-- `getTop`
unfoldable pub get_top : IdT → Enums.Side → Book → Result IdT
get_top instrument side b = map_ok Side.top (entries_of b instrument side)

pub record Level : Type 0 where
  pub price : ℕ
  pub total_qty : ℕ
  pub order_count : ℕ

pub record Snapshot : Type 0 where
  pub bids : List Level
  pub asks : List Level

-- `levels[price]` of a `std::map`, with the order's quantity added to it.
unfoldable pub bump : Direction → ℕ → ℕ → List Level → List Level
bump d price qty [] = record { price = price; total_qty = qty % qty_limit; order_count = 1 } ∷ []
bump d price qty (l ∷ ls) =
    if before d price l.price
    then record { price = price; total_qty = qty % qty_limit; order_count = 1 } ∷ l ∷ ls
    else if before d l.price price
    then l ∷ bump d price qty ls
    else record {
      price = price;
      total_qty = (l.total_qty + qty) % qty_limit;
      order_count = (l.order_count + 1) % qty_limit;
    }
      ∷ ls

-- The aggregating loop of `getSnapshot`; `locate` is the storage's `locateByOrderId`.
unfoldable pub aggregate : Direction → (IdT → Option Order) → List Level → List Entry → List Level
unfolding bump
aggregate d locate levels [] = levels
aggregate d locate levels (e ∷ es) =
    aggregate d locate
      (elim (locate e.id) [ none ↦ levels | some o ↦ bump d e.price o.leaves_qty levels ]) es

-- `getSnapshot`
unfoldable pub get_snapshot : IdT → (IdT → Option Order) → Book → Snapshot
unfolding aggregate
get_snapshot instrument locate b = elim (b.groups instrument) [
  | none ↦ record { bids = []; asks = [] }
  | some g ↦ record {
    bids = aggregate descend locate [] g.buys;
    asks = aggregate ascend locate [] g.sells;
  }
]
