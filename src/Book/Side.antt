-- ===== src/Book/Side.antt =====
-- One side of a group of src/OrderBookImpl.h: a `multimap` from prices to order ids, as the list of
-- its entries in the order of the map. `insert` puts an entry behind those of an equal price.
use order_processor.Common.{
  ℕ, ◌≡◌, Bool, false, Option, none, some, List, [], ◌∷◌, ltb, ◌==◌, if◌then◌else◌,
}
use order_processor.Model.Ids.{IdT}

-- `PriceTAscend` and `PriceTDescend`
pub data Direction : Type 0 where
  ascend descend : Direction

abbrev pub before : Direction → ℕ → ℕ → Bool
before ascend a b = ltb a b
before descend a b = ltb b a

pub record Entry : Type 0 where
  pub price : ℕ
  pub id : IdT

-- `multimap::insert`
unfoldable pub insert : Direction → ℕ → IdT → List Entry → List Entry
insert d price id [] = record { price = price; id = id } ∷ []
insert d price id (e ∷ es) =
    if before d price e.price
    then record { price = price; id = id } ∷ e ∷ es
    else e ∷ insert d price id es

abbrev pub keep {ℓ} : {A : Type ℓ} → A → Option (List A) → Option (List A)
keep a none = none
keep a (some as') = some (a ∷ as')

-- The `while` loop of `remove`: over the entries of the price, up to that of the order.
unfoldable pub erase_at : ℕ → IdT → List Entry → Option (List Entry)
erase_at price id [] = none
erase_at price id (e ∷ es) =
    let rest = erase_at price id es in
    if price == e.price then if e.id == id then some es else keep e rest else none

-- `remove`: the loop starts at `lower_bound`.
unfoldable pub remove : Direction → ℕ → IdT → List Entry → Option (List Entry)
unfolding erase_at
remove d price id [] = none
remove d price id (e ∷ es) =
    let rest = remove d price id es in
    if before d e.price price then keep e rest else erase_at price id (e ∷ es)

-- `OrderFunctor::match`: whether the order is taken, and whether the search stops.
pub record Answer : Type 0 where
  pub taken : Bool
  pub stop : Bool

abbrev pub no_id : IdT
no_id = 0

-- The loop of `find`.
unfoldable pub find : (IdT → Answer) → List Entry → IdT
find match' [] = no_id
find match' (e ∷ es) =
    let rest = find match' es in
    if (match' e.id).taken then e.id else if (match' e.id).stop then no_id else rest

-- The loop of `findAll`.
unfoldable pub find_all : (IdT → Answer) → List Entry → List IdT
find_all match' [] = []
find_all match' (e ∷ es) =
    let rest = if (match' e.id).stop then [] else find_all match' es in
    if (match' e.id).taken then e.id ∷ rest else rest

-- `getTop`
unfoldable pub top : List Entry → IdT
top [] = no_id
top (e ∷ es) = e.id

-- The ids of a price, oldest first: what the book promises to keep for each price.
unfoldable pub at_price : ℕ → List Entry → List IdT
at_price p [] = []
at_price p (e ∷ es) = if e.price == p then e.id ∷ at_price p es else at_price p es

-- The entries are in the order of the map, from a price on.
abbrev pub From : Direction → ℕ → List Entry → Type 0
From d p [] = Unit {0}
From d p (e ∷ es) = (before d e.price p ≡ false) × From d e.price es

abbrev pub IsSorted : Direction → List Entry → Type 0
IsSorted d [] = Unit {0}
IsSorted d (e ∷ es) = From d e.price es
