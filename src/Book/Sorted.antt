-- ===== src/Book/Sorted.antt =====
-- The entries of a side stay in the order of the map, src/OrderBookImpl.cpp.
use order_processor.Common.{ℕ, ◌≡◌, false, List, [], ◌∷◌, arith, OnSome}
use order_processor.Model.Ids.{IdT}
use order_processor.Book.Side.{
  Entry, Direction, ascend, descend, before, insert, remove, erase_at, From, IsSorted,
}

insert-From :
    (d : Direction) (q p : ℕ) (id : IdT) (es : List Entry)
    → before d p q ≡ false
    → From d q es
    → From d q (insert d p id es)
unfolding insert
insert-From ascend q p id [] h f = ground arith
insert-From descend q p id [] h f = ground arith
insert-From ascend q p id (e ∷ es) h f = ground (arith, insert-From ascend e.price p id es)
insert-From descend q p id (e ∷ es) h f = ground (arith, insert-From descend e.price p id es)

pub insert-IsSorted :
    (d : Direction) (p : ℕ) (id : IdT) (es : List Entry)
    → IsSorted d es
    → IsSorted d (insert d p id es)
unfolding insert
insert-IsSorted d p id [] s = tt
insert-IsSorted ascend p id (e ∷ es) s = ground (arith, insert-From ascend e.price p id es)
insert-IsSorted descend p id (e ∷ es) s = ground (arith, insert-From descend e.price p id es)

-- A list that starts later starts late enough.
From-mono :
    (d : Direction) (q p : ℕ) (es : List Entry) → before d p q ≡ false → From d p es → From d q es
From-mono d q p [] h f = tt
From-mono ascend q p (e ∷ es) h f = (ground arith, f.1)
From-mono descend q p (e ∷ es) h f = (ground arith, f.1)

erase_at-From :
    (d : Direction) (q p : ℕ) (id : IdT) (es : List Entry)
    → From d q es
    → OnSome (From d q) (erase_at p id es)
unfolding erase_at
erase_at-From d q p id [] f = tt
erase_at-From d q p id (e ∷ es) f =
    ground (arith, erase_at-From d e.price p id es f.1, From-mono d q e.price es)

remove-From :
    (d : Direction) (q p : ℕ) (id : IdT) (es : List Entry)
    → From d q es
    → OnSome (From d q) (remove d p id es)
unfolding remove
remove-From d q p id [] f = tt
remove-From d q p id (e ∷ es) f = ground (
  arith,
  erase_at-From d e.price p id es f.1,
  remove-From d e.price p id es f.1,
  From-mono d q e.price es,
)

pub From-IsSorted : (d : Direction) (q : ℕ) (es : List Entry) → From d q es → IsSorted d es
From-IsSorted d q [] f = tt
From-IsSorted d q (e ∷ es) f = f.1

pub remove-IsSorted :
    (d : Direction) (p : ℕ) (id : IdT) (es : List Entry)
    → IsSorted d es
    → OnSome (IsSorted d) (remove d p id es)
unfolding remove
remove-IsSorted d p id [] s = tt
remove-IsSorted d p id (e ∷ es) s = ground (
  arith,
  erase_at-From d e.price p id es s,
  remove-From d e.price p id es s,
  From-IsSorted d e.price es,
)
