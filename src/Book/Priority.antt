-- ===== src/Book/Priority.antt =====
-- The entries of a side as one queue for each price, src/OrderBookImpl.cpp.
use order_processor.Common.{
  ℕ, ◌≡◌, refl, true, false, some, is_some, List, [], ◌∷◌, ◌++◌, arith, ◌==◌, contains, erase_first,
  OnSome, if◌then◌else◌,
}
use order_processor.Model.Ids.{IdT}
use order_processor.Book.Sorted.{From-IsSorted}
use order_processor.Book.Side.{
  Entry, Direction, ascend, descend, before, insert, remove, erase_at, at_price, From, IsSorted,
}

-- No entry behind a price has a price before it.
at_price-From :
    (d : Direction) (p r : ℕ) (es : List Entry)
    → before d p r ≡ true
    → From d r es
    → at_price p es ≡ []
unfolding at_price
at_price-From d p r [] h f = refl
at_price-From ascend p r (e ∷ es) h f = ground (arith, at_price-From ascend p e.price es)
at_price-From descend p r (e ∷ es) h f = ground (arith, at_price-From descend p e.price es)

pub at_price-before :
    (d : Direction) (p : ℕ) (e : Entry) (es : List Entry)
    → before d p e.price ≡ true
    → IsSorted d (e ∷ es)
    → at_price p (e ∷ es) ≡ []
unfolding at_price
at_price-before ascend p e es h s = ground (arith, at_price-From ascend p e.price es h s)
at_price-before descend p e es h s = ground (arith, at_price-From descend p e.price es h s)

-- An insertion appends to the queue of its price, and leaves the others.
at_price-insert_behind :
    (d : Direction) (r p : ℕ) (id : IdT) (q : ℕ) (es : List Entry)
    → From d r es
    → at_price q (insert d p id es) ≡ (if p == q then at_price q es ++ id ∷ [] else at_price q es)
unfolding insert at_price
at_price-insert_behind d r p id q [] s = refl
at_price-insert_behind d r p id q (e ∷ es) s =
    ground (arith, at_price-insert_behind d e.price p id q es s.1, at_price-From d p e.price es)

From-IsSorted_start : (d : Direction) (es : List Entry) → IsSorted d es → (r : ℕ) × From d r es
From-IsSorted_start d [] s = (0, tt)
From-IsSorted_start ascend (e ∷ es) s = (e.price, (ground arith, s))
From-IsSorted_start descend (e ∷ es) s = (e.price, (ground arith, s))

pub at_price-insert :
    (d : Direction) (p : ℕ) (id : IdT) (q : ℕ) (es : List Entry)
    → IsSorted d es
    → at_price q (insert d p id es) ≡ (if p == q then at_price q es ++ id ∷ [] else at_price q es)
at_price-insert d p id q es s =
    let (r, f) = From-IsSorted_start d es s in at_price-insert_behind d r p id q es f

-- A removal takes the first occurrence of the id out of the queue of its price.
abbrev pub Removed : ℕ → IdT → ℕ → List Entry → List Entry → Type 0
Removed p id q es rest =
    at_price q rest ≡ (if p == q then erase_first id (at_price q es) else at_price q es)

erase_at-Removed :
    (d : Direction) (r p : ℕ) (id : IdT) (q : ℕ) (es : List Entry)
    → From d r es
    → OnSome (Removed p id q es) (erase_at p id es)
unfolding erase_at at_price
erase_at-Removed d r p id q [] f = tt
erase_at-Removed d r p id q (e ∷ es) f = ground (arith, erase_at-Removed d e.price p id q es f.1)

pub remove-Removed :
    (d : Direction) (p : ℕ) (id : IdT) (q : ℕ) (es : List Entry)
    → IsSorted d es
    → OnSome (Removed p id q es) (remove d p id es)
unfolding remove at_price
remove-Removed d p id q [] s = tt
remove-Removed d p id q (e ∷ es) s = ground (
  arith,
  remove-Removed d p id q es (From-IsSorted d e.price es s),
  erase_at-Removed d e.price p id q es s,
)

is_some-erase_at :
    (d : Direction) (p : ℕ) (id : IdT) (es : List Entry)
    → From d p es
    → is_some (erase_at p id es) ≡ contains id (at_price p es)
unfolding erase_at at_price
is_some-erase_at d p id [] s = refl
is_some-erase_at ascend p id (e ∷ es) s =
    ground (arith, is_some-erase_at ascend p id es, at_price-From ascend p e.price es)
is_some-erase_at descend p id (e ∷ es) s =
    ground (arith, is_some-erase_at descend p id es, at_price-From descend p e.price es)

-- A removal succeeds exactly if the id waits at the price.
pub is_some-remove :
    (d : Direction) (p : ℕ) (id : IdT) (es : List Entry)
    → IsSorted d es
    → is_some (remove d p id es) ≡ contains id (at_price p es)
unfolding remove at_price
is_some-remove d p id [] s = refl
is_some-remove ascend p id (e ∷ es) s = ground (
  arith,
  is_some-remove ascend p id es (From-IsSorted ascend e.price es s),
  is_some-erase_at ascend p id es,
  at_price-From ascend p e.price es,
)
is_some-remove descend p id (e ∷ es) s = ground (
  arith,
  is_some-remove descend p id es (From-IsSorted descend e.price es s),
  is_some-erase_at descend p id es,
  at_price-From descend p e.price es,
)

erase_at-insert :
    (d : Direction) (p : ℕ) (id : IdT) (es : List Entry)
    → From d p es
    → contains id (at_price p es) ≡ false
    → erase_at p id (insert d p id es) ≡ some es
unfolding erase_at insert at_price
erase_at-insert d p id [] s h = ground arith
erase_at-insert ascend p id (e ∷ es) s h = ground (arith, erase_at-insert ascend p id es)
erase_at-insert descend p id (e ∷ es) s h = ground (arith, erase_at-insert descend p id es)

-- On a side in order, removing an order at its price right after it was inserted restores the side,
-- if its id did not wait at that price before.
pub remove-insert :
    (d : Direction) (p : ℕ) (id : IdT) (es : List Entry)
    → IsSorted d es
    → contains id (at_price p es) ≡ false
    → remove d p id (insert d p id es) ≡ some es
unfolding remove insert at_price
remove-insert ascend p id [] s h = ground arith
remove-insert descend p id [] s h = ground arith
remove-insert ascend p id (e ∷ es) s h = ground (
  arith,
  remove-insert ascend p id es (From-IsSorted ascend e.price es s),
  erase_at-insert ascend p id es,
)
remove-insert descend p id (e ∷ es) s h = ground (
  arith,
  remove-insert descend p id es (From-IsSorted descend e.price es s),
  erase_at-insert descend p id es,
)
