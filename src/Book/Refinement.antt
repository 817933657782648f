-- ===== src/Book/Refinement.antt =====
-- The book against its abstract view, a queue of order ids for each instrument, side and price:
-- `add`, `restore` and `remove` of src/OrderBookImpl.cpp on every branch.
use order_processor.Common.{
  ℕ, ◌≡◌, refl, sym, Bool, true, false, Option, none, some, is_some, List, [], ◌∷◌, ◌++◌, ◌&&◌,
  arith, ◌==◌, contains, erase_first, OnSome, Option-cases, Bool-cases, inl, inr, if◌then◌else◌,
}
use order_processor.Model.Ids.{IdT}
use order_processor.Model.Enums
use order_processor.Model.Order.{Order}
use order_processor.Book.Side.{Entry, ascend, descend, at_price, IsSorted}
use order_processor.Book.Sorted.{insert-IsSorted, remove-IsSorted}
use order_processor.Book.Priority.{Removed, at_price-insert, remove-Removed, is_some-remove}
use order_processor.Book.Defs.{
  Group, Book, instrument_not_registered, side_not_supported, order_not_found, Result, ok, err, add,
  restore, remove, place_side, take_side, set_group, store_group, save_order, found_or, with_buys,
  with_sells,
}

abbrev pub queue_of : Enums.Side → ℕ → Group → List IdT
queue_of Enums.buy p g = at_price p g.buys
queue_of Enums.sell p g = at_price p g.sells
queue_of _ p g = []

-- The orders that wait at a price, oldest first.
abbrev pub queue : Book → IdT → Enums.Side → ℕ → List IdT
queue b i side p = elim (b.groups i) [ none ↦ [] | some g ↦ queue_of side p g ]

abbrev pub same_side : Enums.Side → Enums.Side → Bool
same_side Enums.buy Enums.buy = true
same_side Enums.sell Enums.sell = true
same_side _ _ = false

abbrev pub is_supported : Enums.Side → Bool
is_supported Enums.buy = true
is_supported Enums.sell = true
is_supported _ = false

abbrev pub GroupIsSorted : Group → Type 0
GroupIsSorted g = IsSorted descend g.buys × IsSorted ascend g.sells

-- Every side of every group is in the order of its map.
abbrev pub IsOrdered : Book → Type 0
IsOrdered b = (i : IdT) → OnSome GroupIsSorted (b.groups i)

-- Whether a queue is that of an order.
abbrev pub at_order : Order → IdT → Enums.Side → ℕ → Bool
at_order o i side p = (o.instrument.id == i) && same_side o.side side && (o.price == p)

-- What the queues of a book become, when a function is applied to that of an order.
abbrev pub QueuesChange : (List IdT → List IdT) → Order → Book → Book → Type 0
QueuesChange f o b b' =
    (i : IdT) (side : Enums.Side) (p : ℕ)
    → queue b' i side p ≡ (if at_order o i side p then f (queue b i side p) else queue b i side p)

abbrev pub Placed : Order → Book → Result Book → Type 0
Placed o b (ok b') =
    (is_some (b.groups o.instrument.id) ≡ true)
    × (is_supported o.side ≡ true)
    × IsOrdered b'
    × QueuesChange (λ q. q ++ o.order_id ∷ []) o b b'
Placed o b (err instrument_not_registered) = is_some (b.groups o.instrument.id) ≡ false
Placed o b (err side_not_supported) =
    (is_some (b.groups o.instrument.id) ≡ true) × (is_supported o.side ≡ false)
Placed o b (err order_not_found) = ⊥

-- A group in place of another keeps the book ordered.
IsOrdered-set_group :
    (b : Book) (j : IdT) (g : Group) → IsOrdered b → GroupIsSorted g → IsOrdered (set_group b j g)
IsOrdered-set_group b j g v s i = ground (arith, v i)

abbrev GroupChange : (List IdT → List IdT) → Enums.Side → ℕ → Group → Group → Type 0
GroupChange f s q g g' =
    (side : Enums.Side) (p : ℕ)
    → queue_of side p g'
      ≡ (if same_side s side && (q == p) then f (queue_of side p g) else queue_of side p g)

abbrev GroupPlaced : Enums.Side → Order → Group → Result Group → Type 0
GroupPlaced s o g (ok g') =
    (is_supported s ≡ true)
    × GroupIsSorted g'
    × GroupChange (λ q. q ++ o.order_id ∷ []) s o.price g g'
GroupPlaced s o g (err side_not_supported) = is_supported s ≡ false
GroupPlaced s o g (err _) = ⊥

place_side-GroupPlaced :
    (s : Enums.Side) (o : Order) (g : Group)
    → GroupIsSorted g
    → GroupPlaced s o g (place_side s o g)
unfolding place_side
place_side-GroupPlaced Enums.buy o g v = (
  refl,
  (insert-IsSorted descend o.price o.order_id g.buys v.0, v.1),
  λ side p. ground (arith, at_price-insert descend o.price o.order_id p g.buys v.0),
)
place_side-GroupPlaced Enums.sell o g v = (
  refl,
  (v.0, insert-IsSorted ascend o.price o.order_id g.sells v.1),
  λ side p. ground (arith, at_price-insert ascend o.price o.order_id p g.sells v.1),
)
place_side-GroupPlaced _ o g v = refl

set_group-QueuesChange :
    (f : List IdT → List IdT) (o : Order) (b : Book) (g g' : Group)
    → b.groups o.instrument.id ≡ some g
    → GroupChange f o.side o.price g g'
    → QueuesChange f o b (set_group b o.instrument.id g')
set_group-QueuesChange f o b g g' e c i side p = ground (arith, c side p)

store-Placed :
    (o : Order) (b : Book) (g : Group) (r : Result Group)
    → IsOrdered b
    → b.groups o.instrument.id ≡ some g
    → GroupPlaced o.side o g r
    → Placed o b (store_group b o.instrument.id r)
store-Placed o b g (ok g') v e c = (
  ground arith,
  c.0,
  IsOrdered-set_group b o.instrument.id g' v c.1,
  set_group-QueuesChange (λ q. q ++ o.order_id ∷ []) o b g g' e c.2,
)
store-Placed o b g (err side_not_supported) v e c = (ground arith, c)
store-Placed o b g (err instrument_not_registered) v e c = absurd c
store-Placed o b g (err order_not_found) v e c = c

group_at : (b : Book) (i : IdT) (g : Group) → IsOrdered b → b.groups i ≡ some g → GroupIsSorted g
group_at b i g v e = ground (arith, v i)

-- From an ordered book `restore` fails only for an instrument that is not registered or a side that
-- is neither buy nor sell; otherwise the book stays ordered, the order's id joins the end of the
-- queue of its instrument, side and price, and every other queue is as before.
pub restore-Placed : (o : Order) (b : Book) → IsOrdered b → Placed o b (restore o b)
unfolding restore
restore-Placed o b v = elim (Option-cases (b.groups o.instrument.id)) [
  | inl e ↦ rw (e, restore) (ground arith)
  | inr (g, e) ↦
      rw (e, restore)
        (store-Placed o b g _ v e (place_side-GroupPlaced o.side o g (group_at b _ g v e)))
]

abbrev pub Added : Order → Book → Result Book → Type 0
Added o b (ok b') =
    Placed o b (ok b') × (b'.saved ≡ (if b.has_storage then b.saved ++ o ∷ [] else b.saved))
Added o b (err e) = Placed o b (err e)

restore-saved :
    (o : Order) (b : Book) {b' : Book}
    → restore o b ≡ ok b'
    → (b'.saved ≡ b.saved) × (b'.has_storage ≡ b.has_storage)
unfolding restore
restore-saved o b h = ground arith

save_order-Added :
    (o : Order) (b : Book) (r : Result Book)
    → ((b' : Book) → r ≡ ok b' → (b'.saved ≡ b.saved) × (b'.has_storage ≡ b.has_storage))
    → Placed o b r
    → Added o b (save_order o r)
save_order-Added o b (err e) same h = h
save_order-Added o b (ok b') same h =
    let (s, t) = same b' refl in
    elim (Bool-cases b'.has_storage) [
      | inl e ↦ rw e (h, ground arith)
      | inr e ↦ rw e (h, ground arith)
    ]

-- From an ordered book `add` fails only for an instrument that is not registered or a side that is
-- neither buy nor sell; otherwise the book stays ordered, the order's id joins the end of the queue of
-- its instrument, side and price, every other queue is as before, and the order is handed to the
-- storage of the book, once, if one is attached.
pub add-Added : (o : Order) (b : Book) → IsOrdered b → Added o b (add o b)
unfolding add
add-Added o b v = save_order-Added o b _ (λ b' e. restore-saved o b e) (restore-Placed o b v)

abbrev pub Taken : Order → Book → Result Book → Type 0
Taken o b (ok b') =
    (is_some (b.groups o.instrument.id) ≡ true)
    × (is_supported o.side ≡ true)
    × (contains o.order_id (queue b o.instrument.id o.side o.price) ≡ true)
    × IsOrdered b'
    × QueuesChange (erase_first o.order_id) o b b'
Taken o b (err instrument_not_registered) = is_some (b.groups o.instrument.id) ≡ false
Taken o b (err side_not_supported) =
    (is_some (b.groups o.instrument.id) ≡ true) × (is_supported o.side ≡ false)
Taken o b (err order_not_found) =
    (is_some (b.groups o.instrument.id) ≡ true)
    × (is_supported o.side ≡ true)
    × (contains o.order_id (queue b o.instrument.id o.side o.price) ≡ false)

abbrev GroupTaken : Enums.Side → Order → Group → Result Group → Type 0
GroupTaken s o g (ok g') =
    (is_supported s ≡ true)
    × (contains o.order_id (queue_of s o.price g) ≡ true)
    × GroupIsSorted g'
    × GroupChange (erase_first o.order_id) s o.price g g'
GroupTaken s o g (err side_not_supported) = is_supported s ≡ false
GroupTaken s o g (err order_not_found) =
    (is_supported s ≡ true) × (contains o.order_id (queue_of s o.price g) ≡ false)
GroupTaken s o g (err instrument_not_registered) = ⊥

take_buys :
    (o : Order) (g : Group) (r : Option (List Entry))
    → GroupIsSorted g
    → is_some r ≡ contains o.order_id (at_price o.price g.buys)
    → OnSome (IsSorted descend) r
    → ((p : ℕ) → OnSome (Removed o.price o.order_id p g.buys) r)
    → GroupTaken Enums.buy o g (found_or (with_buys g r))
take_buys o g none v found sorted out = (refl, sym found)
take_buys o g (some es) v found sorted out =
    (refl, sym found, (sorted, v.1), λ side p. ground (arith, out p))

take_sells :
    (o : Order) (g : Group) (r : Option (List Entry))
    → GroupIsSorted g
    → is_some r ≡ contains o.order_id (at_price o.price g.sells)
    → OnSome (IsSorted ascend) r
    → ((p : ℕ) → OnSome (Removed o.price o.order_id p g.sells) r)
    → GroupTaken Enums.sell o g (found_or (with_sells g r))
take_sells o g none v found sorted out = (refl, sym found)
take_sells o g (some es) v found sorted out =
    (refl, sym found, (v.0, sorted), λ side p. ground (arith, out p))

take_side-GroupTaken :
    (s : Enums.Side) (o : Order) (g : Group) → GroupIsSorted g → GroupTaken s o g (take_side s o g)
unfolding take_side
take_side-GroupTaken Enums.buy o g v =
    take_buys o g _ v (is_some-remove descend o.price o.order_id g.buys v.0)
      (remove-IsSorted descend o.price o.order_id g.buys v.0)
      (λ p. remove-Removed descend o.price o.order_id p g.buys v.0)
take_side-GroupTaken Enums.sell o g v =
    take_sells o g _ v (is_some-remove ascend o.price o.order_id g.sells v.1)
      (remove-IsSorted ascend o.price o.order_id g.sells v.1)
      (λ p. remove-Removed ascend o.price o.order_id p g.sells v.1)
take_side-GroupTaken _ o g v = refl

store-Taken :
    (o : Order) (b : Book) (g : Group) (r : Result Group)
    → IsOrdered b
    → b.groups o.instrument.id ≡ some g
    → GroupTaken o.side o g r
    → Taken o b (store_group b o.instrument.id r)
store-Taken o b g (ok g') v e c = (
  ground arith,
  c.0,
  ground arith,
  IsOrdered-set_group b o.instrument.id g' v c.2,
  set_group-QueuesChange (erase_first o.order_id) o b g g' e c.3,
)
store-Taken o b g (err side_not_supported) v e c = (ground arith, c)
store-Taken o b g (err instrument_not_registered) v e c = absurd c
store-Taken o b g (err order_not_found) v e c = (ground arith, c.0, ground arith)

-- From an ordered book `remove` fails only for an instrument that is not registered, a side that is
-- neither buy nor sell, or an order that does not wait at its price; otherwise the book stays
-- ordered, the first occurrence of the order's id leaves its queue, and every other queue is as
-- before.
pub remove-Taken : (o : Order) (b : Book) → IsOrdered b → Taken o b (remove o b)
unfolding remove
remove-Taken o b v = elim (Option-cases (b.groups o.instrument.id)) [
  | inl e ↦ rw (e, remove) (ground arith)
  | inr (g, e) ↦
      rw (e, remove)
        (store-Taken o b g _ v e (take_side-GroupTaken o.side o g (group_at b _ g v e)))
]
