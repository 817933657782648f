-- ===== src/Acid/BookOperations.antt =====
-- `AddToOrderBookTrOperation` and `RemoveFromOrderBookTrOperation` of src/TrOperations.cpp.
use order_processor.Common.{
  ℕ, erase_first, ◌≡◌, refl, ap, ◌∙◌, if◌then◌else◌, Bool, true, false, ◌++◌, List, [], ◌∷◌,
  is_some, inl, inr, Bool-cases, contains, arith,
}
use order_processor.Model.Ids.{IdT}
use order_processor.Model.Order.{Order}
use order_processor.Book.Defs as Book
use order_processor.Book.Defs.{Book}
use order_processor.Book.Refinement.{
  IsOrdered, at_order, queue, is_supported, QueuesChange, Added, Taken, add-Added, remove-Taken,
}
use order_processor.Acid.Operation.{
  Outcome, returned, threw, Operation, roll_back, execute_transaction,
}
use order_processor.Acid.Execution.{execute_from-threw, roll_back-returned}
use order_processor.Model.Enums.{Side}

-- A call of the book that throws leaves it as it was.
abbrev pub outcome : Book → Book.Result Book → Outcome Book
outcome b (Book.ok b') = returned b'
outcome b (Book.err e) = threw b

-- The operations of an order and an instrument's id.
unfoldable pub add_to_order_book : Order → IdT → Operation Book
add_to_order_book o instrument = record {
  object_id = o.order_id;
  related_id = instrument;
  execute = λ b. outcome b (Book.add o b);
  rollback = λ b. outcome b (Book.remove o b);
}

unfoldable pub remove_from_order_book : Order → IdT → Operation Book
remove_from_order_book o instrument = record {
  object_id = o.order_id;
  related_id = instrument;
  execute = λ b. outcome b (Book.remove o b);
  rollback = λ b. outcome b (Book.add o b);
}

-- Where an order can stand in a book.
abbrev pub HasPlace : Order → Book → Type 0
HasPlace o b = (is_some (b.groups o.instrument.id) ≡ true) × (is_supported o.side ≡ true)

abbrev pub waits : Order → Book → Bool
waits o b = contains o.order_id (queue b o.instrument.id o.side o.price)

Taken-absent :
    (o : Order) (b : Book) (r : Book.Result Book)
    → HasPlace o b
    → waits o b ≡ false
    → Taken o b r
    → r ≡ Book.err Book.order_not_found
Taken-absent o b (Book.ok b') p w t = ground arith
Taken-absent o b (Book.err Book.instrument_not_registered) p w t = ground arith
Taken-absent o b (Book.err Book.side_not_supported) p w t = ground arith
Taken-absent o b (Book.err Book.order_not_found) p w t = refl

abbrev pub append_id : Order → List ℕ → List ℕ
append_id o q = q ++ o.order_id ∷ []

Added-present :
    (o : Order) (b : Book) (r : Book.Result Book)
    → HasPlace o b
    → Added o b r
    → (b' : Book) × (r ≡ Book.ok b') × IsOrdered b' × QueuesChange (append_id o) o b b'
Added-present o b (Book.ok b') p a = (b', refl, a.0.2, a.0.3)
Added-present o b (Book.err Book.instrument_not_registered) p a = absurd (cc (a, p.0))
Added-present o b (Book.err Book.side_not_supported) p a = absurd (cc (a.1, p.1))
Added-present o b (Book.err Book.order_not_found) p a = absurd a

Taken-present :
    (o : Order) (b : Book) (r : Book.Result Book)
    → HasPlace o b
    → waits o b ≡ true
    → Taken o b r
    → (b' : Book) × (r ≡ Book.ok b') × IsOrdered b' × QueuesChange (erase_first o.order_id) o b b'
Taken-present o b (Book.ok b') p w t = (b', refl, t.3, t.4)
Taken-present o b (Book.err Book.instrument_not_registered) p w t = absurd (cc (t, p.0))
Taken-present o b (Book.err Book.side_not_supported) p w t = absurd (cc (t.1, p.1))
Taken-present o b (Book.err Book.order_not_found) p w t = absurd (cc (t.2, w))

module _ (o : Order) (j : IdT) (b : Book) where
  remove_threw :
      (e : Book.BookError)
      → Book.remove o b ≡ Book.err e
      → (remove_from_order_book o j).execute b ≡ threw b
  unfolding remove_from_order_book
  remove_threw e h = ap (outcome b) h

  readded :
      (b' : Book)
      → Book.add o b ≡ Book.ok b'
      → (remove_from_order_book o j).rollback b ≡ returned b'
  unfolding remove_from_order_book
  readded b' h = ap (outcome b) h

-- Removing an order that does not wait in the book fails, and the rollback of the removal then adds
-- the order: a transaction of this one operation reports a failure and leaves the id at the end of
-- its queue, and every other queue as it was. The order has a registered instrument and is a buy or a sell.
pub failed_remove-adds :
    (o : Order) (j : IdT) (b : Book)
    → IsOrdered b
    → HasPlace o b
    → waits o b ≡ false
    → (b' : Book) × (execute_transaction (remove_from_order_book o j ∷ []) b ≡ (false, b'))
      × QueuesChange (append_id o) o b b'
unfolding execute_transaction roll_back
failed_remove-adds o j b v p w =
    let (b', e, _, q) = Added-present o b (Book.add o b) p (add-Added o b v) in
    let op = remove_from_order_book o j in
    let f = remove_threw o j b _ (Taken-absent o b (Book.remove o b) p w (remove-Taken o b v)) in
    (
      b',
      execute_from-threw op [] b b [] f
          ∙ ap (λ t. (false, t)) (roll_back-returned op [] b b' (readded o j b b' e)),
      q,
    )

erase_first-append : (k : ℕ) (q : List ℕ) → contains k q ≡ false → erase_first k (q ++ k ∷ []) ≡ q
erase_first-append k [] h = ground arith
erase_first-append k (x ∷ xs) h = ground (arith, erase_first-append k xs)

contains-append_self : (k : ℕ) (q : List ℕ) → contains k (q ++ k ∷ []) ≡ true
contains-append_self k [] = ground arith
contains-append_self k (x ∷ xs) = ground (arith, contains-append_self k xs)

at_order_self :
    (o : Order) → is_supported o.side ≡ true → at_order o o.instrument.id o.side o.price ≡ true
at_order_self o h = ground arith

queue_self :
    (f : List ℕ → List ℕ) (o : Order) (b b' : Book)
    → is_supported o.side ≡ true
    → QueuesChange f o b b'
    → queue b' o.instrument.id o.side o.price ≡ f (queue b o.instrument.id o.side o.price)
queue_self f o b b' h c =
    c o.instrument.id o.side o.price
    ∙ ap
        (λ t.
          if t
          then f (queue b o.instrument.id o.side o.price)
          else queue b o.instrument.id o.side o.price)
        (at_order_self o h)

queue_same :
    (o : Order) (b : Book) (i : ℕ) (side : Side) (p : ℕ)
    → at_order o i side p ≡ true
    → queue b i side p ≡ queue b o.instrument.id o.side o.price
queue_same o b i side p h = ground arith

queue_place :
    (b : Book) (k i : ℕ) (side : Side) (p : ℕ)
    → contains k (queue b i side p) ≡ true
    → is_some (b.groups i) ≡ true
queue_place b k i side p h = ground arith

restored_queue :
    (o : Order) (b b' b'' : Book)
    → waits o b ≡ false
    → QueuesChange (append_id o) o b b'
    → QueuesChange (erase_first o.order_id) o b' b''
    → (i : ℕ) (side : Side) (p : ℕ) → queue b'' i side p ≡ queue b i side p
restored_queue o b b' b'' w c d i side p = elim (Bool-cases (at_order o i side p)) [
  | inl t ↦
      let h : contains o.order_id (queue b i side p) ≡ false = rw (queue_same o b i side p t) w in
      cc (c i side p, d i side p, t, erase_first-append o.order_id (queue b i side p) h)
  | inr f ↦ cc (c i side p, d i side p, f)
]

-- The addition of an order of a registered instrument, a buy or a sell that did not wait at its
-- price yet, succeeds, and so does its rollback, after which every queue is as it was before.
pub add_rolls_back :
    (o : Order) (j : IdT) (b : Book)
    → IsOrdered b
    → HasPlace o b
    → waits o b ≡ false
    → (b' : Book) × (b'' : Book) × ((add_to_order_book o j).execute b ≡ returned b')
      × ((add_to_order_book o j).rollback b' ≡ returned b'')
      × ((i : ℕ) (side : Side) (p : ℕ) → queue b'' i side p ≡ queue b i side p)
unfolding add_to_order_book
add_rolls_back o j b v p w =
    let (b', e, v', c) = Added-present o b (Book.add o b) p (add-Added o b v) in
    let waiting : waits o b' ≡ true =
      rw (queue_self (append_id o) o b b' p.1 c)
        (contains-append_self o.order_id (queue b o.instrument.id o.side o.price)) in
    let place : HasPlace o b' = (queue_place b' o.order_id _ o.side o.price waiting, p.1) in
    let (b'', f, _, d) =
      Taken-present o b' (Book.remove o b') place waiting (remove-Taken o b' v') in
    (b', b'', ap (outcome b) e, ap (outcome b') f, restored_queue o b b' b'' w c d)
