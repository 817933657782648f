-- ===== src/Book/Start.antt =====
-- The book after `init` of src/OrderBookImpl.cpp.
use order_processor.Common.{
  ℕ, ◌≡◌, refl, Option, none, some, is_some, List, [], ◌∷◌, arith, contains, update, if◌then◌else◌,
}
use order_processor.Model.Ids.{IdT}
use order_processor.Model.Enums
use order_processor.Book.Side.{at_price}
use order_processor.Book.Defs.{Group, init, register, empty_group}
use order_processor.Book.Refinement.{IsOrdered, queue}

register-groups :
    (is : List IdT) (groups : ℕ → Option Group) (i : IdT)
    → register is groups i ≡ (if contains i is then some empty_group else groups i)
unfolding register
register-groups [] groups i = refl
register-groups (j ∷ is) groups i =
    ground (arith, register-groups is (update groups j (some empty_group)) i)

init-groups :
    (is : List IdT) (i : IdT)
    → (init is).groups i ≡ (if contains i is then some empty_group else none)
unfolding init
init-groups is i = register-groups is (λ j. none) i

-- After `init` the instruments of the list are registered and no others, every side is in order, and
-- no order waits.
pub init-starts :
    (is : List IdT)
    → ((i : IdT) → is_some ((init is).groups i) ≡ contains i is)
      × IsOrdered (init is)
      × ((i : IdT) (side : Enums.Side) (p : ℕ) → queue (init is) i side p ≡ [])
unfolding at_price
init-starts is = (
  λ i. ground (arith, init-groups is i),
  λ i. ground (arith, init-groups is i),
  λ i side p. ground (arith, init-groups is i),
)
