-- ===== src/Examples/Transactions.antt =====
-- The theorems on transactions at the orders of the examples.
use order_processor.Common.{
  ℕ, ◌≡◌, refl, ◌+◌, ◌-◌, ◌%◌, ◌<◌, ◌⊎◌, false, none, some, [], ◌∷◌, ◌++◌, arith,
}
use order_processor.Model.Enums.{Side}
use order_processor.Model.Ids.{make_id}
use order_processor.Book.Defs.{Book}
use order_processor.Book.Side.{at_price}
use order_processor.Book.Refinement.{IsOrdered, QueuesChange, queue}
use order_processor.Acid.Operation.{Operation, returned, threw, execute_transaction}
use order_processor.Acid.Execution.{nothing, run, execute_transaction-stuck}
use order_processor.Acid.Scope.{Scope, arena_allocate, arena_size}
use order_processor.Acid.Stages.{IsStaged, call, starts_stage, call-IsStaged}
use order_processor.Acid.Related.{Noting, names, get_related_objects, get_related_objects-Noting}
use order_processor.Acid.Arena.{Block, arena_allocate-Block}
use order_processor.Acid.BookOperations.{
  add_to_order_book, remove_from_order_book, failed_remove-adds, add_rolls_back, append_id,
}
use order_processor.Examples.Data.{book, bid, instrument_id}

book-IsOrdered : IsOrdered book
book-IsOrdered i = ground arith

failed_remove-adds_example :
    (b' : Book) × (execute_transaction (remove_from_order_book bid instrument_id ∷ []) book
      ≡ (false, b'))
    × QueuesChange (append_id bid) bid book b'
failed_remove-adds_example =
    failed_remove-adds bid instrument_id book book-IsOrdered (refl, refl) (unfold at_price in refl)

add_rolls_back_example :
    (b' : Book) × (b'' : Book) × ((add_to_order_book bid instrument_id).execute book ≡ returned b')
    × ((add_to_order_book bid instrument_id).rollback b' ≡ returned b'')
    × ((i : ℕ) (side : Side) (p : ℕ) → queue b'' i side p ≡ queue book i side p)
add_rolls_back_example =
    add_rolls_back bid instrument_id book book-IsOrdered (refl, refl) (unfold at_price in refl)

-- Adds a number, and takes it back; the second always throws, without a change.
abbrev adds_number : ℕ → Operation ℕ
adds_number n = record {
  object_id = make_id 1 1;
  related_id = make_id 7 1;
  execute = λ s. returned (s + n);
  rollback = λ s. returned (s - n);
}

abbrev throws : Operation ℕ
throws = record {
  object_id = make_id 1 1;
  related_id = make_id 8 1;
  execute = λ s. threw s;
  rollback = λ s. returned s;
}

abbrev throws_twice : Operation ℕ
throws_twice = record {
  object_id = make_id 2 1;
  related_id = 0;
  execute = λ s. threw s;
  rollback = λ s. threw s;
}

-- The 5 stays.
execute_transaction-stuck_example :
    execute_transaction ((adds_number 5 ∷ []) ++ throws_twice ∷ []) 2 ≡ (false, 7)
execute_transaction-stuck_example =
    execute_transaction-stuck (adds_number 5 ∷ []) throws_twice [] 2 7 7 7 (run refl (nothing 7))
      refl refl

abbrev scope : Scope ℕ
scope = record { operations = 4 ∷ 5 ∷ []; boundaries = 0 ∷ 1 ∷ []; id = 0; arena_offset = 33 }

call-IsStaged_example : IsStaged (call starts_stage scope)
call-IsStaged_example = call-IsStaged starts_stage scope (omega arith)

arena_allocate-Block_example :
    ((start : ℕ) × (sc' : Scope ℕ) × (arena_allocate 48 16 scope ≡ (some start, sc'))
      × Block 48 16 scope sc' start)
    ⊎ ((arena_allocate 48 16 scope ≡ (none, scope)) × (arena_size < 33 + (16 - 33 % 16) % 16 + 48))
arena_allocate-Block_example =
    arena_allocate-Block 48 16 scope (omega arith) (omega arith) (omega arith) (omega arith)

get_related_objects-Noting_example :
    Noting
      (λ k. names k (adds_number 5 ∷ throws ∷ []))
      []
      (get_related_objects (adds_number 5 ∷ throws ∷ []))
get_related_objects-Noting_example = get_related_objects-Noting (adds_number 5 ∷ throws ∷ [])
