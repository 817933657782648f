-- ===== src/Model/Generator.antt =====
-- The ids of `IdTValueGenerator`, src/IdTGenerator.cpp, and their order in src/TypesDef.h.
use order_processor.Common.{
  ℕ, suc, ◌+◌, ◌*◌, ◌%◌, ◌^◌, ◌<◌, ◌≡◌, ◌≢◌, ◌↔◌, true, List, [], ◌∷◌, arith, length, All, Above,
  IsAscending,
}
use order_processor.Model.Ids.{IdT, id_lt, make_id, date_limit, is_valid_id, get_id}

-- The ids of calls at the given times.
unfoldable pub next_ids : List ℕ → ℕ → List IdT
unfolding get_id
next_ids [] counter = []
next_ids (now ∷ times) counter =
    let (k, counter') = get_id now counter in k ∷ next_ids times counter'

counter_step : (counter n : ℕ) → counter + suc n < 2 ^ 64 → (counter + 1) % 2 ^ 64 ≡ counter + 1
counter_step counter n h = omega arith

-- An id is above every one with a smaller counter.
next_ids-Above :
    (times : List ℕ) (counter k : ℕ)
    → counter + length times < 2 ^ 64
    → k < counter * date_limit
    → Above k (next_ids times counter)
unfolding next_ids get_id
next_ids-Above [] counter k h b = tt
next_ids-Above (now ∷ times) counter k h b = rw (counter_step counter (length times) h) (
  omega arith,
  next_ids-Above times (counter + 1) (make_id counter now) (omega arith) (omega arith),
)

next_ids-valid :
    (times : List ℕ) (counter : ℕ)
    → 0 < counter
    → counter + length times < 2 ^ 64
    → All (λ now. now % date_limit ≢ 0) times
    → All (λ k. is_valid_id k ≡ true) (next_ids times counter)
unfolding next_ids get_id is_valid_id
next_ids-valid [] counter p h d = tt
next_ids-valid (now ∷ times) counter p h d =
    rw (counter_step counter (length times) h)
      (ground arith, next_ids-valid times (counter + 1) (omega arith) (omega arith) d.1)

next_ids-IsAscending :
    (times : List ℕ) (counter : ℕ)
    → counter + length times < 2 ^ 64
    → IsAscending (next_ids times counter)
unfolding next_ids get_id
next_ids-IsAscending [] counter h = tt
next_ids-IsAscending (now ∷ times) counter h =
    rw (counter_step counter (length times) h)
      (next_ids-Above times (counter + 1) (make_id counter now) (omega arith) (omega arith))

-- From a positive counter that does not wrap, and at times whose low 32 bits are not all 0, the
-- generator gives valid ids, each of them above the one before it.
pub next_ids-AreFresh :
    (times : List ℕ) (counter : ℕ)
    → 0 < counter
    → counter + length times < 2 ^ 64
    → All (λ now. now % date_limit ≢ 0) times
    → IsAscending (next_ids times counter)
      × All (λ k. is_valid_id k ≡ true) (next_ids times counter)
next_ids-AreFresh times counter p h d =
    (next_ids-IsAscending times counter h, next_ids-valid times counter p h d)

-- `operator<` on ids is the order of the numbers that stand for them.
pub id_lt-lt : (l r : IdT) → (id_lt l r ≡ true) ↔ (l < r)
unfolding id_lt
id_lt-lt l r = (λ h. ground arith, λ h. ground arith)
