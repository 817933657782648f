-- ===== src/Model/Ids.antt =====
-- `IdT` of src/TypesDef.h, and the generator of src/IdTGenerator.cpp.
-- An `IdT` is kept as one number, `id_ * 2^32 + date_`: `date_` has 32 bits, so the order of these
-- numbers is the order that `operator<` computes from the fields, and `IdT()` is 0.
use order_processor.Common.{ℕ, ◌+◌, ◌*◌, ◌/◌, ◌%◌, ◌^◌, Bool, ◌&&◌, ltb, ◌==◌, if◌then◌else◌}

abbrev pub IdT : Type 0
IdT = ℕ

abbrev pub date_limit : ℕ
date_limit = 2 ^ 32

abbrev pub make_id : ℕ → ℕ → IdT
make_id id date = id * date_limit + date % date_limit

abbrev pub id_field : IdT → ℕ
id_field k = k / date_limit

abbrev pub date_field : IdT → ℕ
date_field k = k % date_limit

-- `IdT::isValid`
unfoldable pub is_valid_id : IdT → Bool
is_valid_id k = not_zero (date_field k) && not_zero (id_field k)
  where
    not_zero : ℕ → Bool
    not_zero n = ltb 0 n

-- `operator<`, by the fields.
unfoldable pub id_lt : IdT → IdT → Bool
id_lt l r =
    if id_field l == id_field r
    then ltb (date_field l) (date_field r)
    else ltb (id_field l) (id_field r)

-- `IdTValueGenerator`: the counter, from 1.
abbrev pub first_counter : ℕ
first_counter = 1

-- `getId`: the time is an argument, and the counter has 64 bits.
unfoldable pub get_id : ℕ → ℕ → IdT × ℕ
get_id now counter = (make_id counter now, (counter + 1) % 2 ^ 64)
