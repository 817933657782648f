-- ===== src/Filters/Values.antt =====
-- The filters of single values in src/FilterImpl.h and src/FilterImpl.cpp. A filter is its class with the
-- values that its constructor got.
use order_processor.Common.{
  ℕ, ℕ_discrete, Bool, true, false, ◌&&◌, Option, none, some, List, [], ◌∷◌, leb, ltb, ◌==◌, ite,
}
use order_processor.Model.Ids.{IdT, make_id, id_field, date_field}
use order_processor.Model.Order.{Text}

-- The filters of prices, quantities, times and other numbers.
pub data NumberFilter : Type 0 where
  equal less greater less_equal greater_equal : ℕ → NumberFilter
  in_range : ℕ → ℕ → NumberFilter

unfoldable pub filter_number : NumberFilter → ℕ → Bool
filter_number (equal v) n = n == v
filter_number (less v) n = ltb n v
filter_number (greater v) n = ltb v n
filter_number (less_equal v) n = leb n v
filter_number (greater_equal v) n = leb v n
filter_number (in_range begin end) n = leb n end && leb begin n

-- `EnumEqualFilter` and `EnumInSetFilter`
pub data EnumFilter (A : Type 0) : Type 0 where
  is : A → EnumFilter A
  is_in : List A → EnumFilter A

module _ {A : Type 0} (discrete : Discrete A) where
  unfoldable pub member : A → List A → Bool
  member a [] = false
  member a (b ∷ bs) = let rest = member a bs in ite (discrete a b) true rest

  unfoldable pub filter_enum : EnumFilter A → A → Bool
  unfolding member
  filter_enum (is v) a = ite (discrete a v) true false
  filter_enum (is_in vs) a = member a vs

  -- `EnumSetInSetFilter`
  unfoldable pub filter_subset : List A → List A → Bool
  unfolding member
  filter_subset vs [] = true
  filter_subset vs (a ∷ more) = let rest = filter_subset vs more in member a vs && rest

pub Text-discrete : Discrete Text
Text-discrete = hlevel ℕ_discrete

-- The subclasses of `StringFilter`
pub data StringFilter : Type 0 where
  string_equal : Text → StringFilter
  string_in_set : List Text → StringFilter
  string_match : Text → StringFilter

-- `regex_match` is that of the C++ library: pattern and text.
module _ (regex_match : Text → Text → Bool) where
  unfoldable pub filter_string : StringFilter → Text → Bool
  unfolding member
  filter_string (string_equal v) t = ite (Text-discrete t v) true false
  filter_string (string_in_set vs) t = member Text-discrete t vs
  filter_string (string_match p) t = regex_match p t

-- `getVal` of the filters. `none` is the result `false`.
unfoldable pub get_string : StringFilter → Option Text
get_string (string_equal v) = some v
get_string _ = none

-- The subclasses of `IdTDateFilter`
pub data DateFilter : Type 0 where
  date : NumberFilter → DateFilter
  date_match : Text → DateFilter

unfoldable pub filter_date : DateFilter → ℕ → Bool
unfolding filter_number
filter_date (date f) n = filter_number f n
filter_date (date_match p) n = false

unfoldable pub get_date : DateFilter → Option ℕ
get_date (date (equal v)) = some v
get_date _ = none

-- `IdTFilter`, with the value of its `IdTIdEqualFilter`
pub record IdFilter : Type 0 where
  pub id_filter : Option IdT
  pub date_filters : List DateFilter

abbrev pub filter_id : Option IdT → IdT → Bool
filter_id none k = true
filter_id (some v) k = k == v

unfoldable pub filter_dates : List DateFilter → ℕ → Bool
unfolding filter_date
filter_dates [] n = true
filter_dates (f ∷ fs) n = let rest = filter_dates fs n in filter_date f n && rest

-- `IdTFilter::match`
unfoldable pub match_id : IdFilter → IdT → Bool
unfolding filter_dates
match_id f k = filter_id f.id_filter k && filter_dates f.date_filters (date_field k)

-- `IdTFilter::getVal`, on an id that the caller has.
abbrev pub first_id : Option IdT → IdT → IdT
first_id none k = k
first_id (some v) k = v

abbrev pub with_date : Option ℕ → IdT → Option IdT
with_date none k = none
with_date (some n) k = some (make_id (id_field k) n)

abbrev pub single_date : List DateFilter → IdT → Option IdT
single_date (f ∷ []) k = with_date (get_date f) k
single_date _ k = none

unfoldable pub get_id_val : IdFilter → IdT → Option IdT
unfolding get_date
get_id_val f k = single_date f.date_filters (first_id f.id_filter k)
