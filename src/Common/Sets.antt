-- ===== src/Common/Sets.antt =====
-- `std::set` and `std::map` over numeric keys: a set is its elements in ascending order, a map is a
-- function that is changed at one key.
use Prim.Native.Nat.{ℕ, ◌<◌}
use mathlib.Core.Path.{◌≡◌, refl}
use mathlib.Core.Bool.{Bool, false, not, ◌&&◌, ◌||◌}
use mathlib.Core.List.{List, [], ◌∷◌}
use native.Mathlib.Omega.{arith}
use order_processor.Common.Tests.{ltb, ◌==◌, if◌then◌else◌}

abbrev pub contains : ℕ → List ℕ → Bool
contains k [] = false
contains k (x ∷ xs) = (x == k) || contains k xs

-- `set.insert(k)`: an element that is there already is not inserted again.
unfoldable pub insert_key : ℕ → List ℕ → List ℕ
insert_key k [] = k ∷ []
insert_key k (x ∷ xs) =
    if ltb k x then k ∷ x ∷ xs else if k == x then x ∷ xs else x ∷ insert_key k xs

-- `set.erase(k)`
unfoldable pub erase_key : ℕ → List ℕ → List ℕ
erase_key k [] = []
erase_key k (x ∷ xs) = let rest = erase_key k xs in if x == k then rest else x ∷ rest

pub contains-insert_key :
    (k j : ℕ) (s : List ℕ) → contains j (insert_key k s) ≡ ((k == j) || contains j s)
unfolding insert_key
contains-insert_key k j [] = refl
contains-insert_key k j (x ∷ xs) = ground (arith, contains-insert_key k j xs)

pub contains-erase_key :
    (k j : ℕ) (s : List ℕ) → contains j (erase_key k s) ≡ (not (k == j) && contains j s)
unfolding erase_key
contains-erase_key k j [] = ground arith
contains-erase_key k j (x ∷ xs) = ground (arith, contains-erase_key k j xs)

-- Strictly ascending, and above a bound.
abbrev pub Above : ℕ → List ℕ → Type 0
Above n [] = Unit {0}
Above n (x ∷ xs) = (n < x) × Above x xs

abbrev pub IsAscending : List ℕ → Type 0
IsAscending [] = Unit {0}
IsAscending (x ∷ xs) = Above x xs

abbrev pub update {ℓ} : {A : Type ℓ} → (ℕ → A) → ℕ → A → ℕ → A
update m k v j = if k == j then v else m j

-- A queue without the first occurrence of an element.
abbrev pub erase_first : ℕ → List ℕ → List ℕ
erase_first k [] = []
erase_first k (x ∷ xs) = if x == k then xs else x ∷ erase_first k xs
