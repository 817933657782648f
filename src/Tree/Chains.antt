-- ===== src/Tree/Chains.antt =====
-- Sets of keys in order, and chains of parents along them, for src/NLinkedTree.cpp.
use order_processor.Common.{
  ℕ, ◌<◌, ◌≡◌, refl, true, false, some, List, [], ◌∷◌, ◌++◌, ◌||◌, arith, ◌==◌, insert_key,
  contains, Above, IsAscending, Bool-cases, inl, inr,
}
use order_processor.Model.Ids.{IdT}
use order_processor.Tree.Defs.{last}

-- Each key of the list is a parent of the next one.
abbrev pub Chained : (IdT → List IdT) → List IdT → Type 0
Chained parents [] = Unit {0}
Chained parents (x ∷ []) = Unit {0}
Chained parents (x ∷ y ∷ ys) = (contains x (parents y) ≡ true) × Chained parents (y ∷ ys)

abbrev pub AllBelow : ℕ → List IdT → Type 0
AllBelow k [] = Unit {0}
AllBelow k (x ∷ xs) = (x < k) × AllBelow k xs

-- No key twice.
abbrev pub HasNoRepeats : List IdT → Type 0
HasNoRepeats [] = Unit {0}
HasNoRepeats (x ∷ xs) = (contains x xs ≡ false) × HasNoRepeats xs

pub contains-append :
    (k j : IdT) (xs : List IdT) → contains k (xs ++ j ∷ []) ≡ (contains k xs || (j == k))
contains-append k j [] = ground arith
contains-append k j (x ∷ xs) = ground (arith, contains-append k j xs)

pub HasNoRepeats-append :
    (k : IdT) (xs : List IdT)
    → HasNoRepeats xs
    → contains k xs ≡ false
    → HasNoRepeats (xs ++ k ∷ [])
HasNoRepeats-append k [] d h = (refl, tt)
HasNoRepeats-append k (x ∷ xs) d h =
    (ground (arith, contains-append x k xs), HasNoRepeats-append k xs d.1 (ground arith))

pub AllBelow-contains :
    (k : ℕ) (xs : List IdT) → ((x : IdT) → contains x xs ≡ true → x < k) → AllBelow k xs
AllBelow-contains k [] h = tt
AllBelow-contains k (x ∷ xs) h =
    (h x (ground arith), AllBelow-contains k xs (λ y m. h y (ground arith)))

pub last-contains : (xs : List IdT) (p : IdT) → last xs ≡ some p → contains p xs ≡ true
last-contains [] p e = cc
last-contains (x ∷ []) p e = ground arith
last-contains (x ∷ y ∷ ys) p e = ground (arith, last-contains (y ∷ ys) p e)

insert_key-Above : (k n : ℕ) (xs : List IdT) → n < k → Above n xs → Above n (insert_key k xs)
unfolding insert_key
insert_key-Above k n [] h a = (h, tt)
insert_key-Above k n (x ∷ xs) h a = ground (arith, insert_key-Above k x xs)

pub insert_key-IsAscending :
    (k : ℕ) (xs : List IdT) → IsAscending xs → IsAscending (insert_key k xs)
unfolding insert_key
insert_key-IsAscending k [] a = tt
insert_key-IsAscending k (x ∷ xs) a = ground (arith, insert_key-Above k x xs)

-- The parents change for one key that is not in the list.
pub Chained-elsewhere :
    (f g : IdT → List IdT) (k : IdT) (xs : List IdT)
    → ((y : IdT) → (k == y) ≡ false → g y ≡ f y)
    → contains k xs ≡ false
    → Chained f xs
    → Chained g xs
Chained-elsewhere f g k [] same n c = tt
Chained-elsewhere f g k (x ∷ []) same n c = tt
Chained-elsewhere f g k (x ∷ y ∷ ys) same n c =
    (rw (same y (ground arith)) c.0, Chained-elsewhere f g k (y ∷ ys) same (ground arith) c.1)

-- A key above all others joins the end, below the last one.
pub Chained-insert :
    (f : IdT → List IdT) (k : IdT) (xs : List IdT)
    → AllBelow k xs
    → ((p : IdT) → last xs ≡ some p → contains p (f k) ≡ true)
    → Chained f xs
    → Chained f (insert_key k xs)
unfolding insert_key
Chained-insert f k [] b l c = tt
Chained-insert f k (x ∷ []) b l c = ground (arith, l x refl)
Chained-insert f k (x ∷ y ∷ ys) b l c = ground (arith, Chained-insert f k (y ∷ ys) b.1 l c.1)

-- Only the first key of a chain can be without parents.
pub Chained-first :
    (f : IdT → List IdT) (k : IdT) (xs : List IdT)
    → Chained f xs
    → contains k xs ≡ true
    → f k ≡ []
    → (ys : List IdT) × (xs ≡ k ∷ ys)
Chained-first f k [] c m e = absurd (cc m)
Chained-first f k (x ∷ []) c m e = ([], ground arith)
Chained-first f k (x ∷ y ∷ ys) c m e = elim (Bool-cases (x == k)) [
  | inl h ↦ (y ∷ ys, ground arith)
  | inr h ↦
      let (zs, q) = Chained-first f k (y ∷ ys) c.1 (ground arith) e in absurd (ground (arith, q))
]
