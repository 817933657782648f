-- ===== src/Tree/Gaps.antt =====
-- A key leaves the set of the users of an object, in `remove` of src/NLinkedTree.cpp.
use order_processor.Common.{
  ℕ, ◌<◌, ◌≡◌, refl, true, false, not, ◌&&◌, List, [], ◌∷◌, arith, ltb, ◌==◌, erase_key, contains,
  Above, IsAscending, if◌then◌else◌, Bool-cases, inl, inr,
}
use order_processor.Model.Ids.{IdT}
use order_processor.Tree.Defs.{no_key}
use order_processor.Tree.Remove.{neighbours_after, neighbours, first_or_none}
use order_processor.Tree.Chains.{Chained}

Above-weaken : (n m : ℕ) (xs : List IdT) → n < m → Above m xs → Above n xs
Above-weaken n m [] h a = tt
Above-weaken n m (x ∷ xs) h a = (omega (arith, a.0), a.1)

Above-IsAscending : (n : ℕ) (xs : List IdT) → Above n xs → IsAscending xs
Above-IsAscending n [] a = tt
Above-IsAscending n (x ∷ xs) a = a.1

erase_key-Above : (k n : ℕ) (xs : List IdT) → Above n xs → Above n (erase_key k xs)
unfolding erase_key
erase_key-Above k n [] a = tt
erase_key-Above k n (x ∷ xs) a =
    ground (arith, erase_key-Above k x xs, Above-weaken n x (erase_key k xs))

pub erase_key-IsAscending : (k : ℕ) (xs : List IdT) → IsAscending xs → IsAscending (erase_key k xs)
unfolding erase_key
erase_key-IsAscending k [] a = tt
erase_key-IsAscending k (x ∷ xs) a =
    ground (arith, erase_key-Above k x xs a, Above-IsAscending x (erase_key k xs))

Above-absent : (k n : ℕ) (xs : List IdT) → Above n xs → ltb n k ≡ false → contains k xs ≡ false
Above-absent k n [] a h = refl
Above-absent k n (x ∷ xs) a h = ground (arith, Above-absent k x xs a.1)

pub erase_key-absent : (k : ℕ) (xs : List IdT) → contains k xs ≡ false → erase_key k xs ≡ xs
unfolding erase_key
erase_key-absent k [] h = refl
erase_key-absent k (x ∷ xs) h = ground (arith, erase_key-absent k xs)

-- The link over the gap between the neighbours of a key.
abbrev pub Bridge : (IdT → List IdT) → IdT × IdT → Type 0
Bridge g (c, p) = (if not (c == no_key) && not (p == no_key) then contains p (g c) else true) ≡ true

-- Only a link to the key is lost.
module _ (f g : IdT → List IdT) (k : IdT)
    (keep : (x y : IdT)
      → (x == k) ≡ false
      → contains x (f y) ≡ true
      → contains x (g y) ≡ true) where
  Chained-tail : (x : IdT) (xs : List IdT) → Chained f (x ∷ xs) → Chained f xs
  Chained-tail x [] c = tt
  Chained-tail x (y ∷ ys) c = c.1

  pub Chained-mono : (xs : List IdT) → contains k xs ≡ false → Chained f xs → Chained g xs
  Chained-mono [] h c = tt
  Chained-mono (x ∷ []) h c = tt
  Chained-mono (x ∷ y ∷ ys) h c =
      (keep x y (ground arith) c.0, Chained-mono (y ∷ ys) (ground arith) c.1)

  -- Over the gap.
  over :
      (p x : IdT) (xs : List IdT)
      → (p == k) ≡ false
      → contains k xs ≡ false
      → contains no_key (p ∷ x ∷ xs) ≡ false
      → Chained f (x ∷ xs)
      → Bridge g (first_or_none xs, p)
      → Chained g (p ∷ xs)
  over p x [] n gone z c b = tt
  over p x (y ∷ ys) n gone z c b = (ground arith, Chained-mono (y ∷ ys) gone c.1)

  Chained-gap :
      (p : IdT) (xs : List IdT)
      → (p == k) ≡ false
      → contains no_key (p ∷ xs) ≡ false
      → Above p xs
      → Chained f (p ∷ xs)
      → Bridge g (neighbours_after p k xs)
      → Chained g (p ∷ erase_key k xs)
  unfolding neighbours_after erase_key
  Chained-gap p [] n z a c b = tt
  Chained-gap p (x ∷ xs) n z a c b = elim (Bool-cases (x == k)) [
    | inl h ↦
        let gone : contains k xs ≡ false = Above-absent k x xs a.1 (ground arith) in
        rw h (rw (erase_key-absent k xs gone) (over p x xs n gone z c.1 (rw h at b)))
    | inr h ↦ rw h (keep p x n c.0, Chained-gap x xs h (ground arith) a.1 c.1 (rw h at b))
  ]

  pub Chained-erase :
      (xs : List IdT)
      → contains no_key xs ≡ false
      → IsAscending xs
      → Chained f xs
      → Bridge g (neighbours k xs)
      → Chained g (erase_key k xs)
  unfolding neighbours neighbours_after erase_key
  Chained-erase [] z a c b = tt
  Chained-erase (x ∷ xs) z a c b = elim (Bool-cases (x == k)) [
    | inl h ↦
        let gone : contains k xs ≡ false = Above-absent k x xs a (ground arith) in
        rw h (rw (erase_key-absent k xs gone) (Chained-mono xs gone (Chained-tail x xs c)))
    | inr h ↦ rw h (Chained-gap x xs h z a c (rw h at b))
  ]

-- The neighbours of a key are other members of the set, or no key.
abbrev pub IsOther : IdT → List IdT → IdT → Type 0
IsOther k xs x = (if x == no_key then true else contains x xs && not (x == k)) ≡ true

neighbours_after-others :
    (k p : IdT) (xs ys : List IdT)
    → IsAscending xs
    → ((x : IdT) → contains x xs ≡ true → contains x ys ≡ true)
    → IsOther k ys p
    → IsOther k ys (neighbours_after p k xs).0 × IsOther k ys (neighbours_after p k xs).1
unfolding neighbours_after
neighbours_after-others k p [] ys a s h = (refl, refl)
neighbours_after-others k p (x ∷ []) ys a s h = ground arith
neighbours_after-others k p (x ∷ y ∷ xs) ys a s h =
    ground
      (arith, s x, s y, neighbours_after-others k x (y ∷ xs) ys a.1 (λ z m. s z (ground arith)))

pub neighbours-others :
    (k : IdT) (xs : List IdT)
    → IsAscending xs
    → IsOther k xs (neighbours k xs).0 × IsOther k xs (neighbours k xs).1
unfolding neighbours
neighbours-others k xs a = neighbours_after-others k no_key xs xs a (λ x m. m) refl
