-- ===== src/Book/Search.antt =====
-- `find`, `findAll` and `getTop` of src/OrderBookImpl.cpp: which order they choose.
use order_processor.Common.{
  ℕ, ◌≡◌, refl, ◌⊎◌, inl, inr, true, false, List, [], ◌∷◌, ◌++◌, arith, All, Bool-cases, ==-refl,
  if◌then◌else◌,
}
use order_processor.Model.Ids.{IdT}
use order_processor.Book.Side.{
  Entry, Answer, Direction, before, no_id, find, find_all, top, at_price, IsSorted,
}
use order_processor.Book.Priority.{at_price-before}

-- The functor neither takes an entry nor stops there.
abbrev pub Passes : (IdT → Answer) → Entry → Type 0
Passes match' e = ((match' e.id).taken ≡ false) × ((match' e.id).stop ≡ false)

-- No entry is taken up to the first one that stops the search.
abbrev pub NoneTaken : (IdT → Answer) → List Entry → Type 0
NoneTaken match' [] = Unit {0}
NoneTaken match' (e ∷ es) =
    ((match' e.id).taken ≡ false) × (((match' e.id).stop ≡ true) ⊎ NoneTaken match' es)

pub record Hit (match' : IdT → Answer) (es : List Entry) (r : IdT) : Type 0 where
  pub front : List Entry
  pub entry : Entry
  pub back : List Entry
  pub split : es ≡ front ++ entry ∷ back
  pub passed : All (Passes match') front
  pub taken : (match' entry.id).taken ≡ true
  pub result : r ≡ entry.id

Hit-cons :
    (match' : IdT → Answer) (e : Entry) (es : List Entry) (r : IdT)
    → Passes match' e
    → Hit match' es r
    → Hit match' (e ∷ es) r
Hit-cons match' e es r p h = record {
  front = e ∷ h.front;
  entry = h.entry;
  back = h.back;
  split = ground (arith, h.split);
  passed = (p, h.passed);
  taken = h.taken;
  result = h.result;
}

module _ (match' : IdT → Answer) (e : Entry) (es : List Entry) where
  find-takes : (match' e.id).taken ≡ true → find match' (e ∷ es) ≡ e.id
  unfolding find
  find-takes t = ground arith

  find-stops :
      (match' e.id).taken ≡ false → (match' e.id).stop ≡ true → find match' (e ∷ es) ≡ no_id
  unfolding find
  find-stops n s = ground arith

  find-skips : Passes match' e → find match' (e ∷ es) ≡ find match' es
  unfolding find
  find-skips p = ground arith

-- `find` returns the first entry that the functor takes, if the functor does not stop before it; else
-- no entry is taken up to the stop, and it returns the invalid id.
pub find-first :
    (match' : IdT → Answer) (es : List Entry)
    → Hit match' es (find match' es) ⊎ (NoneTaken match' es × (find match' es ≡ no_id))
find-first match' [] = inr (tt, unfold find in refl)
find-first match' (e ∷ es) = elim (Bool-cases (match' e.id).taken) [
  | inl t ↦ inl (record {
    front = [];
    entry = e;
    back = es;
    split = refl;
    passed = tt;
    taken = t;
    result = find-takes match' e es t;
  })
  | inr n ↦ elim (Bool-cases (match' e.id).stop) [
    | inl s ↦ inr ((n, inl s), find-stops match' e es n s)
    | inr g ↦ rw (find-skips match' e es (n, g)) (elim (find-first match' es) [
      | inl h ↦ inl (Hit-cons match' e es _ (n, g) h)
      | inr h ↦ inr ((n, inr h.0), h.1)
    ])
  ]
]

-- The entries up to the first one that stops the search, with it.
abbrev pub reached : (IdT → Answer) → List Entry → List Entry
reached match' [] = []
reached match' (e ∷ es) = e ∷ (if (match' e.id).stop then [] else reached match' es)

abbrev pub taken_ids : (IdT → Answer) → List Entry → List IdT
taken_ids match' [] = []
taken_ids match' (e ∷ es) =
    if (match' e.id).taken then e.id ∷ taken_ids match' es else taken_ids match' es

-- `find_all` returns the ids that the functor takes, in the order of the side, among the entries up to
-- the first one that stops it, with it.
pub find_all-taken :
    (match' : IdT → Answer) (es : List Entry)
    → find_all match' es ≡ taken_ids match' (reached match' es)
unfolding find_all
find_all-taken match' [] = refl
find_all-taken match' (e ∷ es) = ground (arith, find_all-taken match' es)

-- The best price of a side.
pub record Best (d : Direction) (es : List Entry) (r : IdT) : Type 0 where
  pub price : ℕ
  pub first : List IdT
  pub waits : at_price price es ≡ r ∷ first
  pub best : (p : ℕ) → (if before d p price then at_price p es else []) ≡ []

-- On a side in order `getTop` returns the oldest order of a price before which no order waits; for an
-- empty side it returns the invalid id.
pub top-Best :
    (d : Direction) (es : List Entry)
    → IsSorted d es
    → ((es ≡ []) × (top es ≡ no_id)) ⊎ Best d es (top es)
unfolding top
top-Best d [] s = inl (refl, refl)
top-Best d (e ∷ es) s = inr (record {
  price = e.price;
  first = at_price e.price es;
  waits = unfold at_price in rw (==-refl e.price);
  best = λ p. elim (Bool-cases (before d p e.price)) [
    | inl b ↦ rw b (at_price-before d p e es b s)
    | inr b ↦ rw b
  ];
})
