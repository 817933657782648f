-- ===== src/Tree/Cursor.antt =====
-- The walk over the root by `next` in src/NLinkedTree.cpp.
use order_processor.Common.{
  ℕ, zero, suc, ◌≡◌, refl, sym, ap, subst, ◌∙◌, true, Option, none, some, List, [], ◌∷◌, ◌++◌,
  arith, contains, take,
}
use mathlib.Core.List.{append_assoc}
use order_processor.Model.Ids.{IdT}
use order_processor.Tree.Defs.{Tree}
use order_processor.Tree.Walk.{next, successor, first_key, move_to}
use order_processor.Tree.Chains.{HasNoRepeats}

contains-middle : (c : IdT) (xs ys : List IdT) → contains c (xs ++ c ∷ ys) ≡ true
contains-middle c [] ys = ground arith
contains-middle c (x ∷ xs) ys = ground (arith, contains-middle c xs ys)

successor-middle :
    (c : IdT) (xs ys : List IdT)
    → HasNoRepeats (xs ++ c ∷ ys)
    → successor c (xs ++ c ∷ ys) ≡ first_key ys
unfolding successor
successor-middle c [] [] d = ground arith
successor-middle c [] (y ∷ ys) d = ground arith
successor-middle c (x ∷ xs) ys d =
    ground (arith, successor-middle c xs ys d.1, contains-middle c xs ys)

abbrev pub emit : Option IdT → List IdT → List IdT
emit none more = []
emit (some x) more = x ∷ more

module _ {ℓ} {V : Type ℓ} where
  -- The keys that successive calls of `next` give, up to the first that gives none.
  unfoldable pub walk : ℕ → Tree V → List IdT
  walk zero t = []
  walk (suc n) t = let (k, t') = next t in emit k (walk n t')

  at : Tree V → Option IdT → Tree V
  at t k = record t { current = k }

  moved : ℕ → Tree V → Option IdT → List IdT
  moved n t k = emit (move_to t k).0 (walk n (move_to t k).1)

  walk_from :
      (n : ℕ) (t : Tree V) (c : IdT) (xs ys : List IdT)
      → HasNoRepeats (xs ++ c ∷ ys)
      → t.root ≡ xs ++ c ∷ ys
      → walk n (at t (some c)) ≡ take n ys
  unfolding walk next at moved
  walk_from zero t c xs ys d e = refl
  walk_from (suc n) t c xs [] d e =
      ap (moved n (at t (some c))) (ap (successor c) e ∙ successor-middle c xs [] d)
  walk_from (suc n) t c xs (y ∷ ys) d e =
      let assoc = append_assoc xs (c ∷ []) (y ∷ ys) in
      ap (moved n (at t (some c))) (ap (successor c) e ∙ successor-middle c xs (y ∷ ys) d)
      ∙ ap (λ l. y ∷ l)
          (walk_from n t y (xs ++ c ∷ []) ys (subst HasNoRepeats (sym assoc) d) (e ∙ sym assoc))

  walk_start :
      (n : ℕ) (t : Tree V) (l : List IdT)
      → HasNoRepeats l
      → t.root ≡ l
      → walk (suc n) (at t none) ≡ take (suc n) l
  unfolding walk next at moved
  walk_start n t [] d e = ap (moved n (at t none)) (ap first_key e)
  walk_start n t (x ∷ xs) d e =
      ap (moved n (at t none)) (ap first_key e) ∙ ap (λ l. x ∷ l) (walk_from n t x [] xs d e)

  -- From a root's list without repetitions and no current transaction, successive calls of `next` give
  -- the transactions at the root, each once and in order, and then none.
  pub walk-take :
      (n : ℕ) (t : Tree V) → HasNoRepeats t.root → t.current ≡ none → walk n t ≡ take n t.root
  unfolding at
  walk-take zero t d e = unfold walk in refl
  walk-take (suc n) t d e =
      (λ i. walk (suc n) (record t { current = e i })) ∙ walk_start n t t.root d refl
