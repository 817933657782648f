-- ===== src/Manager/Sound.antt =====
-- What each change of the tree in src/TransactionMgr.cpp keeps.
use order_processor.Common.{
  ℕ, ◌+◌, ◌*◌, ◌%◌, ◌^◌, ◌<◌, ◌≡◌, true, false, Option, none, some, is_some, List, arith, ◌==◌,
  contains, inl, inr, Bool-cases, ==_iff,
}
use order_processor.Model.Ids.{IdT, make_id, date_limit}
use order_processor.Acid.Objects.{Object}
use order_processor.Acid.Operation.{Operation}
use order_processor.Acid.Scope.{Scope}
use order_processor.Tree.Defs.{Tree, no_key, add}
use order_processor.Tree.Remove.{remove}
use order_processor.Tree.Walk as Walk
use order_processor.Tree.Invariant.{IsLinked, NoRepeats}
use order_processor.Tree.Growth.{add-IsLinked, add-keys}
use order_processor.Tree.Removal.{remove-IsLinked, remove-keys}

module _ {ℓ} {S : Type ℓ} where
  -- Every key is below the ids to come, and is not the empty id.
  pub record IsSound (t : Tree (Scope (Operation S))) (counter : ℕ) : Type ℓ where
    pub linked : IsLinked t
    pub below : (k : IdT) → is_some (t.keys k) ≡ true → k < counter * date_limit
    pub no_empty : is_some (t.keys no_key) ≡ false
    pub positive : 0 < counter

  module _ (t : Tree (Scope (Operation S))) (counter now : ℕ) (v : IsSound t counter)
      (c : counter + 1 < 2 ^ 64) where
    pub above : (k : IdT) → is_some (t.keys k) ≡ true → k < make_id counter now
    above k h = omega (arith, v.below k h)

    next_below : (j : IdT) → make_id counter now ≡ j → j < (counter + 1) % 2 ^ 64 * date_limit
    next_below j e = omega arith

    pub insert-IsSound :
        (s : Scope (Operation S)) (os : List Object)
        → NoRepeats os
        → IsSound (add (make_id counter now) s os 0 t).0 ((counter + 1) % 2 ^ 64)
    insert-IsSound s os d =
        let k = make_id counter now in
        let keys = add-keys k s os 0 t v.linked d above in
        record {
          linked = (add-IsLinked k s os 0 t v.linked d above).0;
          below = λ j h. elim (Bool-cases (k == j)) [
            | inl e ↦ next_below j ((==_iff k j).0 e)
            | inr e ↦ omega (arith, v.below j (ground (arith, keys j)))
          ];
          no_empty = ground (arith, keys no_key, v.no_empty, v.positive);
          positive = omega (arith, v.positive);
        }

  pub remove-IsSound :
      (t : Tree (Scope (Operation S))) (counter : ℕ) (k : IdT)
      → IsSound t counter
      → contains k t.root ≡ true
      → IsSound (remove k t).0 counter
  remove-IsSound t counter k v r =
      let keys = remove-keys k t v.linked v.no_empty r in
      record {
        linked = (remove-IsLinked k t v.linked v.no_empty r).0;
        below = λ j h. v.below j (ground (arith, keys j));
        no_empty = ground (arith, keys no_key, v.no_empty);
        positive = v.positive;
      }

  current-IsSound :
      (t : Tree (Scope (Operation S))) (counter : ℕ) (x : Option IdT)
      → IsSound t counter
      → IsSound (record t { current = x }) counter
  current-IsSound t counter x v = record {
    linked = record {
      users = v.linked.users;
      ordered = v.linked.ordered;
      chained = v.linked.chained;
      root = v.linked.root;
      once = v.linked.once;
    };
    below = v.below;
    no_empty = v.no_empty;
    positive = v.positive;
  }

  pub counter-IsSound :
      (t : Tree (Scope (Operation S))) (counter : ℕ)
      → IsSound t counter
      → counter + 1 < 2 ^ 64
      → IsSound t ((counter + 1) % 2 ^ 64)
  counter-IsSound t counter v c = record {
    linked = v.linked;
    below = λ k h. omega (arith, v.below k h);
    no_empty = v.no_empty;
    positive = omega (arith, v.positive);
  }

  move_to-IsSound :
      (t : Tree (Scope (Operation S))) (counter : ℕ) (x : Option IdT)
      → IsSound t counter
      → IsSound (Walk.move_to t x).1 counter
  move_to-IsSound t counter none v = v
  move_to-IsSound t counter (some k) v = current-IsSound t counter (some k) v

  pub next-IsSound :
      (t : Tree (Scope (Operation S))) (counter : ℕ)
      → IsSound t counter
      → IsSound (Walk.next t).1 counter
  unfolding Walk.next
  next-IsSound t counter v =
      elim t.current
        as (λ x.
          let moved : Option IdT × Tree (Scope (Operation S)) = elim x [
            | none ↦ Walk.move_to t (Walk.first_key t.root)
            | some c ↦ Walk.move_to t (Walk.successor c t.root)
          ] in
          IsSound moved.1 counter) [
            | none ↦ move_to-IsSound t counter (Walk.first_key t.root) v
            | some c ↦ move_to-IsSound t counter (Walk.successor c t.root) v
          ]
