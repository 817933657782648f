-- ===== src/Manager/Schedule.antt =====
-- What the calls of `TransactionMgr` in src/TransactionMgr.cpp keep, in any order.
use order_processor.Common.{
  ℕ, ◌+◌, ◌^◌, ◌<◌, ◌≡◌, ◌≢◌, refl, Bool, true, false, ◌&&◌, some, arith, contains,
}
use order_processor.Model.Ids.{IdT, get_id}
use order_processor.Acid.Objects.{Object}
use order_processor.Acid.Operation.{Operation}
use order_processor.Acid.Scope.{Scope}
use order_processor.Tree.Invariant.{IsLinked, uses, root-disjoint}
use order_processor.Tree.Removal.{remove-IsLinked}
use order_processor.Manager.Defs.{Manager, new_manager, add_transaction, remove_transaction, next}
use order_processor.Manager.Sound.{IsSound, counter-IsSound, remove-IsSound, next-IsSound}
use order_processor.Manager.Addition.{Added, add_transaction-Added}

module _ {ℓ} {S : Type ℓ} where
  -- A call of a manager that ends without an exception. An id is taken below 2 ^ 64 - 1, and the
  -- transaction that is removed is one that is ready. Others take ids of the same generator, `elsewhere`.
  pub data Step (m : Manager S) : Manager S → Type ℓ where
    adds :
        (now : ℕ) (s : Scope (Operation S)) {m' : Manager S}
        → m.counter + 1 < 2 ^ 64
        → add_transaction now s m ≡ some m'
        → Step m m'
    removes : (k : IdT) → contains k m.tree.root ≡ true → Step m (remove_transaction k m).0
    fetches : Step m (next m).1
    elsewhere : m.counter + 1 < 2 ^ 64 → Step m (record m { counter = (get_id 0 m.counter).1 })
    observes : (b : Bool) → Step m (record m { observed = b })

  pub data Reach : Manager S → Type ℓ where
    start : Reach new_manager
    later : {m m' : Manager S} → Reach m → Step m m' → Reach m'

  Step-IsSound :
      {m m' : Manager S} → Step m m' → IsSound m.tree m.counter → IsSound m'.tree m'.counter
  unfolding remove_transaction next get_id
  Step-IsSound {m = m} (adds now s c e) v = (add_transaction-Added now s m _ v c e).sound
  Step-IsSound {m = m} (removes k r) v = remove-IsSound m.tree m.counter k v r
  Step-IsSound {m = m} fetches v = next-IsSound m.tree m.counter v
  Step-IsSound {m = m} (elsewhere c) v = counter-IsSound m.tree m.counter v c
  Step-IsSound (observes b) v = v

  Reach-IsSound : {m : Manager S} → Reach m → IsSound m.tree m.counter
  Reach-IsSound start = record {
    linked = record {
      users = λ o k. refl;
      ordered = λ o. tt;
      chained = λ o. tt;
      root = λ k. refl;
      once = tt;
    };
    below = λ k h. absurd (cc h);
    no_empty = refl;
    positive = omega arith;
  }
  Reach-IsSound (later r st) = Step-IsSound st (Reach-IsSound r)

  -- A manager starts empty and then gets additions that do not throw, removals of ready transactions
  -- and calls of `next`, `attach` and `detach`, while others take ids too, all of them below
  -- 2 ^ 64 - 1: its tree is linked, two different ready transactions use no object in common, and the
  -- removal of a ready one succeeds.
  pub reached-disjoint :
      {m : Manager S}
      → Reach m
      → IsLinked m.tree
        × ((o : Object) (j k : IdT)
            → contains j m.tree.root ≡ true
            → contains k m.tree.root ≡ true
            → j ≢ k
            → (uses m.tree.keys j o && uses m.tree.keys k o) ≡ false)
        × ((k : IdT) → contains k m.tree.root ≡ true → (remove_transaction k m).1 ≡ true)
  unfolding remove_transaction
  reached-disjoint {m = m} r =
      let v = Reach-IsSound r in
      (
        v.linked,
        λ o j k. root-disjoint m.tree o j k v.linked,
        λ k c. (remove-IsLinked k m.tree v.linked v.no_empty c).1,
      )

  -- A manager starts empty and gets additions that do not throw, removals of ready transactions and
  -- calls of `next`, `attach` and `detach`, while others take ids too. On it, an addition is made that
  -- does not throw.
  -- All ids are below 2 ^ 64 - 1. The transaction is in the tree under its id beside those that were
  -- there, the tree stays linked with its keys below the ids to come, the transaction is ready exactly
  -- if none of its objects had a user, and an observer gets one call exactly if it is ready.
  pub reached-Added :
      (now : ℕ) (s : Scope (Operation S)) {m m' : Manager S}
      → Reach m
      → m.counter + 1 < 2 ^ 64
      → add_transaction now s m ≡ some m'
      → Added now s m m'
  reached-Added now s {m = m} {m' = m'} r c e =
      add_transaction-Added now s m m' (Reach-IsSound r) c e
