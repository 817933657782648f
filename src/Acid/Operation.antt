-- ===== src/Acid/Operation.antt =====
-- `Operation` of src/TransactionDef.h over the state `S` that its context refers to, and
-- `TransactionScope::executeTransaction` of src/TransactionScope.cpp.
use order_processor.Common.{Bool, true, false, List, [], ◌∷◌}
use order_processor.Model.Ids.{IdT}

-- What a call leaves behind, when it returns and when it throws.
pub data Outcome {ℓ} (S : Type ℓ) : Type ℓ where
  returned : S → Outcome S
  threw : S → Outcome S

pub record Operation {ℓ} (S : Type ℓ) : Type ℓ where
  pub object_id : IdT
  pub related_id : IdT
  pub execute : S → Outcome S
  pub rollback : S → Outcome S

module _ {ℓ} {S : Type ℓ} where
  -- The loop of the rollback, from the operation that failed back to the first; an exception of a
  -- rollback ends it.
  unfoldable pub roll_back : List (Operation S) → S → S
  roll_back [] s = s
  roll_back (op ∷ ops) s = elim (op.rollback s) [ returned s' ↦ roll_back ops s' | threw s' ↦ s' ]

  -- The loop of the commit. The operations that were executed come last first.
  unfoldable pub execute_from : List (Operation S) → List (Operation S) → S → Bool × S
  unfolding roll_back
  execute_from executed [] s = (true, s)
  execute_from executed (op ∷ ops) s = elim (op.execute s) [
    | returned s' ↦ execute_from (op ∷ executed) ops s'
    | threw s' ↦ (false, roll_back (op ∷ executed) s')
  ]

  -- `executeTransaction`
  unfoldable pub execute_transaction : List (Operation S) → S → Bool × S
  unfolding execute_from
  execute_transaction ops s = execute_from [] ops s
