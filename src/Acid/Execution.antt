-- ===== src/Acid/Execution.antt =====
-- Commit and rollback of `executeTransaction` in src/TransactionScope.cpp.
use order_processor.Common.{
  ◌≡◌, refl, subst, ap, ◌∙◌, ◌⊎◌, inl, inr, Bool, true, false, List, [], ◌∷◌, ◌++◌, All,
}
use order_processor.Acid.Operation.{
  Outcome, returned, threw, Operation, roll_back, execute_from, execute_transaction,
}

module _ {ℓ} {S : Type ℓ} where
  -- The rollback of an operation restores the state before it, whether it returned or threw.
  abbrev pub Undoes : Operation S → S → Outcome S → Type ℓ
  Undoes op s (returned s') = op.rollback s' ≡ returned s
  Undoes op s (threw s') = op.rollback s' ≡ returned s

  pub record IsUndoable (op : Operation S) : Type ℓ where
    pub undoes : (s : S) → Undoes op s (op.execute s)

  Outcome-cases : (r : Outcome S) → ((s : S) × (r ≡ returned s)) ⊎ ((s : S) × (r ≡ threw s))
  Outcome-cases (returned s) = inl (s, refl)
  Outcome-cases (threw s) = inr (s, refl)

  -- The state from which the rollback of the executed operations starts over.
  abbrev pub RollsBackTo : List (Operation S) → S → S → Type ℓ
  RollsBackTo executed s start = roll_back executed s ≡ start

  module _ (op : Operation S) (ops : List (Operation S)) (s s' : S) where
    pub roll_back-returned : op.rollback s ≡ returned s' → roll_back (op ∷ ops) s ≡ roll_back ops s'
    unfolding roll_back
    roll_back-returned e = rw (e, roll_back)

    pub roll_back-threw : op.rollback s ≡ threw s' → roll_back (op ∷ ops) s ≡ s'
    unfolding roll_back
    roll_back-threw e = rw (e, roll_back)

    pub execute_from-returned :
        (executed : List (Operation S))
        → op.execute s ≡ returned s'
        → execute_from executed (op ∷ ops) s ≡ execute_from (op ∷ executed) ops s'
    unfolding execute_from
    execute_from-returned executed e = rw (e, execute_from)

    pub execute_from-threw :
        (executed : List (Operation S))
        → op.execute s ≡ threw s'
        → execute_from executed (op ∷ ops) s ≡ (false, roll_back (op ∷ executed) s')
    unfolding execute_from
    execute_from-threw executed e = rw (e, execute_from)

  -- The operations of a list run one after the other, and none throws.
  pub data Runs : List (Operation S) → S → S → Type ℓ where
    nothing : (s : S) → Runs [] s s
    run :
        {op : Operation S} {ops : List (Operation S)} {s t u : S}
        → op.execute s ≡ returned t
        → Runs ops t u
        → Runs (op ∷ ops) s u

  -- Every operation ran, or the state is that of the start.
  abbrev pub RunsOrStays : List (Operation S) → S → S → Bool × S → Type ℓ
  RunsOrStays ops s start r = ((s' : S) × (r ≡ (true, s')) × Runs ops s s') ⊎ (r ≡ (false, start))

  RunsOrStays-step :
      (op : Operation S) (ops : List (Operation S)) (s s' start : S) (r : Bool × S)
      → op.execute s ≡ returned s'
      → RunsOrStays ops s' start r
      → RunsOrStays (op ∷ ops) s start r
  RunsOrStays-step op ops s s' start r e (inl (t, h, runs)) = inl (t, h, run e runs)
  RunsOrStays-step op ops s s' start r e (inr h) = inr h

  execute_from-atomic :
      (executed ops : List (Operation S)) (s start : S)
      → All IsUndoable ops
      → RollsBackTo executed s start
      → RunsOrStays ops s start (execute_from executed ops s)
  execute_from-atomic executed [] s start u b = inl (s, unfold execute_from in refl, nothing s)
  execute_from-atomic executed (op ∷ ops) s start (u, us) b = elim (Outcome-cases (op.execute s)) [
    | inl (s', e) ↦ rw (execute_from-returned op ops s s' executed e) (
        RunsOrStays-step op ops s s' start _ e (
          execute_from-atomic (op ∷ executed) ops s' start us
            (roll_back-returned op executed s' s (subst (Undoes op s) e (u.undoes s)) ∙ b)))
    | inr (s', e) ↦ inr (
        execute_from-threw op ops s s' executed e
        ∙ ap (λ t. (false, t))
            (roll_back-returned op executed s' s (subst (Undoes op s) e (u.undoes s)) ∙ b))
  ]

  -- If the rollback of every operation restores the state before the operation, also after it threw,
  -- then a transaction either succeeds, its operations having run one after the other, or fails and
  -- leaves the state as it was: the operations of all its stages are rolled back, not only those of
  -- the stage that failed.
  pub execute_transaction-atomic :
      (ops : List (Operation S)) (s : S)
      → All IsUndoable ops
      → RunsOrStays ops s s (execute_transaction ops s)
  unfolding execute_transaction
  execute_transaction-atomic ops s u = execute_from-atomic [] ops s s u (unfold roll_back in refl)

  execute_from-Runs :
      (executed : List (Operation S)) {front : List (Operation S)} (rest : List (Operation S))
      {s t : S}
      → Runs front s t
      → (pre : List (Operation S)) × (execute_from executed (front ++ rest) s
          ≡ execute_from pre rest t)
  execute_from-Runs executed rest (nothing s) = (executed, refl)
  execute_from-Runs executed rest (run {op = op} {s = s} {t = t} e r) =
      let (pre, h) = execute_from-Runs (op ∷ executed) rest r in
      (pre, execute_from-returned op _ s t executed e ∙ h)

  -- Where an operation throws after those before it ran, and its rollback throws too, the transaction
  -- fails in the state that the rollback left: no operation before it is rolled back.
  pub execute_transaction-stuck :
      (front : List (Operation S)) (op : Operation S) (back : List (Operation S)) (s t u w : S)
      → Runs front s t
      → op.execute t ≡ threw u
      → op.rollback u ≡ threw w
      → execute_transaction (front ++ op ∷ back) s ≡ (false, w)
  unfolding execute_transaction
  execute_transaction-stuck front op back s t u w r e f =
      let (pre, h) = execute_from-Runs [] (op ∷ back) r in
      h ∙ execute_from-threw op back t u pre e ∙ ap (λ v. (false, v)) (roll_back-threw op pre u w f)
