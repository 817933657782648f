-- ===== src/Processor/Queue.antt =====
-- The rounds of `processDeferedEvent` in src/Processor.cpp as a queue of deferred events.
use order_processor.Common.{
  ℕ, zero, suc, ◌-◌, ◌+◌, ◌≤◌, ◌≡◌, refl, sym, subst, ap, ◌∙◌, Bool, true, false, List, [], ◌∷◌,
  ◌++◌, length, arith,
}
use mathlib.Core.List.{append-nil}
use order_processor.Matching.Defs.{Deferred}
use order_processor.Machine.States.{Event}
use order_processor.Machine.Dispatch.{Machine}
use order_processor.Processor.Loop.{
  Processor, Run, returned, failed, unfinished, ◌then_run◌, on_deferred_event, run_batch,
  after_batch, clear_events, process_deferred_from, process_deferred,
}
use order_processor.Processor.Frames.{framed_processor, framed_run, on_deferred_event-framed}
use order_processor.Processor.Quiet.{Quiet, rounds-Quiet}

abbrev pub is_finished : Run → Bool
is_finished unfinished = false
is_finished _ = true

abbrev waiting : List Deferred → Processor → Processor
waiting es p = record p { desk = record p.desk { deferred = es } }

-- Room for the events, and n more.
room : List Deferred → ℕ → ℕ
room [] n = n
room (e ∷ es) n = suc (room es n)

room-length : (es : List Deferred) (n : ℕ) → room es n ≡ length es + n
unfolding room
room-length [] n = omega arith
room-length (e ∷ es) n = omega (arith, room-length es n)

-- Two ways to go on that agree where the second one ends.
finished-ext :
    (r : Run) (f g : Processor → Run)
    → is_finished (r then_run g) ≡ true
    → ((q : Processor) → is_finished (g q) ≡ true → f q ≡ g q)
    → (r then_run f) ≡ (r then_run g)
finished-ext (returned p) f g h k = k p h
finished-ext (failed x p) f g h k = refl
finished-ext unfinished f g h k = refl

module _ (process : Event → Machine → Machine) where
  -- The events one at a time, the oldest first: each is taken off before it is executed, the events that
  -- it adds go behind the others, and an exception forgets those that wait. `n` is the number of
  -- events.
  unfoldable pub drain_from : ℕ → List Deferred → Processor → Run
  drain_from n [] p = returned p
  drain_from zero (e ∷ es) p = unfinished
  drain_from (suc n) (e ∷ es) p =
      after_batch process (on_deferred_event process e (waiting es p)) then_run λ q.
      drain_from n q.desk.deferred q

  abbrev pub drain : ℕ → Processor → Run
  drain n p = drain_from n p.desk.deferred p

  after_batch-framed :
      (xs : List Deferred) (r : Run) (f : Processor → Run)
      → (after_batch process (framed_run xs r) then_run f)
        ≡ (after_batch process r then_run λ q. f (framed_processor xs q))
  after_batch-framed xs (returned p) f = refl
  after_batch-framed xs (failed x p) f = refl
  after_batch-framed xs unfinished f = refl

  after_batch-then_run :
      (r : Run) (f g : Processor → Run)
      → (after_batch process r then_run λ q. after_batch process (f q) then_run g)
        ≡ (after_batch process (r then_run f) then_run g)
  after_batch-then_run (returned p) f g = refl
  after_batch-then_run (failed x p) f g = refl
  after_batch-then_run unfinished f g = refl

  then_run-ext :
      (r : Run) (f g : Processor → Run)
      → ((q : Processor) → f q ≡ g q)
      → (r then_run f) ≡ (r then_run g)
  then_run-ext (returned p) f g h = h p
  then_run-ext (failed x p) f g h = refl
  then_run-ext unfinished f g h = refl

  -- The events of a batch, before those that they add.
  drain-batch :
      (n : ℕ) (es : List Deferred) (p : Processor)
      → drain_from (room es n) (es ++ p.desk.deferred) (waiting (es ++ p.desk.deferred) p)
        ≡ (after_batch process (run_batch process es p) then_run drain n)
  unfolding drain_from run_batch room
  drain-batch n [] p = refl
  drain-batch n (e ∷ es) p =
      let r = on_deferred_event process e p in
      let next : Processor → Run = λ q. drain_from (room es n) q.desk.deferred q in
      ap (λ s. after_batch process s then_run next) (on_deferred_event-framed process es e p)
      ∙ after_batch-framed es r next
      ∙ then_run-ext (after_batch process r) (λ q. next (framed_processor es q))
          (λ q. after_batch process (run_batch process es q) then_run drain n)
          (λ q. drain-batch n es q)
      ∙ after_batch-then_run r (run_batch process es) (drain n)

  drain-round :
      (n : ℕ) (e : Deferred) (es : List Deferred) (p : Processor)
      → drain_from (room (e ∷ es) n) (e ∷ es) p
        ≡ (after_batch process (run_batch process (e ∷ es) (clear_events p)) then_run drain n)
  unfolding drain_from room
  drain-round n e es p =
      subst
        (λ l.
          drain_from (room (e ∷ es) n) l (waiting l (clear_events p))
          ≡ (after_batch process (run_batch process (e ∷ es) (clear_events p)) then_run drain n))
        (append-nil (e ∷ es)) (drain-batch n (e ∷ es) (clear_events p))

  drain-more :
      (m n : ℕ) (es : List Deferred) (p : Processor)
      → m ≤ n
      → is_finished (drain_from m es p) ≡ true
      → drain_from n es p ≡ drain_from m es p
  unfolding drain_from
  drain-more m n [] p l h = refl
  drain-more zero n (e ∷ es) p l h = absurd (cc h)
  drain-more (suc m) zero (e ∷ es) p l h = absurd (omega arith)
  drain-more (suc m) (suc n) (e ∷ es) p l h =
      finished-ext (after_batch process (on_deferred_event process e (waiting es p))) (drain n)
        (drain m) h (λ q k. drain-more m n q.desk.deferred q (omega arith) k)

  rounds-drain :
      (n m : ℕ) (es : List Deferred) (p : Processor)
      → m ≤ n
      → is_finished (drain_from m es p) ≡ true
      → process_deferred_from process n es p ≡ drain_from m es p
  unfolding process_deferred_from
  rounds-drain n m [] p l h = unfold drain_from in refl
  rounds-drain zero m (e ∷ es) p l h =
      let z : m ≡ 0 = omega arith in
      absurd
        (unfold drain_from in cc (subst (λ k. is_finished (drain_from k (e ∷ es) p) ≡ true) z h))
  rounds-drain (suc n) m (e ∷ es) p l h =
      let k = m - length (e ∷ es) in
      let same : drain_from (room (e ∷ es) k) (e ∷ es) p ≡ drain_from m (e ∷ es) p =
        drain-more m (room (e ∷ es) k) (e ∷ es) p (omega (arith, room-length (e ∷ es) k)) h in
      let whole = sym (drain-round k e es p) ∙ same in
      finished-ext (after_batch process (run_batch process (e ∷ es) (clear_events p)))
        (process_deferred process n) (drain k) (ap is_finished whole ∙ h)
        (λ q g. rounds-drain n k q.desk.deferred q (omega arith) g)
      ∙ whole

  -- The rounds of the loop over the deferred events give what a queue of them gives, in which the
  -- oldest event is taken off and executed, those that it adds go behind the others, and an exception
  -- forgets those that wait: if the queue is empty after at most n events, or one of them throws, then
  -- the loop ends within n rounds, in the same way and on the same state, and no deferred event waits.
  pub process_deferred-drain :
      (n : ℕ) (p : Processor)
      → is_finished (drain n p) ≡ true
      → (process_deferred process n p ≡ drain n p) × Quiet (process_deferred process n p)
  process_deferred-drain n p h = (
    rounds-drain n n p.desk.deferred p (omega arith) h,
    rounds-Quiet process n p.desk.deferred p refl,
  )
