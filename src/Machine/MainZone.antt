-- ===== src/Machine/MainZone.antt =====
-- What an event does in the main zone of an accepted limit order.
use order_processor.Common.{
  ◌≡◌, ◌≤◌, refl, sym, subst, inl, inr, Bool-cases, ltb, Bool, true, false, not, Option, none, some,
  [], arith, ◌==◌, ==-refl,
}
use order_processor.Model.Ids.{IdT}
use order_processor.Model.Enums as E
use order_processor.Model.Order.{Trade}
use order_processor.Store.Defs.{Address}
use order_processor.Book.Defs as Book
use order_processor.Machine.States.{State, Trigger, Correction, Reason}
use order_processor.Machine.Context.{Work, order_at, ◌>>=◌, Done, ok, threw}
use order_processor.Machine.Actions as A
use order_processor.Machine.Entries.{on_entry, enter_state}
use order_processor.Machine.Handlers.{run_action, act, run_guard, judge_event}
use order_processor.Machine.Table.{transition_table}
use order_processor.Machine.Filling.{Filled, fill-Filled, remove-traded, remove-status, exec_id_of}
use order_processor.Machine.Dispatch.{
  State-discrete, Kind-discrete, candidates, try_rows, fire, react, arrive,
}
use order_processor.Machine.Standing.{is_active, book_steps, Fits, After, Admits, plain, sold}

-- Where the guard of the fill sends an order.
abbrev is_target : State → Bool → Bool
is_target State.part_fill b = not b
is_target State.filled b = b
is_target _ b = false

module _ (a : Address) (w : Work) (k : IdT) (b : Bool) (fresh : w.operations ≡ []) where
  pub reject-After :
      (s : State) (x : Reason)
      → Fits a s w
      → After a s w (react s (plain (Trigger.order_rejected x) k b) w)
  unfolding react try_rows candidates transition_table State-discrete Kind-discrete fire run_action
      run_guard judge_event act on_entry enter_state book_steps A.reject_new
  reject-After State.new x f = ground (arith, ==-refl a)
  reject-After _ x f = ground (arith, ==-refl a)

  pub expire-After :
      (s : State) → Fits a s w → After a s w (react s (plain (Trigger.expired) k b) w)
  unfolding react try_rows candidates transition_table State-discrete Kind-discrete fire run_action
      run_guard judge_event act on_entry enter_state book_steps A.leave_book
  expire-After State.new f = ground (arith, ==-refl a)
  expire-After _ f = ground (arith, ==-refl a)

  pub finish-After :
      (s : State) → Fits a s w → After a s w (react s (plain (Trigger.finished) k b) w)
  unfolding react try_rows candidates transition_table State-discrete Kind-discrete fire run_action
      run_guard judge_event act on_entry enter_state book_steps A.leave_book
  finish-After State.new f = ground (arith, ==-refl a)
  finish-After _ f = ground (arith, ==-refl a)

  pub suspend-After :
      (s : State) → Fits a s w → After a s w (react s (plain (Trigger.suspended) k b) w)
  unfolding react try_rows candidates transition_table State-discrete Kind-discrete fire run_action
      run_guard judge_event act on_entry enter_state book_steps A.leave_book
  suspend-After State.new f = ground (arith, ==-refl a)
  suspend-After _ f = ground (arith, ==-refl a)

  pub restore-After :
      (s : State) → Fits a s w → After a s w (react s (plain (Trigger.new_day) k b) w)
  unfolding react try_rows candidates transition_table State-discrete Kind-discrete fire run_action
      run_guard judge_event act on_entry enter_state book_steps A.restore_order
  restore-After State.new f = ground (arith, ==-refl a)
  restore-After _ f = ground (arith, ==-refl a)

  pub continue-After :
      (s : State) → Fits a s w → After a s w (react s (plain (Trigger.continue) k b) w)
  unfolding react try_rows candidates transition_table State-discrete Kind-discrete fire run_action
      run_guard judge_event act on_entry enter_state book_steps A.continue_order A.match_and_add
  continue-After State.new f = ground (arith, ==-refl a)
  continue-After _ f = ground (arith, ==-refl a)

  pub correct-After :
      (s : State) (c : Option Correction)
      → Fits a s w
      → Admits (Trigger.trade_crct_cncl c)
      → After a s w (react s (plain (Trigger.trade_crct_cncl c) k b) w)
  unfolding react try_rows candidates transition_table State-discrete Kind-discrete fire run_action
      run_guard judge_event act on_entry enter_state book_steps A.correct A.match_and_add
      A.correct_without_restore
  correct-After State.new c f h = ground (arith, ==-refl a)
  correct-After _ c f h = ground (arith, ==-refl a)

  -- A fill that the guard sends to `s'`, of an order that the book holds.
  fill_done :
      (s s' : State) (t : Trade) (d : Done)
      → Fits a s w
      → is_active s ≡ true
      → (c : Book.Book) → Book.remove (order_at a w) w.book ≡ Book.ok c
      → is_target s' (t.last_qty == (order_at a w).leaves_qty) ≡ true
      → t.last_qty ≤ (order_at a w).leaves_qty
      → Filled t a w d
      → After a s w (arrive s' (d >>= enter_state s' k (Trigger.trade_execution (some t))))
  unfolding enter_state book_steps
  fill_done s State.part_fill t (ok w') f g c i q l (x, y, z) =
      ground (arith, ==-refl a, remove-traded (exec_id_of w) t (order_at a w) w.book)
  fill_done s State.filled t (ok w') f g c i q l (x, y, z) =
      ground (arith, ==-refl a, remove-status E.filled_status (order_at a w') w.book)
  fill_done s _ t (ok w') f g c i q l x = absurd (cc)
  fill_done s s' t (threw w' x) f g c i q l h =
      ground (arith, ==-refl a, remove-traded (exec_id_of w) t (order_at a w) w.book)

  fill_verdict :
      (s : State) (t : Trade)
      → Fits a s w
      → is_active s ≡ true
      → (c : Book.Book) → Book.remove (order_at a w) w.book ≡ Book.ok c
      → After a s w (sold k w t (some a))
  fill_verdict s t f g c i = elim (Bool-cases (ltb (order_at a w).leaves_qty t.last_qty)) [
    | inl big ↦ rw big (f, fresh, refl)
    | inr fits ↦ elim (Bool-cases (t.last_qty == (order_at a w).leaves_qty)) [
      | inl all ↦
          rw (fits, all)
            (fill_done s State.filled t (A.fill t a w) f g c i all (ground arith)
              (fill-Filled t a w (ground arith)))
      | inr part ↦
          rw (fits, part)
            (fill_done s State.part_fill t (A.fill t a w) f g c i (rw part refl) (ground arith)
              (fill-Filled t a w (ground arith)))
    ]
  ]

  pub fill-After :
      (s : State) (t : Option Trade)
      → Fits a s w
      → (is_active s ≡ true → (c : Book.Book) × (Book.remove (order_at a w) w.book ≡ Book.ok c))
      → After a s w (react s (plain (Trigger.trade_execution t) k b) w)
  unfolding react try_rows candidates transition_table State-discrete Kind-discrete fire run_action
      run_guard judge_event act on_entry enter_state book_steps
  fill-After State.new none f r = ground (arith, ==-refl a)
  fill-After State.new (some t) f r =
      let (c, i) = r refl in
      subst (λ o. After a State.new w (sold k w t o)) (sym f.order)
        (fill_verdict State.new t f refl c i)
  fill-After State.part_fill none f r = ground (arith, ==-refl a)
  fill-After State.part_fill (some t) f r =
      let (c, i) = r refl in
      subst (λ o. After a State.part_fill w (sold k w t o)) (sym f.order)
        (fill_verdict State.part_fill t f refl c i)
  fill-After _ t f r = ground (arith, ==-refl a)
