-- ===== src/Machine/Canceling.antt =====
-- Every order can be canceled, whatever the state of its main zone.
use order_processor.Common.{
  ◌≡◌, refl, ap, sym, subst, ◌∙◌, Bool, true, false, ◌&&◌, some, List, [], ◌∷◌, arith, All, ==-refl,
}
use order_processor.Model.Ids.{IdT}
use order_processor.Store.Defs.{Address}
use order_processor.Machine.States.{State, Kind, Event, Trigger, kind}
use order_processor.Machine.Context.{Work}
use order_processor.Machine.Actions as A
use order_processor.Machine.Entries.{on_entry, enter_state}
use order_processor.Machine.Handlers.{run_action, act}
use order_processor.Machine.Table.{transition_table}
use order_processor.Machine.Rows.{react-unhandled}
use order_processor.Machine.Dispatch.{
  State-discrete, Kind-discrete, candidates, Machine, Reaction, unhandled, moved, failed, try_rows,
  fire, react, in_zone1, in_zone2, both_zones, dispatch, dispatch_idle,
}
use order_processor.Machine.Standing.{plain}
use order_processor.Machine.CancelZone.{is_waiting}
use order_processor.Machine.Zones.{is_main, run}

-- The events of the other zone that lead to CnclReplaced by way of a cancel.
abbrev is_cancel : Kind → Bool
is_cancel Kind.cancel_received = true
is_cancel Kind.exec_cancel = true
is_cancel Kind.replace_rejected = true
is_cancel _ = false

table-cancel : All (λ r. (is_main r.source && is_cancel r.event) ≡ false) transition_table
unfolding transition_table
table-cancel = ground arith

main-unhandled :
    (s : State) (e : Event) (w : Work)
    → is_main s ≡ true
    → is_cancel (kind e.trigger) ≡ true
    → react s e w ≡ unhandled
main-unhandled s e w h g =
    react-unhandled (λ r. (is_main r.source && is_cancel r.event) ≡ false) s e w table-cancel
      (λ r p q f. cc)

abbrev Goes : Address → State → Work → Reaction → Type 0
Goes a s w unhandled = ⊥
Goes a s w (moved s' w') = (s' ≡ s) × (w'.order ≡ some a) × (w'.posted ≡ [])
Goes a s w (failed w') = ⊥

module _ (a : Address) (w : Work) (k : IdT) (b : Bool) (order : w.order ≡ some a)
    (idle : w.posted ≡ []) where
  receives :
      Goes a State.going_cancel w (react State.no_cnl_replace (plain Trigger.cancel_received k b) w)
  unfolding react try_rows candidates transition_table State-discrete Kind-discrete fire run_action
      act on_entry enter_state
  receives = ground (arith, ==-refl a)

  executes :
      Goes a State.cncl_replaced w (react State.going_cancel (plain Trigger.exec_cancel k b) w)
  unfolding react try_rows candidates transition_table State-discrete Kind-discrete fire run_action
      act on_entry enter_state A.leave_book
  executes = ground (arith, ==-refl a)

  returns :
      Goes a State.no_cnl_replace w
        (react State.going_replace (plain (Trigger.replace_rejected k) k b) w)
  unfolding react try_rows candidates transition_table State-discrete Kind-discrete fire run_action
      act on_entry enter_state
  returns = ground (arith, ==-refl a)

abbrev machine : State → State → Work → Machine
machine z s w = record { zone1 = z; zone2 = s; work = w }

-- The machine goes on to `s'`, with the same order and no event that waits.
abbrev Reaches : Address → State → State → Machine → Type 0
Reaches a z s' m = (w' : Work) × (m ≡ machine z s' w') × (w'.order ≡ some a) × (w'.posted ≡ [])

lands :
    (a : Address) (z s s' : State) (w : Work) (r : Reaction)
    → Goes a s' w r
    → Reaches a z s' (in_zone2 r (machine z s w))
lands a z s s' w unhandled h = absurd h
lands a z s s' w (moved x w') (q, o, p) = (w', (λ i. machine z (q i) w'), o, p)
lands a z s s' w (failed w') h = absurd h

-- One event of a cancel.
step-Reaches :
    (a : Address) (z s s' : State) (e : Event) (w : Work)
    → is_main z ≡ true
    → is_cancel (kind e.trigger) ≡ true
    → Goes a s' w (react s e w)
    → Reaches a z s' (dispatch e (machine z s w))
unfolding both_zones
step-Reaches a z s s' e w h g r =
    let (w', q, o, p) = lands a z s s' w (react s e w) r in
    let both : both_zones e (machine z s w) ≡ machine z s' w' =
      ap (λ x. in_zone1 x e (machine z s w)) (main-unhandled z e w h g) ∙ q in
    (w', dispatch_idle e (machine z s w) (ap (λ m. m.work.posted) both ∙ p) ∙ both, o, p)

-- The events that cancel an order from a state of the second zone.
abbrev pub cancel_events : State → IdT → Bool → List Event
cancel_events State.no_cnl_replace k b =
    plain Trigger.cancel_received k b ∷ plain Trigger.exec_cancel k b ∷ []
cancel_events State.going_cancel k b = plain Trigger.exec_cancel k b ∷ []
cancel_events State.going_replace k b =
    plain (Trigger.replace_rejected k) k b
    ∷ plain Trigger.cancel_received k b
    ∷ plain Trigger.exec_cancel k b
    ∷ []
cancel_events _ k b = []

module _ (process : Event → Machine → Machine)
    (documented : (e : Event) (m : Machine) → process e m ≡ dispatch e m) (a : Address) (k : IdT)
    (b : Bool) (z : State) (main : is_main z ≡ true) where
  -- A run from a machine that the first event leads to.
  first :
      (s s' : State) (e : Event) (es : List Event) (w : Work)
      → Reaches a z s' (dispatch e (machine z s w))
      → ((w' : Work)
          → w'.order ≡ some a
          → w'.posted ≡ []
          → Reaches a z State.cncl_replaced (run process es (machine z s' w')))
      → Reaches a z State.cncl_replaced (run process (e ∷ es) (machine z s w))
  unfolding run
  first s s' e es w (w', q, o, p) rest =
      subst (λ m. Reaches a z State.cncl_replaced (run process es m))
        (sym (documented e (machine z s w) ∙ q)) (rest w' o p)

  from_going_cancel :
      (w : Work)
      → w.order ≡ some a
      → w.posted ≡ []
      → Reaches a z State.cncl_replaced
          (run process (cancel_events State.going_cancel k b) (machine z State.going_cancel w))
  unfolding run
  from_going_cancel w o p =
      first State.going_cancel State.cncl_replaced (plain Trigger.exec_cancel k b) [] w
        (step-Reaches a z _ _ _ w main refl (executes a w k b o p)) (λ w' o' p'. (w', refl, o', p'))

  from_no_cnl_replace :
      (w : Work)
      → w.order ≡ some a
      → w.posted ≡ []
      → Reaches a z State.cncl_replaced
          (run process (cancel_events State.no_cnl_replace k b) (machine z State.no_cnl_replace w))
  from_no_cnl_replace w o p =
      first State.no_cnl_replace State.going_cancel (plain Trigger.cancel_received k b) _ w
        (step-Reaches a z _ _ _ w main refl (receives a w k b o p)) from_going_cancel

  from_going_replace :
      (w : Work)
      → w.order ≡ some a
      → w.posted ≡ []
      → Reaches a z State.cncl_replaced
          (run process (cancel_events State.going_replace k b) (machine z State.going_replace w))
  from_going_replace w o p =
      first State.going_replace State.no_cnl_replace (plain (Trigger.replace_rejected k) k b) _ w
        (step-Reaches a z _ _ _ w main refl (returns a w k b o p)) from_no_cnl_replace

  cancel-Reaches :
      (s : State) (w : Work)
      → is_waiting s ≡ true
      → w.order ≡ some a
      → w.posted ≡ []
      → Reaches a z State.cncl_replaced (run process (cancel_events s k b) (machine z s w))
  cancel-Reaches State.no_cnl_replace w h o p = from_no_cnl_replace w o p
  cancel-Reaches State.going_cancel w h o p = from_going_cancel w o p
  cancel-Reaches State.going_replace w h o p = from_going_replace w o p
  cancel-Reaches _ w h o p = absurd (cc)

  -- Whatever the state of its main zone, a machine with an order and no event waiting, that is in
  -- one of the three other states of the second zone can be canceled: the one to three events of
  -- `cancel_events` for that state lead to CnclReplaced, and the main zone stays. The dispatch of
  -- Boost MSM is that of its documentation.
  pub cancel_reaches :
      (s : State) (w : Work)
      → is_waiting s ≡ true
      → w.order ≡ some a
      → w.posted ≡ []
      → let m = run process (cancel_events s k b) (record { zone1 = z; zone2 = s; work = w }) in
        (m.zone2 ≡ State.cncl_replaced) × (m.zone1 ≡ z)
  cancel_reaches s w h o p =
      let (w', q, o', p') = cancel-Reaches s w h o p in (ap (λ m. m.zone2) q, ap (λ m. m.zone1) q)
