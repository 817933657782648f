-- ===== src/Machine/Zones.antt =====
-- The two zones of the machine over any sequence of events.
use order_processor.Common.{
  ◌≡◌, refl, sym, ◌∙◌, subst, Bool, true, false, List, [], ◌∷◌, arith, All,
}
use order_processor.Machine.States.{State, Event}
use order_processor.Machine.Context.{Work}
use order_processor.Machine.Table.{transition_table}
use order_processor.Machine.Dispatch.{
  Machine, Reaction, unhandled, moved, failed, react, in_zone1, in_zone2, second_zone, both_zones,
  idle, drain, dispatch,
}
use order_processor.Machine.Rows.{Step, OnMove, react-Explained}

-- The events one after the other.
unfoldable pub run : (Event → Machine → Machine) → List Event → Machine → Machine
run process [] m = m
run process (e ∷ es) m = run process es (process e m)

-- The states from which a zone never goes on.
abbrev pub is_final : State → Bool
is_final State.rejected = true
is_final State.expired = true
is_final State.cncl_replaced = true
is_final _ = false

-- The main zone; the others belong to the zone of cancel and replace.
abbrev pub is_main : State → Bool
is_main State.no_cnl_replace = false
is_main State.going_cancel = false
is_main State.going_replace = false
is_main State.cncl_replaced = false
is_main _ = true

-- What a zone keeps.
abbrev pub Keeps : State → State → Type 0
Keeps s s' = (is_main s' ≡ is_main s) × (is_final s ≡ true → s' ≡ s)

Keeps-trans : (s t u : State) → Keeps s t → Keeps t u → Keeps s u
Keeps-trans s t u (m, f) (m', f') =
    (m' ∙ m, λ h. f' (subst (λ x. is_final x ≡ true) (sym (f h)) h) ∙ f h)

table-Keeps : All (λ r. Keeps r.source r.target) transition_table
unfolding transition_table
table-Keeps = ground arith

move-Keeps :
    (s s' : State) (e : Event) (w w' : Work)
    → Step (λ r. Keeps r.source r.target) s s' e w w'
    → Keeps s s'
move-Keeps s s' e w w' t =
    subst (λ x. Keeps x s') t.source (subst (λ x. Keeps t.row.source x) t.target t.holds)

abbrev ZonesKeep : Machine → Machine → Type 0
ZonesKeep m m' = Keeps m.zone1 m'.zone1 × Keeps m.zone2 m'.zone2

ZonesKeep-refl : (m : Machine) → ZonesKeep m m
ZonesKeep-refl m = ((refl, λ h. refl), (refl, λ h. refl))

ZonesKeep-trans : (a b c : Machine) → ZonesKeep a b → ZonesKeep b c → ZonesKeep a c
ZonesKeep-trans a b c (x, y) (x', y') =
    (Keeps-trans a.zone1 b.zone1 c.zone1 x x', Keeps-trans a.zone2 b.zone2 c.zone2 y y')

Moved : State → Event → Work → Reaction → Type 0
Moved s e w = OnMove (λ s' w'. Step (λ r. Keeps r.source r.target) s s' e w w')

zone2-Keeps :
    (r : Reaction) (e : Event) (m : Machine)
    → Moved m.zone2 e m.work r
    → Keeps m.zone2 (in_zone2 r m).zone2 × ((in_zone2 r m).zone1 ≡ m.zone1)
unfolding Moved
zone2-Keeps unhandled e m h = ((refl, λ x. refl), refl)
zone2-Keeps (moved s w) e m h = (move-Keeps m.zone2 s e m.work w h, refl)
zone2-Keeps (failed w) e m h = ((refl, λ x. refl), refl)

second-Keeps :
    (e : Event) (m : Machine)
    → Keeps m.zone2 (second_zone e m).zone2 × ((second_zone e m).zone1 ≡ m.zone1)
unfolding Moved
second-Keeps e m = zone2-Keeps (react m.zone2 e m.work) e m (react-Explained _ _ e _ table-Keeps)

zone1-Keeps :
    (r : Reaction) (e : Event) (m : Machine)
    → Moved m.zone1 e m.work r
    → ZonesKeep m (in_zone1 r e m)
unfolding Moved
zone1-Keeps unhandled e m h =
    let (k, q) = second-Keeps e m in ((subst (λ x. Keeps m.zone1 x) (sym q) (refl, λ x. refl)), k)
zone1-Keeps (moved s w) e m h =
    let (k, q) = second-Keeps e (record m { zone1 = s; work = w }) in
    (subst (λ x. Keeps m.zone1 x) (sym q) (move-Keeps m.zone1 s e m.work w h), k)
zone1-Keeps (failed w) e m h = ZonesKeep-refl m

both_zones-Keep : (e : Event) (m : Machine) → ZonesKeep m (both_zones e m)
unfolding both_zones Moved
both_zones-Keep e m = zone1-Keeps (react m.zone1 e m.work) e m (react-Explained _ _ e _ table-Keeps)

drain-Keep : (es : List Event) (m : Machine) → ZonesKeep m (drain es m)
unfolding drain
drain-Keep [] m = ZonesKeep-refl m
drain-Keep (e ∷ es) m =
    ZonesKeep-trans m (both_zones e m) (drain es (both_zones e m)) (both_zones-Keep e m)
      (drain-Keep es (both_zones e m))

dispatch-Keep : (e : Event) (m : Machine) → ZonesKeep m (dispatch e m)
unfolding dispatch
dispatch-Keep e m =
    let m' = both_zones e m in
    ZonesKeep-trans m m' (drain m'.work.posted (idle m')) (both_zones-Keep e m)
      (drain-Keep m'.work.posted (idle m'))

module _ (process : Event → Machine → Machine)
    (documented : (e : Event) (m : Machine) → process e m ≡ dispatch e m) where
  -- Whatever events the machine gets: each of its zones stays among its own states, and the states
  -- Rejected, Expired and CnclReplaced are never left. The dispatch of Boost MSM is that of its documentation.
  pub run-Keep :
      (es : List Event) (m : Machine)
      → Keeps m.zone1 (run process es m).zone1 × Keeps m.zone2 (run process es m).zone2
  unfolding run
  run-Keep [] m = ZonesKeep-refl m
  run-Keep (e ∷ es) m =
      ZonesKeep-trans m (process e m) (run process es (process e m))
        (subst (ZonesKeep m) (sym (documented e m)) (dispatch-Keep e m)) (run-Keep es (process e m))
