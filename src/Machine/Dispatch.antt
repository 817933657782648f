-- ===== src/Machine/Dispatch.antt =====
-- What the documentation of Boost MSM says of `process_event`, over the table and the functions of
-- this machine: the events go to both zones; of the rows for a state and an event the last one whose
-- guard holds is taken, its action runs before the entry of the target, and the state changes after
-- both; an exception ends the processing, and goes to `exception_caught`, which ignores it, as it does
-- that of `no_transition`; an event that is handed over by an action waits until the machine is done.
-- The theorems take the function itself as a parameter, with `dispatch` as the hypothesis about it.
use order_processor.Common.{◌≡◌, ap, sym, ◌∙◌, true, false, Option, none, some, List, [], ◌∷◌}
use order_processor.Machine.States.{State, Kind, Event, kind}
use order_processor.Machine.Context.{Work, Done, ok, threw, ◌>>=◌}
use order_processor.Machine.Entries.{on_entry}
use order_processor.Machine.Table.{Guard, Row, transition_table}
use order_processor.Machine.Handlers.{Verdict, passed, raised, run_action, run_guard}

unfoldable pub State-discrete : Discrete State
State-discrete = hlevel

unfoldable pub Kind-discrete : Discrete Kind
Kind-discrete = hlevel

-- The machine: `current_state()` and what the actions work on.
pub record Machine : Type 0 where
  pub zone1 : State
  pub zone2 : State
  pub work : Work

abbrev pub pick {ℓ κ} : {A : Type ℓ} {B : Type κ} → Dec A → Dec B → Row → List Row → List Row
pick (yes a) (yes b) r found = r ∷ found
pick _ _ r found = found

-- The rows for a state and an event, the last one first.
unfoldable pub candidates : State → Kind → List Row → List Row → List Row
unfolding State-discrete Kind-discrete
candidates s k [] found = found
candidates s k (r ∷ rs) found =
    candidates s k rs (pick (State-discrete r.source s) (Kind-discrete r.event k) r found)

-- What becomes of an event in one zone.
pub data Reaction : Type 0 where
  unhandled : Reaction
  moved : State → Work → Reaction
  failed : Work → Reaction

abbrev pub allowed : Option Guard → Event → Work → Verdict
allowed none e w = passed true
allowed (some g) e w = run_guard g e w

abbrev pub arrive : State → Done → Reaction
arrive s (ok w) = moved s w
arrive s (threw w x) = failed w

unfoldable pub fire : Row → Event → Work → Reaction
unfolding run_action on_entry
fire r e w = arrive r.target (run_action r.action e w >>= on_entry r.target e)

abbrev pub by_verdict : Verdict → Reaction → Reaction → Work → Reaction
by_verdict (passed true) a b w = a
by_verdict (passed false) a b w = b
by_verdict (raised x) a b w = failed w

unfoldable pub try_rows : List Row → Event → Work → Reaction
unfolding fire
try_rows [] e w = unhandled
try_rows (r ∷ rs) e w = by_verdict (allowed r.guard e w) (fire r e w) (try_rows rs e w) w

unfoldable pub react : State → Event → Work → Reaction
unfolding candidates try_rows transition_table
react s e w = try_rows (candidates s (kind e.trigger) transition_table []) e w

abbrev pub in_zone2 : Reaction → Machine → Machine
in_zone2 unhandled m = m
in_zone2 (moved s w) m = record m { zone2 = s; work = w }
in_zone2 (failed w) m = record m { work = w }

-- The second zone, unless an exception has ended the processing.
abbrev pub second_zone : Event → Machine → Machine
second_zone e m = in_zone2 (react m.zone2 e m.work) m

abbrev pub in_zone1 : Reaction → Event → Machine → Machine
in_zone1 unhandled e m = second_zone e m
in_zone1 (moved s w) e m = second_zone e (record m { zone1 = s; work = w })
in_zone1 (failed w) e m = record m { work = w }

unfoldable pub both_zones : Event → Machine → Machine
unfolding react
both_zones e m = in_zone1 (react m.zone1 e m.work) e m

-- The events that wait.
unfoldable pub drain : List Event → Machine → Machine
unfolding both_zones
drain [] m = m
drain (e ∷ es) m = drain es (both_zones e m)

abbrev pub idle : Machine → Machine
idle m = record m { work = record m.work { posted = [] } }

unfoldable pub dispatch : Event → Machine → Machine
unfolding both_zones drain
dispatch e m = let m' = both_zones e m in drain m'.work.posted (idle m')

-- With no event that waits, the machine is done after both zones.
pub dispatch_idle :
    (e : Event) (m : Machine) → (both_zones e m).work.posted ≡ [] → dispatch e m ≡ both_zones e m
unfolding dispatch drain
dispatch_idle e m h =
    let m' = both_zones e m in
    ap (λ es. drain es (idle m')) h
    ∙ (λ i. record m' { work = record m'.work { posted = sym h i } })
