-- ===== src/Machine/Rows.antt =====
-- A step of a zone follows a row of the table.
use order_processor.Common.{◌≡◌, refl, ap, true, false, List, [], ◌∷◌, All}
use order_processor.Machine.States.{State, Kind, Event, kind}
use order_processor.Machine.Context.{Work, Done, ok, threw, ◌>>=◌}
use order_processor.Machine.Entries.{on_entry}
use order_processor.Machine.Table.{Row, transition_table}
use order_processor.Machine.Handlers.{Verdict, passed, raised, run_action}
use order_processor.Machine.Dispatch.{
  State-discrete, Kind-discrete, pick, candidates, Reaction, by_verdict, unhandled, moved, failed,
  allowed, fire, try_rows, react, arrive,
}

-- What a row that takes an event from `s` has.
abbrev Fits : (Row → Type 0) → State → Kind → Row → Type 0
Fits P s k r = P r × (r.source ≡ s) × (r.event ≡ k)

module _ (P : Row → Type 0) (s : State) (k : Kind) where
  pick-Fits :
      (r : Row) (found : List Row)
      → P r
      → (d : Dec (r.source ≡ s)) (d' : Dec (r.event ≡ k)) → All (Fits P s k) found
      → All (Fits P s k) (pick d d' r found)
  pick-Fits r found p (yes e) (yes f) g = ((p, e, f), g)
  pick-Fits r found p (yes e) (no n) g = g
  pick-Fits r found p (no n) d' g = g

  none-Fits :
      ((r : Row) → P r → r.source ≡ s → r.event ≡ k → ⊥)
      → (rs : List Row) → All (Fits P s k) rs
      → rs ≡ []
  none-Fits no_row [] h = refl
  none-Fits no_row (r ∷ rs) ((p, e, f), h) = absurd (no_row r p e f)

  candidates-Fits :
      (rs found : List Row)
      → All P rs
      → All (Fits P s k) found
      → All (Fits P s k) (candidates s k rs found)
  unfolding candidates
  candidates-Fits [] found h g = g
  candidates-Fits (r ∷ rs) found (p, h) g =
      candidates-Fits rs _ h
        (pick-Fits r found p (State-discrete r.source s) (Kind-discrete r.event k) g)

-- A zone takes no event that no row takes.
pub react-unhandled :
    (P : Row → Type 0) (s : State) (e : Event) (w : Work)
    → All P transition_table
    → ((r : Row) → P r → r.source ≡ s → r.event ≡ kind e.trigger → ⊥)
    → react s e w ≡ unhandled
unfolding react try_rows
react-unhandled P s e w h no_row =
    ap (λ rs. try_rows rs e w)
      (none-Fits P s (kind e.trigger) no_row _
        (candidates-Fits P s (kind e.trigger) transition_table [] h tt))

-- A step that a row explains.
pub record Step (P : Row → Type 0) (s s' : State) (e : Event) (w w' : Work) : Type 0 where
  pub row : Row
  pub holds : P row
  pub source : row.source ≡ s
  pub event : row.event ≡ kind e.trigger
  pub target : row.target ≡ s'
  pub done : (run_action row.action e w >>= on_entry row.target e) ≡ ok w'

-- Of a reaction that moves; the others claim nothing.
abbrev pub OnMove : (State → Work → Type 0) → Reaction → Type 0
OnMove Q unhandled = Unit
OnMove Q (moved s w) = Q s w
OnMove Q (failed w) = Unit

module _ (P : Row → Type 0) (s : State) (e : Event) (w : Work) where
  Explained : Reaction → Type 0
  Explained = OnMove (λ s' w'. Step P s s' e w w')

  arrived :
      (r : Row)
      → Fits P s (kind e.trigger) r
      → (d : Done) → (run_action r.action e w >>= on_entry r.target e) ≡ d
      → Explained (arrive r.target d)
  unfolding Explained
  arrived r (p, h, k) (threw w' x) q = tt
  arrived r (p, h, k) (ok w') q = record {
    row = r;
    holds = p;
    source = h;
    event = k;
    target = refl;
    done = q;
  }

  fire-Explained : (r : Row) → Fits P s (kind e.trigger) r → Explained (fire r e w)
  unfolding fire
  fire-Explained r f = arrived r f (run_action r.action e w >>= on_entry r.target e) refl

  verdict-Explained :
      (v : Verdict) (a b : Reaction) → Explained a → Explained b → Explained (by_verdict v a b w)
  unfolding Explained
  verdict-Explained (passed true) a b h g = h
  verdict-Explained (passed false) a b h g = g
  verdict-Explained (raised x) a b h g = tt

  try_rows-Explained :
      (rs : List Row) → All (Fits P s (kind e.trigger)) rs → Explained (try_rows rs e w)
  unfolding try_rows Explained
  try_rows-Explained [] h = tt
  try_rows-Explained (r ∷ rs) (f, h) =
      verdict-Explained (allowed r.guard e w) _ _ (fire-Explained r f) (try_rows-Explained rs h)

  pub react-Explained : All P transition_table → OnMove (λ s' w'. Step P s s' e w w') (react s e w)
  unfolding react Explained
  react-Explained h =
      try_rows-Explained _ (candidates-Fits P s (kind e.trigger) transition_table [] h tt)
