-- ===== src/Queues/Events.antt =====
-- The events of src/QueuesDef.h that can be queued, and the concurrent queue that holds them.
use order_processor.Common.{◌≡◌, Option, none, some, List, [], ◌∷◌, ◌++◌}
use order_processor.Model.Ids.{IdT}
use order_processor.Model.Order.{Text}
use order_processor.Store.Defs.{Address}

-- `OrderChangeStateEvent::StateChangeType`
pub data StateChange : Type 0 where
  invalid_change suspend resume finish : StateChange

-- `ProcessEvent::EventType`
pub data ProcessType : Type 0 where
  invalid_process on_replace_received on_exec_replace on_replace_rejected : ProcessType

-- `TimerEvent::TimerType`
pub data TimerType : Type 0 where
  invalid_timer expiration day_end day_start : TimerType

-- `EventVariant`: an order is given by its address.
pub data Event : Type 0 where
  order_event : IdT → Address → Event
  cancel_event : IdT → Text → Event
  replace_event : IdT → Option Address → Event
  change_state_event : IdT → StateChange → Event
  process_event : IdT → ProcessType → Event
  timer_event : IdT → TimerType → Event

-- `QueuedEvent`
pub record QueuedEvent : Type 0 where
  pub source : Text
  pub event : Event

abbrev pub first_and_rest {ℓ} : {A : Type ℓ} → List A → Option (A × List A)
first_and_rest [] = none
first_and_rest (x ∷ xs) = some (x, xs)

abbrev pub map_rest {ℓ κ μ} :
    {A : Type ℓ} {B : Type κ} {C : Type μ} → (B → C) → Option (A × B) → Option (A × C)
map_rest f none = none
map_rest f (some (a, b)) = some (a, f b)

-- `oneapi::tbb::concurrent_queue`, called by one thread at a time: `push` adds at the end, and
-- `try_pop` takes from the front unless there is nothing.
pub record EventQueue : Type 1 where
  pub Queue : Type 0
  pub empty : Queue
  pub push : QueuedEvent → Queue → Queue
  pub try_pop : Queue → Option (QueuedEvent × Queue)
  pub items : Queue → List QueuedEvent
  pub items-empty : items empty ≡ []
  pub items-push : (e : QueuedEvent) (q : Queue) → items (push e q) ≡ items q ++ e ∷ []
  pub items-try_pop : (q : Queue) → map_rest items (try_pop q) ≡ first_and_rest (items q)
