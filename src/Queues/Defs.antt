-- ===== src/Queues/Defs.antt =====
-- `IncomingQueues` of src/IncomingQueues.cpp, called by one thread at a time. The log is left out.
use order_processor.Common.{
  ℕ, suc, ◌+◌, ◌-◌, ◌%◌, ◌^◌, Bool, true, false, Option, none, some, is_some, List, [], ◌∷◌, ◌++◌,
  ltb, if◌then◌else◌,
}
use order_processor.Store.Defs.{Address}
use order_processor.Queues.Events.{Event, QueuedEvent, EventQueue, order_event}

-- `queueSize_` is a `u32`.
abbrev pub size_limit : ℕ
size_limit = 2 ^ 32

-- The order that a `unique_ptr` deletes with the event.
abbrev pub owned : Event → List Address
owned (order_event id a) = a ∷ []
owned _ = []

module _ (m : EventQueue) where
  open m use {Queue, empty, push, try_pop}

  -- `deleted` lists the orders that were deleted, and `notified` counts the calls of `onNewEvent`.
  pub record Incoming : Type 0 where
    pub event_queue : Queue
    pub pending_event : Option QueuedEvent
    pub queue_size : ℕ
    pub has_observer : Bool
    pub notified : ℕ
    pub deleted : List Address

  abbrev pub initial : Incoming
  initial = record {
    event_queue = empty;
    pending_event = none;
    queue_size = 0;
    has_observer = false;
    notified = 0;
    deleted = [];
  }

  -- `fetch_sub(1)` and the deletion of the event's order.
  abbrev pub drop_event : QueuedEvent → Incoming → Incoming
  drop_event e s = record s {
    queue_size = (s.queue_size + size_limit - 1) % size_limit;
    deleted = s.deleted ++ owned e.event;
  }

  -- `onNewEvent`, if there is an observer.
  abbrev pub notify : Incoming → Incoming
  notify s = if s.has_observer then record s { notified = suc s.notified } else s

  -- `push`, for each kind of event.
  unfoldable pub push_event : QueuedEvent → Incoming → Incoming
  push_event e s = notify (record s {
    event_queue = push e s.event_queue;
    queue_size = (s.queue_size + 1) % size_limit;
  })

  abbrev pub keep_pending : Incoming → Option (QueuedEvent × Queue) → Option QueuedEvent × Incoming
  keep_pending s none = (none, s)
  keep_pending s (some (e, q)) = (some e, record s { event_queue = q; pending_event = some e })

  abbrev pub take_next : Incoming → Option (QueuedEvent × Queue) → Option QueuedEvent × Incoming
  take_next s none = (none, s)
  take_next s (some (e, q)) = (some e, drop_event e (record s { event_queue = q }))

  -- By the pending event.
  abbrev pub top_by : Incoming → Option QueuedEvent → Option QueuedEvent × Incoming
  top_by s none = keep_pending s (try_pop s.event_queue)
  top_by s (some e) = (some e, s)

  abbrev pub pop_by : Incoming → Option QueuedEvent → Option QueuedEvent × Incoming
  pop_by s none = take_next s (try_pop s.event_queue)
  pop_by s (some e) = (some e, drop_event e (record s { pending_event = none }))

  -- `top(obs)`: the event that the processor gets, if any, and the state.
  unfoldable pub top : Incoming → Option QueuedEvent × Incoming
  top s = top_by s s.pending_event

  -- `pop(obs)`
  unfoldable pub pop_to : Incoming → Option QueuedEvent × Incoming
  pop_to s = pop_by s s.pending_event

  -- `pop()`, which takes the same event and hands it to nobody.
  unfoldable pub pop : Incoming → Bool × Incoming
  pop s = let (e, s') = pop_by s s.pending_event in (is_some e, s')

  -- `attach(obs)` of an observer, which is told of events that wait already, and `detach()`.
  unfoldable pub attach : Incoming → Incoming
  attach s =
      let s' = record s { has_observer = true } in if ltb 0 s.queue_size then notify s' else s'

  unfoldable pub detach : Incoming → Incoming
  detach s = record s { has_observer = false }
