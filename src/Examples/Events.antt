-- ===== src/Examples/Events.antt =====
-- The theorems on the queue of events, with a list as the concurrent queue.
use order_processor.Common.{◌≡◌, refl, true, some, List, [], ◌∷◌, ◌++◌}
use order_processor.Queues.Events.{
  QueuedEvent, EventQueue, order_event, cancel_event, map_rest, first_and_rest,
}
use order_processor.Queues.Defs.{Incoming}
use order_processor.Queues.Spec.{Call, pushes, tops, pops_to, pops, expected_replies}
use order_processor.Queues.Contents.{Agrees, call, call-Agrees, calls, calls-replies}

list-try_pop : (q : List QueuedEvent) → map_rest (λ l. l) (first_and_rest q) ≡ first_and_rest q
list-try_pop [] = refl
list-try_pop (e ∷ es) = refl

abbrev list_queue : EventQueue
list_queue = record {
  Queue = List QueuedEvent;
  empty = [];
  push = λ e q. q ++ e ∷ [];
  try_pop = first_and_rest;
  items = λ q. q;
  items-empty = refl;
  items-push = λ e q. refl;
  items-try_pop = list-try_pop;
}

abbrev an_order : QueuedEvent
an_order = record { source = b'x' ∷ []; event = order_event 0 5 }

abbrev a_cancel : QueuedEvent
a_cancel = record { source = b'x' ∷ []; event = cancel_event 9 [] }

-- The order was read by `top` and waits; the cancel is behind it.
abbrev waiting : Incoming list_queue
waiting = record {
  event_queue = a_cancel ∷ [];
  pending_event = some an_order;
  queue_size = 2;
  has_observer = true;
  notified = 2;
  deleted = [];
}

call-Agrees_example : Agrees list_queue pops_to waiting (call list_queue pops_to waiting)
call-Agrees_example = call-Agrees list_queue pops_to waiting refl

abbrev script : List Call
script = tops ∷ pops ∷ pushes an_order ∷ pops_to ∷ pops_to ∷ tops ∷ []

calls-replies_example :
    (calls list_queue script waiting).0 ≡ expected_replies script (an_order ∷ a_cancel ∷ [])
calls-replies_example = calls-replies list_queue script waiting refl
