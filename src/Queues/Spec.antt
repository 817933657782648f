-- ===== src/Queues/Spec.antt =====
-- `IncomingQueues` of src/IncomingQueues.cpp as one queue of events: what each call answers and does.
use order_processor.Common.{Bool, true, Option, none, some, is_some, List, [], ◌∷◌, ◌++◌}
use order_processor.Store.Defs.{Address}
use order_processor.Queues.Events.{QueuedEvent}
use order_processor.Queues.Defs.{owned}

-- The calls of the interfaces `InQueues` and `InQueuesContainer`.
pub data Call : Type 0 where
  pushes : QueuedEvent → Call
  tops pops_to pops attaches detaches : Call

-- What a call answers: the event that the processor gets, and whether there was one.
pub record Reply : Type 0 where
  pub handed : Option QueuedEvent
  pub success : Bool

abbrev pub quiet : Reply
quiet = record { handed = none; success = true }

abbrev pub answer : Option QueuedEvent → Reply
answer e = record { handed = e; success = is_some e }

-- One queue: its answer, what is left, and the orders that are deleted.
abbrev pub first : List QueuedEvent → Option QueuedEvent
first [] = none
first (e ∷ es) = some e

abbrev pub rest : List QueuedEvent → List QueuedEvent
rest [] = []
rest (e ∷ es) = es

abbrev pub first_owned : List QueuedEvent → List Address
first_owned [] = []
first_owned (e ∷ es) = owned e.event

unfoldable pub expected_reply : Call → List QueuedEvent → Reply
expected_reply (pushes e) es = quiet
expected_reply tops es = answer (first es)
expected_reply pops_to es = answer (first es)
expected_reply pops es = record { handed = none; success = is_some (first es) }
expected_reply attaches es = quiet
expected_reply detaches es = quiet

unfoldable pub expected_events : Call → List QueuedEvent → List QueuedEvent
expected_events (pushes e) es = es ++ e ∷ []
expected_events tops es = es
expected_events pops_to es = rest es
expected_events pops es = rest es
expected_events attaches es = es
expected_events detaches es = es

unfoldable pub expected_deletions : Call → List QueuedEvent → List Address
expected_deletions (pushes e) es = []
expected_deletions tops es = []
expected_deletions pops_to es = first_owned es
expected_deletions pops es = first_owned es
expected_deletions attaches es = []
expected_deletions detaches es = []

-- The answers to a sequence of calls.
unfoldable pub expected_replies : List Call → List QueuedEvent → List Reply
expected_replies [] es = []
expected_replies (c ∷ cs) es = expected_reply c es ∷ expected_replies cs (expected_events c es)
