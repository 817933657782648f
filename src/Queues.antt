-- ===== src/Queues.antt =====
-- The queue of incoming events: src/IncomingQueues.cpp and, of src/QueuesDef.h, the events.
pub mod Events
pub mod Defs
pub mod Spec
pub mod Contents
