-- ===== src/Processor.antt =====
-- The processor of the queued events: src/Processor.cpp, the deferred events and the operations.
pub mod Desk
pub mod Reports
pub mod Operations
pub mod Deferred
pub mod Loop
pub mod Handlers
pub mod Quiet
pub mod Endless
pub mod Totals
pub mod Live
pub mod Follows
pub mod Ends
pub mod Keeps
pub mod Frames
pub mod Queue
pub mod Undoing
pub mod Trades
pub mod Round
pub mod Rounds
