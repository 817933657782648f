-- ===== src/Machine.antt =====
-- The state machine of an order: src/StateMachine.h, src/StateMachine.cpp, src/OrderStates.cpp,
-- src/OrderStateMachineImpl.cpp and the events of src/OrderStateEvents.h.
pub mod States
pub mod Context
pub mod Actions
pub mod Entries
pub mod Table
pub mod Handlers
pub mod Dispatch
pub mod Rows
pub mod Zones
pub mod Filling
pub mod Standing
pub mod MainZone
pub mod CancelZone
pub mod Resting
pub mod Canceling
pub mod Receiving
pub mod Unfilled
pub mod Trading
