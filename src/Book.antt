-- ===== src/Book.antt =====
-- The order book of src/OrderBookImpl.cpp.
pub mod Side
pub mod Defs
pub mod Sorted
pub mod Priority
pub mod Refinement
pub mod Search
pub mod Levels
pub mod Start
