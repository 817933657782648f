-- ===== src/Matching.antt =====
-- Order matching: src/OrderMatcher.cpp.
pub mod Defs
pub mod Priority
pub mod Outcome
