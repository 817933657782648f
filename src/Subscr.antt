-- ===== src/Subscr.antt =====
-- The subscriptions for orders: src/SubscrManager.cpp.
pub mod Defs
pub mod Groups
pub mod Listed
pub mod Pinning
pub mod Matching
