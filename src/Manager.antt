-- ===== src/Manager.antt =====
-- The transactions that wait: src/TransactionMgr.cpp.
pub mod Defs
pub mod Sound
pub mod Addition
pub mod Schedule
