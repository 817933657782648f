-- ===== src/Acid.antt =====
-- Transactions: src/TransactionDef.h, src/TransactionScope.cpp and the order book operations of
-- src/TrOperations.cpp.
pub mod Operation
pub mod Scope
pub mod Execution
pub mod Stages
pub mod Arena
pub mod Objects
pub mod Related
pub mod BookOperations
