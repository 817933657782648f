-- ===== src/Tree.antt =====
-- The dependency tree of the pending transactions: src/NLinkedTree.cpp.
pub mod Defs
pub mod Remove
pub mod Walk
pub mod Chains
pub mod Invariant
pub mod Linking
pub mod Growth
pub mod Ready
pub mod Gaps
pub mod Unlinking
pub mod Relinking
pub mod Rounds
pub mod Removal
pub mod Cursor
