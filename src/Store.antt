-- ===== src/Store.antt =====
-- The order storage of src/OrderStorage.cpp.
pub mod Defs
pub mod Linked
