-- ===== src/Filters.antt =====
-- The filters of subscriptions: src/FilterImpl.cpp, src/EntryFilter.cpp and src/OrderFilter.cpp.
pub mod Values
pub mod Entries
pub mod Orders
