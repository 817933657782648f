-- ===== src/Examples.antt =====
-- The theorems at concrete orders, books and transactions.
mod Data
mod Books
mod Orders
mod Transactions
mod Models
mod Trees
mod Events
mod Machines
mod Codecs
mod Managers
mod Processors
mod Subscribers
