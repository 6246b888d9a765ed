-- ===== src/Tests.antt =====
-- Concrete runs: two threads, each with one transaction, and two objects.
pub mod Data
mod Containers
mod Transactions
mod Calls
mod Clients
mod Programs
mod Parts
