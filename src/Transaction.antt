-- ===== src/Transaction.antt =====
-- boost/stm/transaction.hpp and boost/stm/detail/transaction_impl.hpp: the class `transaction`.
-- Each member function is a function of the state and the number of the transaction. A section that
-- the source protects by its mutexes is one step, so that the mutexes have no state of their own.
pub mod Status
pub mod Release
pub mod Abort
pub mod Deferred
pub mod Direct
pub mod Invalidation
pub mod Commit
pub mod Deletions
pub mod Flush
pub mod Access
pub mod Construction
pub mod Threads
pub mod Entries
pub mod WriteList
pub mod Isolation
pub mod Publication
pub mod Unwinding
pub mod Composition
pub mod Removal
pub mod Undo
pub mod Solitude
pub mod Retry
pub mod Atomic
pub mod Blocks
pub mod Pointers
pub mod Binding
pub mod Conflicts
pub mod Policy
