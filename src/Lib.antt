-- ===== src/Lib.antt =====
-- TBoost.STM, a software transactional memory: transactions on shared objects, with deferred or
-- direct updating, that detect their conflicts when one of them commits (invalidation).
--
-- The parts, and where they are modelled:
-- - boost/stm/detail/vector_map.hpp, vector_set.hpp, transactions_stack.hpp, bit_vector.hpp and
--   bloom_filter.hpp, the containers: VectorMap, VectorSet, TransactionsStack, BitVector and
--   BloomFilter, one function for each member function.
-- - boost/stm/base_transaction.hpp, the objects that transactions share: Objects. An object is a
--   cell of a heap; a reference is its address, and the null pointer is 0.
-- - boost/stm/contention_manager.hpp and libs/stm/src/contention_manager.cpp: Contention. A manager
--   is a record of decisions that the transactions take as a parameter.
-- - boost/stm/transaction.hpp and boost/stm/detail/transaction_impl.hpp, the class `transaction`:
--   System holds the state (the contexts of the threads, the transactions, the static members), and
-- the modules below Transaction the operations: Status (kind, flags, the set in flight), Deferred
-- and Direct (reads, writes, new and deleted memory), Access (the calls of the client, which choose
-- between those two), Invalidation (who has to abort), Commit, Flush (`commit_deferred_update_tx`),
-- Abort, Deletions (the buffer of deleted memory), Construction.
--   In the same file are the loops that repeat a client's block (Retry) and the objects that are bound
--   to others (Binding), and the time at which conflicts are found (Policy); Pointers is
--   boost/stm/detail/tx_ptr.hpp.
-- - boost/stm/detail/memory_pool.hpp: MemoryPool; the histories of
--   boost/stm/detail/transaction_bookkeeping.hpp: Histories.
-- - libs/stm/src/transaction.cpp: Transaction.Threads, the start and the end of a thread.
-- - boost/stm/detail/latm_general_impl.hpp: Transaction.Release, the locks that a transaction gives
--   back when it ends, and Locks, the mutexes that a client locks through the library. Under Locks,
--   Full, Tm and Tx are the three policies (latm_def_*_impl.hpp and latm_dir_*_impl.hpp), General
--   and Flow what they share, Policy the choice that the client makes, Conflicts the locks that a
--   transaction declares, Dispatch the calls by policy, AutoLock the guards of
--   boost/stm/detail/auto_lock.hpp, Mutexes the threads' own mutexes (transaction_impl.hpp); Rounds,
--   Protection, RoundTrip, Refusal, Stopping, Wakeup, Patience and Interleaving are proofs.
-- StdMap and StdSet stand for std::map and std::set, Prelude for what the modules share. Modules
-- below an operation's module hold its proofs; Entries, WriteList, Isolation, Publication,
-- Unwinding, Composition, Removal, Undo, Solitude, Conflicts, Atomic and Blocks below Transaction
-- hold proofs on several operations, and Tests the concrete runs. Atomic sets a client's program
-- through a transaction against the same program on a memory of its own, and Blocks repeats it under
-- `atomic`. Conflicts is about two transactions of which one has committed.
--
-- A transaction begins, and joins the set in flight (Status). It reads and writes objects: with
-- deferred updating a write makes a copy that the write list pairs with the original, with direct
-- updating the object is taken for the thread and the copy saves its state. Each access goes into
-- the thread's Bloom filter. At the end the committing transaction forces those in flight that have
-- accessed what it has written to abort, unless the manager or an irrevocable transaction forbids
-- it, and then writes its copies back. A client that locks a mutex through the library forces the
-- transactions that the policy names to abort, and keeps them out until it unlocks. The lists
-- belong to the thread, so that nested transactions share them, and an inner one hands them on to
-- the outer.
--
-- How the code is read:
-- - The configuration is the default of boost/stm/detail/config.hpp: Bloom filters and no read
--   sets, invalidation, composition, a shared flag for forced aborts, locks known to transactions,
--   no move semantics.
-- - A stretch of code that a mutex protects is one step of a function on the state; the mutexes
--   have no state. A loop that waits is modelled one round at a time: `none`, or a flag, says that
--   the code goes round again.
-- - An operation that may throw aborted_transaction_exception has an Outcome. The state of an
--   Outcome is the one the exception leaves.
-- - Counters of 64 bits wrap around; the time of a commit is an argument.
-- - The hash function hashlittle2 is a parameter, from the pointer that it is given to two hashes.
-- - `vector_map::insert` calls itself after it has appended a pair. It runs on fuel for two calls,
--   which is enough for every map.
-- - The client's mutexes are a parameter, a MutexLibrary: its `lock` gives the state in which the
--   call has returned. The loop of a lock function is `lock_loop`, on the number of rounds; 12
--   rounds, and 10 for each object in the longest write list in flight, are enough for the default
--   manager. Where a lock function waits with mutexes held, its first part ends in `drains` or
--   `stalled`, and a function of its own is the rest.
-- - Addresses are not given out twice. An access to an object that has been deleted, which is an
--   error of the client, finds no object.
--
-- - `malloc` is a parameter of the memory pool, on a state of its own.
-- - The loops of `atomic` and its kin run on fuel; for a block whose transaction commits at the first
--   attempt two rounds are enough, the second of which finds it committed.
--
-- Not modelled: the policies of the contention manager that compute in floating point, the profiling
-- data but for the histories, what the lock functions do after an exception of the C++ library (no
-- memory left), and the validating variants, which the default configuration does not use. The time
-- that a lock function has waited, an `int` of milliseconds, has no bound here.
mod Prelude
pub mod VectorMap
pub mod VectorSet
pub mod TransactionsStack
pub mod BitVector
pub mod BloomFilter
mod StdMap
mod StdSet
pub mod Objects
pub mod System
pub mod Contention
pub mod Transaction
pub mod Locks
pub mod MemoryPool
pub mod Histories
mod Tests
