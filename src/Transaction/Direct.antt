-- ===== src/Transaction/Direct.antt =====
-- boost/stm/transaction.hpp: access with direct updating. A write takes the object for the thread
-- and saves its state in the write list. No object is bound to another (`bind`), so that
-- `if_bound_perform_subreads` reads nothing.
use tboost_stm.Prelude.{ℕ, ◌==◌, if◌then◌else◌, [], ◌∷◌, ◌++◌, none, some}
use tboost_stm.BloomFilter
use tboost_stm.StdMap
use tboost_stm.Contention.{ContentionManager}
use tboost_stm.Objects.{invalid_thread, set_transaction_thread, new_copy, transaction_thread_at}
use tboost_stm.System.{System, Outcome, returns, throws, context_of, set_context, set_heap}
use tboost_stm.Transaction.Status.{forced_to_abort}
use tboost_stm.Transaction.Abort.{direct_abort}
use tboost_stm.Transaction.Deferred.{bloom_insert, count_read}

module _ {V : Type 0} (hash : ℕ → ℕ × ℕ) (cm : ContentionManager) where
  -- `abort_on_write` on a transaction: the manager aborts it and throws, or the code goes on.
  abbrev notify : ℕ → System V → Outcome V ℕ → Outcome V ℕ
  notify t s rest = if cm.abort_on_write then throws (direct_abort t s) else rest

  -- The read is noted in the Bloom filter.
  abbrev note_read : ℕ → ℕ → System V → Outcome V ℕ
  note_read t a s = returns a (count_read t (bloom_insert hash t a s))

  -- `direct_read` past the tests on its own memory, on the forced abort and on the Bloom filter.
  -- With late conflict detection the saved state is read from the owner's write list; there an
  -- object that its owner did not put into the list is read past the list's end, here 0.
  unfoldable pub direct_read_shared : ℕ → ℕ → System V → Outcome V ℕ
  direct_read_shared t a s =
      let owner = transaction_thread_at s.heap a in
      if s.direct_late_write_read_conflict
      then if owner == invalid_thread
        then note_read t a s
        else elim (StdMap.lookup a (s.context owner).write_mem) [
          | none ↦ note_read t 0 s
          | some b ↦ note_read t b s
        ]
      else if owner == invalid_thread
      then note_read t a s
      else notify t s (note_read t a s)

  -- `direct_read`
  unfoldable pub direct_read : ℕ → ℕ → System V → Outcome V ℕ
  unfolding direct_read_shared
  direct_read t a s =
      let rest =
        if BloomFilter.exists hash a (context_of s t).bloom
        then returns a s
        else direct_read_shared t a s in
      if transaction_thread_at s.heap a == (s.tx t).thread_id
      then returns a s
      else if forced_to_abort s t
      then notify t s rest
      else rest

  -- `direct_write` under its lock: the object is taken, and its state saved.
  unfoldable pub take_for_write : ℕ → ℕ → System V → Outcome V ℕ
  take_for_write t a s =
      let c = context_of s t in
      let (b, h) = new_copy a (set_transaction_thread (s.tx t).thread_id a s.heap) in
      if transaction_thread_at s.heap a == invalid_thread
      then returns a (
          set_context (set_heap s h) t (record c {
            write_mem = StdMap.insert a b c.write_mem;
            bloom = BloomFilter.insert hash a c.bloom;
          }))
      else throws s

  -- `direct_write`. A second writer gets the exception without being aborted first.
  unfoldable pub direct_write : ℕ → ℕ → System V → Outcome V ℕ
  unfolding take_for_write
  direct_write t a s =
      if transaction_thread_at s.heap a == (s.tx t).thread_id
      then returns a s
      else if forced_to_abort s t
      then notify t s (take_for_write t a s)
      else take_for_write t a s

  -- `direct_delete_memory`. The returned number is not used.
  unfoldable pub direct_delete_memory : ℕ → ℕ → System V → Outcome V ℕ
  direct_delete_memory t a s =
      let owner = transaction_thread_at s.heap a in
      let c = context_of s t in
      let listed = record c { del_mem = c.del_mem ++ a ∷ [] } in
      if owner == (s.tx t).thread_id
      then returns a (set_context s t listed)
      else if owner == invalid_thread
      then returns a
          (set_context (set_heap s (set_transaction_thread (s.tx t).thread_id a s.heap)) t listed)
      else notify t s (returns a s)
