-- ===== src/Transaction/Deletions.antt =====
-- boost/stm/detail/transaction_impl.hpp: the buffer of deleted memory, a `multimap` by the time of
-- the commit, and `doIntervalDeletions`, which frees what no transaction in flight can still read.
pub mod Order
use tboost_stm.Prelude.{ℕ, ltb, if◌then◌else◌, List, [], ◌∷◌}
use tboost_stm.Objects.{Heap}
use tboost_stm.System.{System, context_of, set_context, set_heap}
use tboost_stm.Transaction.Abort.{delete_all}

-- `deletionBuffer_.insert`: behind the entries of the same time.
unfoldable pub buffer : ℕ → List ℕ → List (ℕ × List ℕ) → List (ℕ × List ℕ)
buffer time mem [] = (time, mem) ∷ []
buffer time mem ((k, l) ∷ m) =
    if ltb time k then (time, mem) ∷ (k, l) ∷ m else (k, l) ∷ buffer time mem m

module _ {V : Type 0} where
  -- `deferredCommitTransactionDeletedMemory`, and `directCommitTransactionDeletedMemory`
  unfoldable pub commit_deleted_memory : ℕ → ℕ → System V → System V
  unfolding buffer
  commit_deleted_memory time t s =
      let c = context_of s t in
      elim c.del_mem [
        | [] ↦ s
        | a ∷ rest ↦ record (set_context s t (record c { del_mem = [] })) {
          deletion_buffer = buffer time c.del_mem s.deletion_buffer;
        }
      ]

  -- The loop of `earliest_start_time_of_inflight_txes`
  unfoldable pub earliest : System V → List ℕ → ℕ → ℕ
  earliest s [] secs = secs
  earliest s (i ∷ is) secs =
      earliest s is (if ltb (s.tx i).start_time secs then (s.tx i).start_time else secs)

  unfoldable pub earliest_start_time_of_inflight_txes : System V → ℕ
  unfolding earliest
  earliest_start_time_of_inflight_txes s = earliest s s.in_flight 0xffffffff

  -- The loop of `doIntervalDeletions`: the front entry goes while it is older.
  unfoldable pub free_older : ℕ → List (ℕ × List ℕ) → Heap V → List (ℕ × List ℕ) × Heap V
  unfolding delete_all
  free_older limit [] h = ([], h)
  free_older limit ((k, l) ∷ m) h =
      let rest = free_older limit m (delete_all l h) in
      if ltb k limit then rest else ((k, l) ∷ m, h)

  unfoldable pub do_interval_deletions : System V → System V
  unfolding free_older earliest_start_time_of_inflight_txes
  do_interval_deletions s =
      let (m, h) = free_older (earliest_start_time_of_inflight_txes s) s.deletion_buffer s.heap in
      record (set_heap s h) { deletion_buffer = m }
