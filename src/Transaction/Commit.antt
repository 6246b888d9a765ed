-- ===== src/Transaction/Commit.antt =====
-- boost/stm/detail/transaction_impl.hpp: how a transaction ends.
use tboost_stm.Prelude.{ℕ, ◌+◌, ltb, ◌==◌, if◌then◌else◌, u64, List, [], ◌∷◌, length}
use tboost_stm.StdSet
use tboost_stm.Contention.{ContentionManager}
use tboost_stm.Objects.{
  Heap, invalid_thread, set_transaction_thread, set_new_memory, copy_state, delete,
}
use tboost_stm.System.{
  System, Outcome, returns, throws, e_committed, e_hand_off, e_normal_tx, context_of, set_context,
  set_heap, set_state,
}
use tboost_stm.Transaction.Status.{
  in_flight, forced_to_abort, is_only_reading, other_in_flight_same_thread,
}
use tboost_stm.Transaction.Abort.{deferred_abort, direct_abort}
use tboost_stm.Transaction.Release.{clear_latm_obtained_locks}
use tboost_stm.Transaction.Invalidation.{force_others_accessing, force_others_reading}
use tboost_stm.Transaction.Deletions.{commit_deleted_memory}

module _ {V : Type 0} where
  -- The loop of `deferredCommitWriteState`: the copies become the state of the originals. An entry
  -- with the null pointer stands for an object that is deleted. States are copied, never moved: the
  -- library is built without move semantics.
  unfoldable pub publish_entry : ℕ → ℕ → Heap V → Heap V
  publish_entry a b h =
      if b == 0
      then h
      else delete b
          (set_new_memory 0 a (set_transaction_thread invalid_thread a (copy_state a b h)))

  unfoldable pub publish : List (ℕ × ℕ) → Heap V → Heap V
  unfolding publish_entry
  publish [] h = h
  publish ((a, b) ∷ m) h = publish m (publish_entry a b h)

  -- The loop of `directCommitWriteState`: the saved states are deleted.
  unfoldable pub keep_written : List (ℕ × ℕ) → Heap V → Heap V
  keep_written [] h = h
  keep_written ((a, b) ∷ m) h =
      keep_written m (delete b (set_new_memory 0 a (set_transaction_thread invalid_thread a h)))

  -- The loop of `deferredCommitTransactionNewMemory`
  unfoldable pub share_all : List ℕ → Heap V → Heap V
  share_all [] h = h
  share_all (a ∷ rest) h =
      share_all rest (set_new_memory 0 a (set_transaction_thread invalid_thread a h))

  unfoldable pub deferred_commit_write_state : ℕ → System V → System V
  unfolding publish
  deferred_commit_write_state t s =
      let c = context_of s t in
      set_context (set_heap s (publish c.write_mem s.heap)) t (record c { write_mem = [] })

  unfoldable pub direct_commit_write_state : ℕ → System V → System V
  unfolding keep_written
  direct_commit_write_state t s =
      let c = context_of s t in
      set_context (set_heap s (keep_written c.write_mem s.heap)) t (record c { write_mem = [] })

  unfoldable pub commit_new_memory : ℕ → System V → System V
  unfolding share_all
  commit_new_memory t s =
      let c = context_of s t in
      set_context (set_heap s (share_all c.new_mem s.heap)) t (record c { new_mem = [] })

  -- `++(*commits_ref_)`
  abbrev pub count_commit : ℕ → System V → System V
  count_commit t s =
      set_context s t (record (context_of s t) { commits = u64 ((context_of s t).commits + 1) })

  -- `++global_clock()`
  abbrev pub tick : System V → System V
  tick s = record s { global_clock = u64 (s.global_clock + 1) }

  -- `bookkeeping_.inc_handoffs()`
  abbrev pub count_hand_off : System V → System V
  count_hand_off s = record s { bookkeeping = record b { hand_offs = u64 (b.hand_offs + 1) } }
    where
      open s use {bookkeeping as b}

  -- `bookkeeping_.inc_commits()`
  abbrev pub inc_commits : System V → System V
  inc_commits s = record s { bookkeeping = record b { commits = u64 (b.commits + 1) } }
    where
      open s use {bookkeeping as b}

  -- The counts of new and of deleted memory.
  abbrev pub count_memory : ℕ → ℕ → System V → System V
  count_memory new deleted s = record s {
    bookkeeping = record b {
      new_memory_commits = u64 (b.new_memory_commits + new);
      deleted_memory_commits = u64 (b.deleted_memory_commits + deleted);
    };
  }
    where
      open s use {bookkeeping as b}

  -- What every commit ends with: the type of the thread, its locks, and the state.
  unfoldable pub finish : ℕ → System V → System V
  unfolding clear_latm_obtained_locks
  finish t s =
      let c = context_of s t in
      set_state
        (clear_latm_obtained_locks t
          (set_context s t (record c { tx_type = e_normal_tx; conflicting_mutexes = [] })))
        t e_committed

  -- The commit once the conflicting transactions are dealt with.
  unfoldable pub write_back : ℕ → ℕ → System V → System V
  unfolding deferred_commit_write_state commit_new_memory commit_deleted_memory finish
  write_back now t s =
      let c = context_of s t in
      let s' = count_commit t (record s { in_flight = StdSet.erase t s.in_flight }) in
      finish t (
        inc_commits (
          count_memory (length c.new_mem) (length c.del_mem)
            (commit_deleted_memory now t (commit_new_memory t (deferred_commit_write_state t s')))))

  -- A transaction with another of its thread in flight hands its lists on to that one.
  unfoldable pub hand_off : ℕ → System V → System V
  hand_off t s =
      count_hand_off (set_state (record s { in_flight = StdSet.erase t s.in_flight }) t e_hand_off)

module _ {V : Type 0} (hash : ℕ → ℕ × ℕ) (cm : ContentionManager) (now : ℕ) where
  abbrev pub commit_or_abort : ℕ → Outcome V (Unit {0}) → Outcome V (Unit {0})
  commit_or_abort t (returns _ s) = returns tt (write_back now t s)
  commit_or_abort t (throws s) = throws (deferred_abort t s)

  -- `invalidating_deferred_commit`
  unfoldable pub invalidating_deferred_commit : ℕ → System V → Outcome V (Unit {0})
  unfolding write_back deferred_abort force_others_accessing
  invalidating_deferred_commit t s =
      commit_or_abort t
        (if ltb 1 (length s.in_flight) then force_others_accessing hash cm t s else returns tt s)

  -- The first part of `invalidating_deferred_end_transaction`, for a transaction without writes.
  unfoldable pub end_reading : ℕ → System V → System V
  unfolding finish other_in_flight_same_thread
  end_reading t s =
      let s' = record s { in_flight = StdSet.erase t s.in_flight } in
      tick (
        count_commit t (
          if other_in_flight_same_thread s' t
          then count_hand_off (set_state s' t e_hand_off)
          else finish t s'))

  abbrev pub tick_outcome : Outcome V (Unit {0}) → Outcome V (Unit {0})
  tick_outcome (returns _ s) = returns tt (tick s)
  tick_outcome (throws s) = throws s

  -- The second part, under `transactionMutex_`.
  unfoldable pub end_writing : ℕ → System V → Outcome V (Unit {0})
  unfolding invalidating_deferred_commit hand_off other_in_flight_same_thread
  end_writing t s =
      if forced_to_abort s t
      then throws (deferred_abort t s)
      else tick_outcome (
          if other_in_flight_same_thread s t
          then returns tt (hand_off t s)
          else invalidating_deferred_commit t s)

  -- `invalidating_deferred_end_transaction`
  unfoldable pub invalidating_deferred_end_transaction : ℕ → System V → Outcome V (Unit {0})
  unfolding end_reading end_writing is_only_reading
  invalidating_deferred_end_transaction t s =
      if forced_to_abort s t
      then throws (deferred_abort t s)
      else if is_only_reading s t
      then returns tt (end_reading t s)
      else end_writing t s

  abbrev keep_or_abort : ℕ → Outcome V (Unit {0}) → Outcome V (Unit {0})
  keep_or_abort t (throws s) = throws (direct_abort t s)
  keep_or_abort t (returns _ s) =
      let c = context_of s t in
      returns tt (
        finish t (
          commit_new_memory t (
            commit_deleted_memory now t (
              count_memory (length c.new_mem) (length c.del_mem) (direct_commit_write_state t s)))))

  -- `invalidating_direct_commit`, which counts the commit before it is settled.
  unfoldable pub invalidating_direct_commit : ℕ → System V → Outcome V (Unit {0})
  unfolding direct_abort force_others_reading direct_commit_write_state commit_new_memory
      commit_deleted_memory finish
  invalidating_direct_commit t s = keep_or_abort t (force_others_reading hash cm t (inc_commits s))

  -- `invalidating_direct_end_transaction`
  unfoldable pub invalidating_direct_end_transaction : ℕ → System V → Outcome V (Unit {0})
  unfolding invalidating_direct_commit hand_off direct_abort other_in_flight_same_thread
  invalidating_direct_end_transaction t s =
      let s' = record s { in_flight = StdSet.erase t s.in_flight } in
      if forced_to_abort s t
      then throws (direct_abort t s)
      else if other_in_flight_same_thread s' t
      then returns tt (hand_off t s)
      else invalidating_direct_commit t s'

  -- `end()`
  unfoldable pub end : ℕ → System V → Outcome V (Unit {0})
  unfolding invalidating_direct_end_transaction invalidating_deferred_end_transaction
  end t s =
      if in_flight s t
      then if s.direct_updating
        then invalidating_direct_end_transaction t s
        else invalidating_deferred_end_transaction t s
      else returns tt s
