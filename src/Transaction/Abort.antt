-- ===== src/Transaction/Abort.antt =====
-- boost/stm/detail/transaction_impl.hpp: how a transaction is undone.
use tboost_stm.Prelude.{
  some, ℕ, Bool, true, false, not, ◌==◌, if◌then◌else◌, ◌&&◌, List, [], ◌∷◌, none,
}
use tboost_stm.BloomFilter
use tboost_stm.StdSet
use tboost_stm.Objects.{Heap, invalid_thread, set_transaction_thread, copy_state, delete}
use tboost_stm.System.{
  System, Outcome, returns, throws, e_aborted, e_irrevocable_and_isolated_tx, context_of,
  set_context, set_heap, set_state,
}
use tboost_stm.Contention.{ContentionManager}
use tboost_stm.Transaction.Status.{
  other_in_flight_same_thread, unforce_to_abort, in_flight, put_tx_inflight,
  irrevocable_tx_in_flight, can_abort_all_in_flight_txs, abort_all_in_flight_txs, raise_priority,
  isolated, forced_to_abort,
}

-- What a round of `restart()` comes to: the thread waits, or the transaction is in flight.
pub data Restarted (V : Type 0) : Type 0 where
  waiting restarted : System V → Restarted V

module _ {V : Type 0} where
  -- The loop of `deferredAbortWriteList`: the copies are deleted.
  unfoldable pub delete_copies : List (ℕ × ℕ) → Heap V → Heap V
  delete_copies [] h = h
  delete_copies ((a, b) ∷ m) h = delete_copies m (delete b h)

  -- The loop of `deferredAbortTransactionNewMemory`, and of `doIntervalDeletions`.
  unfoldable pub delete_all : List ℕ → Heap V → Heap V
  delete_all [] h = h
  delete_all (a ∷ rest) h = delete_all rest (delete a h)

  -- The loop of `directAbortWriteList`: the originals get their saved state back.
  unfoldable pub restore_entry : ℕ → ℕ → Heap V → Heap V
  restore_entry a b h =
      if b == 0 then h else delete b (set_transaction_thread invalid_thread a (copy_state a b h))

  unfoldable pub restore : List (ℕ × ℕ) → Heap V → Heap V
  unfolding restore_entry
  restore [] h = h
  restore ((a, b) ∷ m) h = restore m (restore_entry a b h)

  -- The loop of `directAbortTransactionDeletedMemory`.
  unfoldable pub disown_all : List ℕ → Heap V → Heap V
  disown_all [] h = h
  disown_all (a ∷ rest) h = disown_all rest (set_transaction_thread invalid_thread a h)

  -- The end of both aborts: the transaction leaves the set in flight, and the thread's flag is
  -- cleared with its last transaction.
  unfoldable pub leave : ℕ → System V → System V
  unfolding other_in_flight_same_thread unforce_to_abort
  leave t s =
      let s' = record s { in_flight = StdSet.erase t s.in_flight } in
      if other_in_flight_same_thread s' t then s' else unforce_to_abort t s'

  -- What both aborts do to the lists of the thread.
  abbrev pub forget : ℕ → System V → System V
  forget t s =
      let c = context_of s t in
      set_context s t (record c {
        write_mem = [];
        del_mem = [];
        new_mem = [];
        bloom = BloomFilter.clear c.bloom;
        wbloom = BloomFilter.clear c.wbloom;
      })

  -- `deferred_abort()`. Its argument is not read.
  unfoldable pub deferred_abort : ℕ → System V → System V
  unfolding delete_copies delete_all leave
  deferred_abort t s =
      let c = context_of s t in
      let h = delete_all c.new_mem (delete_copies c.write_mem s.heap) in
      leave t (forget t (set_heap (set_state s t e_aborted) h))

  -- `direct_abort()`
  unfoldable pub direct_abort : ℕ → System V → System V
  unfolding restore disown_all delete_all leave
  direct_abort t s =
      let c = context_of s t in
      let h = delete_all c.new_mem (disown_all c.del_mem (restore c.write_mem s.heap)) in
      leave t (forget t (set_heap (set_state s t e_aborted) h))

  -- `lock_and_abort()`, and `abort()`, which is called with the lock
  unfoldable pub abort : ℕ → System V → System V
  unfolding direct_abort deferred_abort
  abort t s = if s.direct_updating then direct_abort t s else deferred_abort t s

  -- `~transaction()`
  unfoldable pub destroy : ℕ → System V → System V
  unfolding abort
  destroy t s = if in_flight s t then abort t s else s

  abbrev pub let_in : ℕ → System V → Restarted V
  unfolding put_tx_inflight
  let_in t s = elim (put_tx_inflight t s) [ none ↦ waiting s | some s' ↦ restarted s' ]

  -- One round of `restart()`. The transaction is aborted before the thread waits.
  unfoldable pub restart : ℕ → System V → Restarted V
  unfolding abort put_tx_inflight
  restart t s =
      let s' = if in_flight s t then abort t s else s in
      if (context_of s' t).blocked
      then waiting s'
      else let_in t (if other_in_flight_same_thread s' t then s' else unforce_to_abort t s')

  -- One round of the loop of `make_isolated`, behind the test that the transaction is not isolated.
  -- It throws when the transaction is forced to abort, and returns whether the loop is over.
  unfoldable pub make_isolated : ContentionManager → ℕ → System V → Outcome V Bool
  unfolding abort irrevocable_tx_in_flight can_abort_all_in_flight_txs abort_all_in_flight_txs
      raise_priority isolated
  make_isolated cm t s =
      if isolated s t
      then returns true s
      else if forced_to_abort s t
      then throws (abort t s)
      else if not (irrevocable_tx_in_flight s t) && can_abort_all_in_flight_txs cm s t
      then returns true (
          abort_all_in_flight_txs t
            (set_context s t (record (context_of s t) { tx_type = e_irrevocable_and_isolated_tx })))
      else returns false (raise_priority t s)
