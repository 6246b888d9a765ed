-- ===== src/Locks/Full.antt =====
-- boost/stm/detail/latm_def_full_impl.hpp and latm_dir_full_impl.hpp: the policy by which a lock of a
-- client excludes all transactions of other threads.
use tboost_stm.Prelude.{ℕ, Bool, true, false, if◌then◌else◌, Option, none, some}
use tboost_stm.Contention.{ContentionManager}
use tboost_stm.System.{System, returns, throws}
use tboost_stm.Transaction.Abort.{make_isolated}
use tboost_stm.Transaction.Flush.{commit_deferred_update_tx}
use tboost_stm.Transaction.Invalidation.{force_all}
use tboost_stm.Locks.{MutexLibrary, LockState, Reply, Core, declines, does, jams}
use tboost_stm.Locks.General.{
  is_empty, get_inflight_tx_of_same_thread, is_currently_locked_lock, add_to_obtained_locks,
  add_to_currently_locked_locks, own_lock, disown_lock, insert_locked, erase_locked,
  thread_conflicting_mutexes_set_all, may_abort_flight, resume_threads,
}
use tboost_stm.Locks.Flow.{
  Prepared, ready, stalls, waits, refused, aborted, lock_round, trylock_once, drain_round,
  drain_once, lock_prepared, trylock_prepared, unlock_by,
}

module _ {V : Type 0} (cm : ContentionManager) where
  -- `def_do_core_full_pthread_lock_mutex`.
  unfoldable pub def_do_core_full : ℕ → ℕ → ℕ → System V → Core V (System V)
  unfolding insert_locked force_all may_abort_flight
  def_do_core_full wait_time refusals m s =
      if is_empty s.latm.locked_locks
      then if may_abort_flight cm wait_time refusals s s.in_flight
        then does (insert_locked m (force_all s.in_flight s))
        else declines s
      else does (insert_locked m s)

  -- What `def_full_pthread_lock_mutex` and `..._trylock_mutex` do in a transaction.
  unfoldable pub def_full_prepare : ℕ → ℕ → ℕ → ℕ → System V → Prepared V
  unfolding make_isolated add_to_obtained_locks add_to_currently_locked_locks own_lock
      commit_deferred_update_tx
  def_full_prepare now th m t s = elim (make_isolated cm t s) [
    | throws s' ↦ aborted s'
    | returns false s' ↦ waits s'
    | returns true s' ↦
        let s'' = add_to_obtained_locks t m (add_to_currently_locked_locks t m s') in
        elim (commit_deferred_update_tx now t s'') [
          | none ↦ refused s''
          | some s''' ↦ ready (is_currently_locked_lock s' t m) (own_lock th m s''')
        ]
  ]

  -- `dir_do_core_full_pthread_lock_mutex`, up to its wait. The flag says that it waits until no
  -- transaction is in flight, before it inserts the lock.
  unfoldable pub dir_do_core_full : ℕ → ℕ → ℕ → System V → Core V (Bool × System V)
  unfolding insert_locked force_all may_abort_flight thread_conflicting_mutexes_set_all
  dir_do_core_full wait_time refusals m s =
      if is_empty s.latm.locked_locks
      then if may_abort_flight cm wait_time refusals s s.in_flight
        then does (true, thread_conflicting_mutexes_set_all true (force_all s.in_flight s))
        else declines s
      else does (false, insert_locked m s)

  -- What `dir_full_pthread_lock_mutex` and `..._trylock_mutex` do in a transaction, up to
  -- `wait_until_all_locks_are_released`.
  unfoldable pub dir_full_prepare : ℕ → ℕ → System V → Prepared V
  unfolding make_isolated add_to_obtained_locks add_to_currently_locked_locks
  dir_full_prepare m t s = elim (make_isolated cm t s) [
    | throws s' ↦ aborted s'
    | returns false s' ↦ waits s'
    | returns true s' ↦
        let s'' = add_to_obtained_locks t m (add_to_currently_locked_locks t m s') in
        stalls (is_currently_locked_lock s' t m) s''
  ]

  -- The wait and what follows it up to the mutex: ready once no lock is held.
  unfoldable pub dir_full_resume : ℕ → ℕ → Bool → System V → Prepared V
  unfolding own_lock
  dir_full_resume th m had s =
      if is_empty s.latm.locked_locks then ready had (own_lock th m s) else stalls had s

  -- The rest of the lock and trylock functions outside transactions, when the core's wait is over;
  -- `none` while a transaction is in flight.
  unfoldable pub dir_full_drained : ℕ → ℕ → System V → Option (System V)
  unfolding insert_locked own_lock
  dir_full_drained th m s =
      if is_empty s.in_flight then some (own_lock th m (insert_locked m s)) else none

module _ {V M : Type 0} (lib : MutexLibrary M) (cm : ContentionManager) where
  -- `def_full_pthread_lock_mutex`: one round of its loop, after a wait.
  unfoldable pub def_full_lock : ℕ → ℕ → ℕ → ℕ → ℕ → LockState V M → Reply V M
  unfolding get_inflight_tx_of_same_thread lock_prepared def_full_prepare lock_round
      def_do_core_full
  def_full_lock now wait_time refusals th m st =
      elim (get_inflight_tx_of_same_thread st.system th) [
        | some t ↦ lock_prepared lib th m st.mutexes (def_full_prepare cm now th m t st.system)
        | none ↦ lock_round lib th m (def_do_core_full cm wait_time refusals m) st
      ]

  -- `def_full_pthread_trylock_mutex`
  unfoldable pub def_full_trylock : ℕ → ℕ → ℕ → LockState V M → Reply V M
  unfolding get_inflight_tx_of_same_thread trylock_prepared def_full_prepare trylock_once
      def_do_core_full
  def_full_trylock now th m st = elim (get_inflight_tx_of_same_thread st.system th) [
    | some t ↦ trylock_prepared lib th m st.mutexes (def_full_prepare cm now th m t st.system)
    | none ↦ trylock_once lib th m (def_do_core_full cm 0 0 m) st
  ]

  -- `def_full_pthread_unlock_mutex`
  unfoldable pub def_full_unlock : ℕ → ℕ → LockState V M → Reply V M
  unfolding unlock_by disown_lock erase_locked
  def_full_unlock th m st = unlock_by lib th m jams (λ s. disown_lock m (erase_locked m s)) st

  -- `dir_full_pthread_lock_mutex`: one round of its loop, up to the core's wait.
  unfoldable pub dir_full_lock : ℕ → ℕ → ℕ → ℕ → LockState V M → Reply V M
  unfolding get_inflight_tx_of_same_thread lock_prepared dir_full_prepare drain_round
      dir_do_core_full
  dir_full_lock wait_time refusals th m st = elim (get_inflight_tx_of_same_thread st.system th) [
    | some t ↦ lock_prepared lib th m st.mutexes (dir_full_prepare cm m t st.system)
    | none ↦ drain_round lib th m (dir_do_core_full cm wait_time refusals m) st
  ]

  -- `dir_full_pthread_trylock_mutex`, up to the core's wait.
  unfoldable pub dir_full_trylock : ℕ → ℕ → LockState V M → Reply V M
  unfolding get_inflight_tx_of_same_thread trylock_prepared dir_full_prepare drain_once
      dir_do_core_full
  dir_full_trylock th m st = elim (get_inflight_tx_of_same_thread st.system th) [
    | some t ↦ trylock_prepared lib th m st.mutexes (dir_full_prepare cm m t st.system)
    | none ↦ drain_once lib th m (dir_do_core_full cm 0 0 m) st
  ]

  -- `dir_full_pthread_unlock_mutex`
  unfoldable pub dir_full_unlock : ℕ → ℕ → LockState V M → Reply V M
  unfolding unlock_by disown_lock erase_locked resume_threads
  dir_full_unlock th m st =
      unlock_by lib th m jams (λ s. disown_lock m (resume_threads (erase_locked m s))) st
