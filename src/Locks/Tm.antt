-- ===== src/Locks/Tm.antt =====
-- boost/stm/detail/latm_def_tm_impl.hpp and latm_dir_tm_impl.hpp: the policy by which the locks that
-- the client has named exclude all transactions of other threads.
use tboost_stm.Prelude.{ℕ, Bool, true, false, if◌then◌else◌, none, some, has}
use tboost_stm.Contention.{ContentionManager}
use tboost_stm.System.{System, Outcome, returns, throws}
use tboost_stm.Transaction.Abort.{make_isolated}
use tboost_stm.Transaction.Flush.{commit_deferred_update_tx}
use tboost_stm.Locks.{Core, does, MutexLibrary, LockState, Reply, jams}
use tboost_stm.Locks.General.{
  get_inflight_tx_of_same_thread, is_currently_locked_lock, add_to_currently_locked_locks, own_lock,
  disown_lock, erase_locked, resume_threads,
}
use tboost_stm.Locks.Flow.{
  Prepared, ready, waits, refused, aborted, lock_round, trylock_once, drain_round, drain_once,
  lock_prepared, trylock_prepared, unlock_by,
}
use tboost_stm.Locks.Full.{def_do_core_full, dir_do_core_full}

module _ {V : Type 0} where
  -- Whether `must_be_in_tm_conflicting_lock_set` returns.
  abbrev pub must_be_in_tm_conflicting_lock_set : System V → ℕ → Bool
  must_be_in_tm_conflicting_lock_set s m = has m s.latm.tm_conflicting_locks

  -- The two unlock functions' work on the locked locks.
  unfoldable pub def_tm_forget : ℕ → System V → System V
  unfolding erase_locked disown_lock
  def_tm_forget m s =
      disown_lock m (if has m s.latm.tm_conflicting_locks then erase_locked m s else s)

  unfoldable pub dir_tm_forget : ℕ → System V → System V
  unfolding erase_locked disown_lock resume_threads
  dir_tm_forget m s =
      disown_lock m
        (if has m s.latm.tm_conflicting_locks then resume_threads (erase_locked m s) else s)

module _ {V : Type 0} (cm : ContentionManager) where
  -- `def_do_core_tm_conflicting_lock_pthread_lock_mutex`; for a conflicting lock its body is the one
  -- of the core under full protection.
  unfoldable pub def_do_core_tm : ℕ → ℕ → ℕ → System V → Core V (System V)
  unfolding def_do_core_full
  def_do_core_tm wait_time refusals m s =
      if has m s.latm.tm_conflicting_locks
      then def_do_core_full cm wait_time refusals m s
      else does s

  -- What the lock and trylock functions do in a transaction: the lock does not become an obtained one.
  unfoldable pub def_tm_prepare : ℕ → ℕ → ℕ → ℕ → System V → Prepared V
  unfolding make_isolated add_to_currently_locked_locks own_lock commit_deferred_update_tx
  def_tm_prepare now th m t s =
      if must_be_in_tm_conflicting_lock_set s m
      then elim (make_isolated cm t s) [
        | throws s' ↦ aborted s'
        | returns false s' ↦ waits s'
        | returns true s' ↦ elim (commit_deferred_update_tx now t s') [
          | none ↦ refused s'
          | some s'' ↦
              ready (is_currently_locked_lock s'' t m)
                (own_lock th m (add_to_currently_locked_locks t m s''))
        ]
      ]
      else refused s

  -- `dir_do_core_tm_conflicting_lock_pthread_lock_mutex`, up to its wait.
  unfoldable pub dir_do_core_tm : ℕ → ℕ → ℕ → System V → Core V (Bool × System V)
  unfolding dir_do_core_full
  dir_do_core_tm wait_time refusals m s =
      if has m s.latm.tm_conflicting_locks
      then dir_do_core_full cm wait_time refusals m s
      else does (false, s)

  -- What follows `make_isolated` in a transaction with direct updating.
  unfoldable pub dir_tm_isolated : ℕ → ℕ → Outcome V Bool → Prepared V
  unfolding own_lock
  dir_tm_isolated th m (throws s) = aborted s
  dir_tm_isolated th m (returns false s) = waits s
  dir_tm_isolated th m (returns true s) = ready false (own_lock th m s)

  -- What they do in a transaction with direct updating: the mutex is always locked.
  unfoldable pub dir_tm_prepare : ℕ → ℕ → ℕ → System V → Prepared V
  unfolding make_isolated dir_tm_isolated
  dir_tm_prepare th m t s =
      if must_be_in_tm_conflicting_lock_set s m
      then dir_tm_isolated th m (make_isolated cm t s)
      else refused s

module _ {V M : Type 0} (lib : MutexLibrary M) (cm : ContentionManager) where
  -- `def_tm_conflicting_lock_pthread_lock_mutex`: one round of its loop, after a wait.
  unfoldable pub def_tm_lock : ℕ → ℕ → ℕ → ℕ → ℕ → LockState V M → Reply V M
  unfolding get_inflight_tx_of_same_thread lock_prepared def_tm_prepare lock_round def_do_core_tm
  def_tm_lock now wait_time refusals th m st = elim (get_inflight_tx_of_same_thread st.system th) [
    | some t ↦ lock_prepared lib th m st.mutexes (def_tm_prepare cm now th m t st.system)
    | none ↦ lock_round lib th m (def_do_core_tm cm wait_time refusals m) st
  ]

  -- `def_tm_conflicting_lock_pthread_trylock_mutex`
  unfoldable pub def_tm_trylock : ℕ → ℕ → ℕ → LockState V M → Reply V M
  unfolding get_inflight_tx_of_same_thread trylock_prepared def_tm_prepare trylock_once
      def_do_core_tm
  def_tm_trylock now th m st = elim (get_inflight_tx_of_same_thread st.system th) [
    | some t ↦ trylock_prepared lib th m st.mutexes (def_tm_prepare cm now th m t st.system)
    | none ↦ trylock_once lib th m (def_do_core_tm cm 0 0 m) st
  ]

  -- `def_tm_conflicting_lock_pthread_unlock_mutex`
  unfoldable pub def_tm_unlock : ℕ → ℕ → LockState V M → Reply V M
  unfolding unlock_by def_tm_forget
  def_tm_unlock th m st = unlock_by lib th m jams (def_tm_forget m) st

  -- `dir_tm_conflicting_lock_pthread_lock_mutex`: one round of its loop, up to the core's wait. What
  -- follows the wait is `dir_full_drained`.
  unfoldable pub dir_tm_lock : ℕ → ℕ → ℕ → ℕ → LockState V M → Reply V M
  unfolding get_inflight_tx_of_same_thread lock_prepared dir_tm_prepare drain_round dir_do_core_tm
  dir_tm_lock wait_time refusals th m st = elim (get_inflight_tx_of_same_thread st.system th) [
    | some t ↦ lock_prepared lib th m st.mutexes (dir_tm_prepare cm th m t st.system)
    | none ↦ drain_round lib th m (dir_do_core_tm cm wait_time refusals m) st
  ]

  -- `dir_tm_conflicting_lock_pthread_trylock_mutex`
  unfoldable pub dir_tm_trylock : ℕ → ℕ → LockState V M → Reply V M
  unfolding get_inflight_tx_of_same_thread trylock_prepared dir_tm_prepare drain_once dir_do_core_tm
  dir_tm_trylock th m st = elim (get_inflight_tx_of_same_thread st.system th) [
    | some t ↦ trylock_prepared lib th m st.mutexes (dir_tm_prepare cm th m t st.system)
    | none ↦ drain_once lib th m (dir_do_core_tm cm 0 0 m) st
  ]

  -- `dir_tm_conflicting_lock_pthread_unlock_mutex`
  unfoldable pub dir_tm_unlock : ℕ → ℕ → LockState V M → Reply V M
  unfolding unlock_by dir_tm_forget
  dir_tm_unlock th m st = unlock_by lib th m jams (dir_tm_forget m) st
