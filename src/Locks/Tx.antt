-- ===== src/Locks/Tx.antt =====
-- boost/stm/detail/latm_def_tx_impl.hpp and latm_dir_tx_impl.hpp: the policy by which a lock excludes
-- the transactions of other threads that have it in their conflicting sets.
use tboost_stm.Prelude.{
  ℕ, Bool, true, false, not, ◌==◌, if◌then◌else◌, ◌&&◌, ◌||◌, List, [], ◌∷◌, Option, none, some,
  has,
}
use tboost_stm.StdMap
use tboost_stm.StdSet
use tboost_stm.Contention.{ContentionManager}
use tboost_stm.System.{System, context_of}
use tboost_stm.Transaction.Status.{irrevocable, force_to_abort, make_irrevocable, view}
use tboost_stm.Transaction.Flush.{commit_deferred_update_tx}
use tboost_stm.Transaction.Release.{unblock_conflicting_threads}
use tboost_stm.Locks.{Core, declines, does, MutexLibrary, LockState, Reply, code, again, refuses}
use tboost_stm.Locks.Conflicts.{block, must_be_in_conflicting_lock_set}
use tboost_stm.Locks.General.{
  set_latm, get_inflight_tx_of_same_thread, is_currently_locked_lock, add_to_obtained_locks,
  add_to_currently_locked_locks, own_lock, disown_lock,
}
use tboost_stm.Locks.Flow.{lock_round, drain_round, unlock_by}

-- One transaction of the core's loop: whether it has to be stopped, and may be.
abbrev pub collect : Bool → Bool → ℕ → Option (List ℕ) → Option (List ℕ)
collect false may i rest = rest
collect true false i rest = none
collect true true i none = none
collect true true i (some l) = some (i ∷ l)

module _ {V : Type 0} where
  -- Whether the core has to stop a transaction.
  abbrev pub must_stop : System V → ℕ → ℕ → ℕ → Bool
  must_stop s th m i = not ((s.tx i).thread_id == th) && has m (context_of s i).conflicting_mutexes

  -- The loop that forces transactions to abort and blocks their threads.
  unfoldable pub stop_all : List ℕ → System V → System V
  unfolding force_to_abort block
  stop_all [] s = s
  stop_all (i ∷ is) s = stop_all is (block i (force_to_abort i s))

  -- The set of their threads.
  unfoldable pub threads_of : System V → List ℕ → List ℕ
  threads_of s [] = []
  threads_of s (i ∷ is) = StdSet.insert (s.tx i).thread_id (threads_of s is)

  -- `latmLockedLocksAndThreadIdsMap_.insert(make_pair(mutex, txThreadId))`
  unfoldable pub note_threads : ℕ → List ℕ → System V → System V
  note_threads m ids s = set_latm s (record s.latm {
    locked_locks_and_thread_ids = StdMap.insert m ids s.latm.locked_locks_and_thread_ids;
  })

  -- The rest of the two cores, by the transactions to stop.
  unfoldable pub stop_those : ℕ → System V → Option (List ℕ) → Core V (System V)
  unfolding stop_all threads_of note_threads
  stop_those m s none = declines s
  stop_those m s (some []) = does s
  stop_those m s (some (i ∷ is)) =
      does (note_threads m (threads_of s (i ∷ is)) (stop_all (i ∷ is) s))

  unfoldable pub drain_those : ℕ → ℕ → System V → Option (List ℕ) → Core V (Bool × System V)
  unfolding stop_all threads_of note_threads own_lock
  drain_those th m s none = declines s
  drain_those th m s (some []) = does (false, s)
  drain_those th m s (some (i ∷ is)) =
      does (true, own_lock th m (note_threads m (threads_of s (i ∷ is)) (stop_all (i ∷ is) s)))

  -- The unlock functions' work on the locked locks.
  unfoldable pub tx_forget : ℕ → System V → System V
  unfolding unblock_conflicting_threads disown_lock
  tx_forget m s = disown_lock m (
      if StdMap.has_key m s.latm.locked_locks_and_thread_ids
      then unblock_conflicting_threads m (
          set_latm s (record s.latm {
            locked_locks_and_thread_ids = StdMap.erase m s.latm.locked_locks_and_thread_ids;
          }))
      else s)

  -- Whether a transaction of the list has the lock in its conflicting set.
  unfoldable pub conflicting_tx_in_flight : System V → ℕ → List ℕ → Bool
  conflicting_tx_in_flight s m [] = false
  conflicting_tx_in_flight s m (i ∷ is) =
      has m (context_of s i).conflicting_mutexes || conflicting_tx_in_flight s m is

  -- The rest of `dir_tx_conflicting_lock_pthread_lock_mutex` when the core's wait is over; `none`
  -- while a conflicting transaction is in flight.
  unfoldable pub dir_tx_drained : ℕ → ℕ → System V → Option (System V)
  unfolding conflicting_tx_in_flight own_lock
  dir_tx_drained th m s =
      if conflicting_tx_in_flight s m s.in_flight then none else some (own_lock th m s)

module _ {V : Type 0} (cm : ContentionManager) where
  -- The loop over the transactions in flight: those to stop, or `none` where one may not be aborted.
  unfoldable pub to_stop : ℕ → ℕ → Bool → ℕ → ℕ → System V → List ℕ → Option (List ℕ)
  unfolding irrevocable
  to_stop wait_time refusals irrevocable_tx th m s [] = some []
  to_stop wait_time refusals irrevocable_tx th m s (i ∷ is) =
      collect (must_stop s th m i)
        (irrevocable_tx
          || (not (irrevocable s i)
              && cm.allow_lock_to_abort_tx wait_time refusals irrevocable_tx (view s i)))
        i (to_stop wait_time refusals irrevocable_tx th m s is)

  -- `def_do_core_tx_conflicting_lock_pthread_lock_mutex`.
  unfoldable pub def_do_core_tx : ℕ → ℕ → Bool → ℕ → ℕ → System V → Core V (System V)
  unfolding to_stop stop_those
  def_do_core_tx wait_time refusals irrevocable_tx th m s =
      stop_those m s (to_stop wait_time refusals irrevocable_tx th m s s.in_flight)

  -- `dir_do_core_tx_conflicting_lock_pthread_lock_mutex`, up to its wait, which the flag asks for.
  unfoldable pub dir_do_core_tx : ℕ → ℕ → Bool → ℕ → ℕ → System V → Core V (Bool × System V)
  unfolding to_stop drain_those
  dir_do_core_tx wait_time refusals irrevocable_tx th m s =
      drain_those th m s (to_stop wait_time refusals irrevocable_tx th m s s.in_flight)

module _ {V M : Type 0} (lib : MutexLibrary M) (cm : ContentionManager) where
  -- The core's call inside a transaction, whose result is not used.
  unfoldable pub def_tx_stopped : ℕ → ℕ → System V → System V
  unfolding def_do_core_tx
  def_tx_stopped th m s = elim (def_do_core_tx cm 0 0 true th m s) [
    | declines s' ↦ s'
    | does s' ↦ s'
  ]

  -- Inside a transaction that is irrevocable: the mutex is locked, unless it has it, and added to
  -- its locks.
  unfoldable pub tx_obtain : ℕ → ℕ → ℕ → LockState V M → LockState V M
  unfolding add_to_obtained_locks add_to_currently_locked_locks
  tx_obtain th m t st = record {
    system = add_to_obtained_locks t m (add_to_currently_locked_locks t m st.system);
    mutexes =
        if is_currently_locked_lock st.system t m then st.mutexes else lib.lock th m st.mutexes;
  }

  -- `def_tx_conflicting_lock_pthread_lock_mutex` inside a transaction: a round of the loop of
  -- `make_irrevocable`, and what follows it.
  unfoldable pub def_tx_lock_inside : ℕ → ℕ → ℕ → ℕ → LockState V M → Reply V M
  unfolding make_irrevocable tx_obtain commit_deferred_update_tx def_tx_stopped
  def_tx_lock_inside now th m t st =
      if not (must_be_in_conflicting_lock_set st.system t m)
      then refuses st
      else let (s, over) = make_irrevocable t st.system in
        let st' = tx_obtain th m t (record st { system = s }) in
        if not over
        then again (record st { system = s })
        else elim (commit_deferred_update_tx now t st'.system) [
          | none ↦ refuses st'
          | some s' ↦ code 0 (record st' { system = def_tx_stopped th m s' })
        ]

  -- `def_tx_conflicting_lock_pthread_lock_mutex`: one round of its loops, after a wait.
  unfoldable pub def_tx_lock : ℕ → ℕ → ℕ → ℕ → ℕ → LockState V M → Reply V M
  unfolding get_inflight_tx_of_same_thread def_tx_lock_inside lock_round def_do_core_tx
  def_tx_lock now wait_time refusals th m st = elim (get_inflight_tx_of_same_thread st.system th) [
    | some t ↦ def_tx_lock_inside now th m t st
    | none ↦ lock_round lib th m (def_do_core_tx cm wait_time refusals false th m) st
  ]

  -- `def_tx_conflicting_lock_pthread_trylock_mutex` and `dir_tx_..._trylock_mutex`, which throw.
  unfoldable pub tx_trylock : LockState V M → Reply V M
  tx_trylock st = refuses st

  -- `def_tx_conflicting_lock_pthread_unlock_mutex` and `dir_tx_..._unlock_mutex`
  unfoldable pub tx_unlock : ℕ → ℕ → LockState V M → Reply V M
  unfolding unlock_by tx_forget
  tx_unlock th m st = unlock_by lib th m refuses (tx_forget m) st

  -- `dir_tx_conflicting_lock_pthread_lock_mutex` inside a transaction.
  unfoldable pub dir_tx_lock_inside : ℕ → ℕ → ℕ → LockState V M → Reply V M
  unfolding make_irrevocable tx_obtain def_tx_stopped
  dir_tx_lock_inside th m t st =
      if not (must_be_in_conflicting_lock_set st.system t m)
      then refuses st
      else let (s, over) = make_irrevocable t st.system in
        let st' = tx_obtain th m t (record st { system = s }) in
        if not over
        then again (record st { system = s })
        else code 0 (record st' { system = def_tx_stopped th m st'.system })

  -- `dir_tx_conflicting_lock_pthread_lock_mutex`: one round of its loops, up to the core's wait.
  unfoldable pub dir_tx_lock : ℕ → ℕ → ℕ → ℕ → LockState V M → Reply V M
  unfolding get_inflight_tx_of_same_thread dir_tx_lock_inside drain_round dir_do_core_tx
  dir_tx_lock wait_time refusals th m st = elim (get_inflight_tx_of_same_thread st.system th) [
    | some t ↦ dir_tx_lock_inside th m t st
    | none ↦ drain_round lib th m (dir_do_core_tx cm wait_time refusals false th m) st
  ]
