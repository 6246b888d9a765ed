-- ===== src/Locks/AutoLock.antt =====
-- boost/stm/detail/auto_lock.hpp: the class `auto_lock`, which holds a client's mutex for a scope. The
-- section under the class's own mutex is one step.
pub mod Nesting
use tboost_stm.Prelude.{
  ℕ, zero, suc, ltb, Bool, true, false, ◌==◌, ◌&&◌, ◌||◌, if◌then◌else◌, List, [], ◌∷◌,
}
use tboost_stm.Contention.{ContentionManager}
use tboost_stm.Locks.{
  MutexLibrary, LockState, Reply, code, again, drains, refuses, jams, aborts, stalled,
}
use tboost_stm.Locks.Dispatch.{pthread_lock, pthread_unlock}

pub record AutoLock : Type 0 where
  pub done_post_step : Bool
  pub has_lock : Bool
  pub lock : ℕ

-- The locks, and `threaded_locks()`: the pairs of a thread and a mutex that a guard of the thread has.
pub record Guards (V M : Type 0) : Type 0 where
  pub locks : LockState V M
  pub threaded_locks : List (ℕ × ℕ)

-- What a member ends with: the guard; a `timer_lock_exception`; what the lock function came to, if
-- it did not end with a result.
pub data Guarded (V M : Type 0) : Type 0 where
  guarded : AutoLock → Guards V M → Guarded V M
  timed_out : Guards V M → Guarded V M
  pending : Reply V M → Guarded V M

-- `thread_has_lock`, for the thread `th`
unfoldable pub thread_has_lock : ℕ → ℕ → List (ℕ × ℕ) → Bool
thread_has_lock th m [] = false
thread_has_lock th m ((k, x) ∷ l) = (k == th && x == m) || thread_has_lock th m l

-- `threaded_locks().insert` of `insert_into_threaded_lock_map`: a `std::multimap` puts a pair behind
-- those with its key.
unfoldable pub insert_into_threaded_lock_map : ℕ → ℕ → List (ℕ × ℕ) → List (ℕ × ℕ)
insert_into_threaded_lock_map th m [] = (th, m) ∷ []
insert_into_threaded_lock_map th m ((k, x) ∷ l) =
    if ltb th k then (th, m) ∷ (k, x) ∷ l else (k, x) ∷ insert_into_threaded_lock_map th m l

-- `remove_thread_has_lock`
unfoldable pub remove_thread_has_lock : ℕ → ℕ → List (ℕ × ℕ) → List (ℕ × ℕ)
remove_thread_has_lock th m [] = []
remove_thread_has_lock th m ((k, x) ∷ l) =
    if k == th && x == m then l else (k, x) ∷ remove_thread_has_lock th m l

module _ {V M : Type 0} where
  -- The guard has the lock, and its thread is noted.
  abbrev pub take : ℕ → ℕ → List (ℕ × ℕ) → LockState V M → Guarded V M
  unfolding insert_into_threaded_lock_map
  take th m l st =
      guarded (record { done_post_step = false; has_lock = true; lock = m })
        (record { locks = st; threaded_locks = insert_into_threaded_lock_map th m l })

  abbrev pub lock_taken : ℕ → ℕ → List (ℕ × ℕ) → Reply V M → Guarded V M
  unfolding insert_into_threaded_lock_map
  lock_taken th m l (code c st) = take th m l st
  lock_taken th m l (again st) = pending (again st)
  lock_taken th m l (drains st) = pending (drains st)
  lock_taken th m l (refuses st) = pending (refuses st)
  lock_taken th m l (jams st) = pending (jams st)
  lock_taken th m l (aborts st) = pending (aborts st)
  lock_taken th m l (stalled b st) = pending (stalled b st)

  -- A guard of a mutex that the thread has already does nothing.
  abbrev pub nested : ℕ → Guards V M → Guarded V M
  nested m g = guarded (record { done_post_step = false; has_lock = false; lock = m }) g

  abbrev pub given_back : ℕ → AutoLock → List (ℕ × ℕ) → Reply V M → Guarded V M
  unfolding remove_thread_has_lock
  given_back th a l (code c st) =
      guarded a (record { locks = st; threaded_locks = remove_thread_has_lock th a.lock l })
  given_back th a l (again st) = pending (again st)
  given_back th a l (drains st) = pending (drains st)
  given_back th a l (refuses st) = pending (refuses st)
  given_back th a l (jams st) = pending (jams st)
  given_back th a l (aborts st) = pending (aborts st)
  given_back th a l (stalled b st) = pending (stalled b st)

  abbrev step_done : Guarded V M → Guarded V M
  step_done (guarded a g) = guarded (record a { done_post_step = true }) g
  step_done (timed_out g) = timed_out g
  step_done (pending r) = pending r

module _ {V M : Type 0} (lib : MutexLibrary M) where
  -- The loop of `do_timed_auto_lock`, with the mutex library's own `trylock`.
  unfoldable pub try_lock_rounds : ℕ → ℕ → ℕ → Guards V M → Guarded V M
  unfolding take
  try_lock_rounds zero th m g = timed_out g
  try_lock_rounds (suc n) th m g =
      let (r, mx) = lib.trylock th m g.locks.mutexes in
      let st = record g.locks { mutexes = mx } in
      let rest = try_lock_rounds n th m (record g { locks = st }) in
      if r == 0 then take th m g.threaded_locks st else rest

  -- `do_timed_auto_lock`
  unfoldable pub do_timed_auto_lock : ℕ → ℕ → ℕ → Guards V M → Guarded V M
  unfolding try_lock_rounds thread_has_lock
  do_timed_auto_lock time_out th m g =
      if thread_has_lock th m g.threaded_locks then nested m g else try_lock_rounds time_out th m g

module _ {V M : Type 0} (lib : MutexLibrary M) (cm : ContentionManager) where
  -- `do_auto_lock`, with one round of `transaction::lock_`, at the time `now`, after the waiting time
  -- and the refusals so far.
  unfoldable pub do_auto_lock : ℕ → ℕ → ℕ → ℕ → ℕ → Guards V M → Guarded V M
  unfolding lock_taken thread_has_lock pthread_lock
  do_auto_lock now wait_time refusals th m g =
      if thread_has_lock th m g.threaded_locks
      then nested m g
      else lock_taken th m g.threaded_locks
          (pthread_lock lib cm now wait_time refusals th m g.locks)

  -- `do_auto_unlock`, which `release_lock` and the destructor call
  unfoldable pub do_auto_unlock : ℕ → AutoLock → Guards V M → Guarded V M
  unfolding given_back pthread_unlock
  do_auto_unlock th a g =
      if a.has_lock
      then given_back th (record a { has_lock = false }) g.threaded_locks
          (pthread_unlock lib cm th a.lock g.locks)
      else guarded a g

  -- `post_step`, which ends the loop of `use_lock`
  unfoldable pub post_step : ℕ → AutoLock → Guards V M → Guarded V M
  unfolding do_auto_unlock
  post_step th a g = step_done (do_auto_unlock th a g)
