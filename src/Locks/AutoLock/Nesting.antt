-- ===== src/Locks/AutoLock/Nesting.antt =====
-- Guards of one mutex inside one another: the outermost locks and unlocks it.
use tboost_stm.Prelude.{
  ℕ, ◌≡◌, refl, sym, subst, ◌∙◌, true, false, List, [], ◌∷◌, if_so, if_not_so, arith,
}
use tboost_stm.Contention.{ContentionManager}
use tboost_stm.Locks.{MutexLibrary, Reply, code, again, drains, refuses, jams, aborts, stalled}
use tboost_stm.Locks.Dispatch.{pthread_lock, pthread_unlock}
use tboost_stm.Locks.AutoLock.{
  AutoLock, Guards, Guarded, guarded, timed_out, pending, thread_has_lock, take, lock_taken,
  given_back, insert_into_threaded_lock_map, remove_thread_has_lock, do_auto_lock, do_auto_unlock,
}

has_lock_inserted :
    (th m : ℕ) (l : List (ℕ × ℕ))
    → thread_has_lock th m (insert_into_threaded_lock_map th m l) ≡ true
unfolding thread_has_lock insert_into_threaded_lock_map
has_lock_inserted th m [] = ground arith
has_lock_inserted th m ((k, x) ∷ l) = ground (arith, has_lock_inserted th m l)

-- To note a lock that the thread has not, and to remove it, restores the list.
remove-insert :
    (th m : ℕ) (l : List (ℕ × ℕ))
    → thread_has_lock th m l ≡ false
    → remove_thread_has_lock th m (insert_into_threaded_lock_map th m l) ≡ l
unfolding thread_has_lock insert_into_threaded_lock_map remove_thread_has_lock
remove-insert th m [] h = ground arith
remove-insert th m ((k, x) ∷ l) h = ground (arith, remove-insert th m l)

module _ {V M : Type 0} where
  abbrev pub threaded_of : Guarded V M → List (ℕ × ℕ)
  threaded_of (guarded a g) = g.threaded_locks
  threaded_of (timed_out g) = g.threaded_locks
  threaded_of (pending r) = []

  -- What a guard that has the lock looks like.
  abbrev Takes : ℕ → ℕ → List (ℕ × ℕ) → Guarded V M → Type 0
  Takes th m l (guarded a g) =
      (a.has_lock ≡ true) × (a.lock ≡ m) × (g.threaded_locks ≡ insert_into_threaded_lock_map th m l)
  Takes th m l (timed_out g) = Unit
  Takes th m l (pending r) = Unit

  lock_taken-Takes :
      (th m : ℕ) (l : List (ℕ × ℕ)) (r : Reply V M) → Takes th m l (lock_taken th m l r)
  unfolding lock_taken take
  lock_taken-Takes th m l (code c st) = (refl, refl, refl)
  lock_taken-Takes th m l (again st) = tt
  lock_taken-Takes th m l (drains st) = tt
  lock_taken-Takes th m l (refuses st) = tt
  lock_taken-Takes th m l (jams st) = tt
  lock_taken-Takes th m l (aborts st) = tt
  lock_taken-Takes th m l (stalled b st) = tt

  abbrev GivesBack : ℕ → ℕ → List (ℕ × ℕ) → Guarded V M → Type 0
  GivesBack th m l (guarded a g) =
      (a.has_lock ≡ false) × (g.threaded_locks ≡ remove_thread_has_lock th m l)
  GivesBack th m l (timed_out g) = Unit
  GivesBack th m l (pending r) = Unit

  given_back-GivesBack :
      (th : ℕ) (a : AutoLock) (l : List (ℕ × ℕ)) (r : Reply V M)
      → a.has_lock ≡ false
      → GivesBack th a.lock l (given_back th a l r)
  unfolding given_back
  given_back-GivesBack th a l (code c st) h = (h, refl)
  given_back-GivesBack th a l (again st) h = tt
  given_back-GivesBack th a l (drains st) h = tt
  given_back-GivesBack th a l (refuses st) h = tt
  given_back-GivesBack th a l (jams st) h = tt
  given_back-GivesBack th a l (aborts st) h = tt
  given_back-GivesBack th a l (stalled b st) h = tt

module _ {V M : Type 0} (lib : MutexLibrary M) (cm : ContentionManager) where
  -- A guard of a mutex that its thread has neither locks it nor unlocks it: the constructor and the
  -- destructor leave everything as it was.
  pub do_auto_unlock-lock_nested :
      (now time refusals th m : ℕ) (g : Guards V M)
      → thread_has_lock th m g.threaded_locks ≡ true
      → (a : AutoLock) × (do_auto_lock lib cm now time refusals th m g ≡ guarded a g)
        × (do_auto_unlock lib cm th a g ≡ guarded a g)
  unfolding do_auto_lock do_auto_unlock
  do_auto_unlock-lock_nested now time refusals th m g h =
      (record { done_post_step = false; has_lock = false; lock = m }, if_so _ _ _ h, refl)

  lock-Takes :
      (now time refusals th m : ℕ) (g : Guards V M)
      → thread_has_lock th m g.threaded_locks ≡ false
      → Takes th m g.threaded_locks (do_auto_lock lib cm now time refusals th m g)
  unfolding do_auto_lock
  lock-Takes now time refusals th m g h =
      subst (Takes th m g.threaded_locks) (sym (if_not_so _ _ _ h)) (
        lock_taken-Takes th m g.threaded_locks (pthread_lock lib cm now time refusals th m g.locks))

  unlock-GivesBack :
      (th : ℕ) (a : AutoLock) (g : Guards V M)
      → a.has_lock ≡ true
      → GivesBack th a.lock g.threaded_locks (do_auto_unlock lib cm th a g)
  unfolding do_auto_unlock
  unlock-GivesBack th a g h = subst (GivesBack th a.lock g.threaded_locks) (sym (if_so _ _ _ h)) (
      given_back-GivesBack th (record a { has_lock = false }) g.threaded_locks
        (pthread_unlock lib cm th a.lock g.locks) refl)

  -- A guard of a mutex that its thread has not notes the thread while it lives, and its destructor
  -- restores the list of the threads' locks, if the constructor and the destructor end with a result.
  pub do_auto_unlock-lock :
      (now time refusals th m : ℕ) (a a' : AutoLock) (g g' g'' : Guards V M)
      → thread_has_lock th m g.threaded_locks ≡ false
      → do_auto_lock lib cm now time refusals th m g ≡ guarded a g'
      → do_auto_unlock lib cm th a g' ≡ guarded a' g''
      → (thread_has_lock th m g'.threaded_locks ≡ true)
        × (a'.has_lock ≡ false)
        × (g''.threaded_locks ≡ g.threaded_locks)
  do_auto_unlock-lock now time refusals th m a a' g g' g'' h e f =
      let k = subst (Takes th m g.threaded_locks) e (lock-Takes now time refusals th m g h) in
      let b = subst (GivesBack th a.lock g'.threaded_locks) f (unlock-GivesBack th a g' k.0) in
      (
        rw k.2 (has_lock_inserted th m g.threaded_locks),
        b.0,
        b.1 ∙ rw (k.1, k.2) (remove-insert th m g.threaded_locks h),
      )
