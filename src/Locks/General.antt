-- ===== src/Locks/General.antt =====
-- boost/stm/detail/latm_general_impl.hpp: what the lock functions share.
use tboost_stm.Prelude.{
  ℕ, Bool, true, false, not, ◌==◌, if◌then◌else◌, ◌&&◌, List, [], ◌∷◌, Option, none, some, has,
}
use tboost_stm.StdMap
use tboost_stm.StdSet
use tboost_stm.Contention.{ContentionManager}
use tboost_stm.System.{
  System, Latm, update, context_of, set_context, e_full_latm_protection,
  e_tm_conflicting_lock_latm_protection, e_tx_conflicting_lock_latm_protection,
}
use tboost_stm.Transaction.Status.{irrevocable, view}

abbrev pub is_empty {ℓ} : {A : Type ℓ} → List A → Bool
is_empty [] = true
is_empty (x ∷ xs) = false

module _ {V : Type 0} where
  abbrev pub set_latm : System V → Latm → System V
  set_latm s l = record s { latm = l }

  -- The loop of `get_inflight_tx_of_same_thread`
  unfoldable pub first_of_thread : System V → ℕ → List ℕ → Option ℕ
  first_of_thread s th [] = none
  first_of_thread s th (i ∷ is) =
      if (s.tx i).thread_id == th then some i else first_of_thread s th is

  -- `get_inflight_tx_of_same_thread`, for the calling thread
  unfoldable pub get_inflight_tx_of_same_thread : System V → ℕ → Option ℕ
  unfolding first_of_thread
  get_inflight_tx_of_same_thread s th = first_of_thread s th s.in_flight

  abbrev pub is_on_obtained_locks_list : System V → ℕ → ℕ → Bool
  is_on_obtained_locks_list s t m = has m (context_of s t).obtained_locks

  abbrev pub is_currently_locked_lock : System V → ℕ → ℕ → Bool
  is_currently_locked_lock s t m = has m (context_of s t).currently_locked_locks

  unfoldable pub add_to_obtained_locks : ℕ → ℕ → System V → System V
  add_to_obtained_locks t m s =
      let c = context_of s t in
      set_context s t (record c { obtained_locks = StdSet.insert m c.obtained_locks })

  unfoldable pub add_to_currently_locked_locks : ℕ → ℕ → System V → System V
  add_to_currently_locked_locks t m s =
      let c = context_of s t in
      set_context s t
        (record c { currently_locked_locks = StdSet.insert m c.currently_locked_locks })

  unfoldable pub remove_from_currently_locked_locks : ℕ → ℕ → System V → System V
  remove_from_currently_locked_locks t m s =
      let c = context_of s t in
      set_context s t
        (record c { currently_locked_locks = StdSet.erase m c.currently_locked_locks })

  -- `latmLockedLocksOfThreadMap_[mutex] = THREAD_ID`
  unfoldable pub own_lock : ℕ → ℕ → System V → System V
  own_lock th m s =
      set_latm s (record s.latm {
        locked_locks_of_thread = StdMap.assign m th s.latm.locked_locks_of_thread;
      })

  -- `latmLockedLocksOfThreadMap_.erase(mutex)`
  unfoldable pub disown_lock : ℕ → System V → System V
  disown_lock m s =
      set_latm s
        (record s.latm { locked_locks_of_thread = StdMap.erase m s.latm.locked_locks_of_thread })

  -- `latmLockedLocks_.insert(mutex)`
  unfoldable pub insert_locked : ℕ → System V → System V
  insert_locked m s =
      set_latm s (record s.latm { locked_locks = StdSet.insert m s.latm.locked_locks })

  -- `latmLockedLocks_.erase(mutex)`
  unfoldable pub erase_locked : ℕ → System V → System V
  erase_locked m s =
      set_latm s (record s.latm { locked_locks = StdSet.erase m s.latm.locked_locks })

  -- The loop of `thread_conflicting_mutexes_set_all`
  unfoldable pub set_blocked : Bool → List ℕ → System V → System V
  set_blocked b [] s = s
  set_blocked b (th ∷ ths) s =
      set_blocked b ths
        (record s { context = update s.context th (record (s.context th) { blocked = b }) })

  unfoldable pub thread_conflicting_mutexes_set_all : Bool → System V → System V
  unfolding set_blocked
  thread_conflicting_mutexes_set_all b s = set_blocked b s.threads s

  -- `tm_lock_conflict`
  unfoldable pub tm_lock_conflict : ℕ → System V → System V
  tm_lock_conflict m s = elim s.latm.latm_type [
    | e_full_latm_protection ↦ s
    | e_tm_conflicting_lock_latm_protection ↦
        set_latm s
          (record s.latm { tm_conflicting_locks = StdSet.insert m s.latm.tm_conflicting_locks })
    | e_tx_conflicting_lock_latm_protection ↦ s
  ]

  unfoldable pub clear_tm_conflicting_locks : System V → System V
  clear_tm_conflicting_locks s = set_latm s (record s.latm { tm_conflicting_locks = [] })

  -- The end of an unlock function with direct updating under which all transactions wait.
  unfoldable pub resume_threads : System V → System V
  unfolding thread_conflicting_mutexes_set_all
  resume_threads s =
      if is_empty s.latm.locked_locks then thread_conflicting_mutexes_set_all false s else s

  -- The loop over the transactions in flight that a lock may have to stop: whether none of them is
  -- irrevocable, and the manager lets all of them be aborted.
  unfoldable pub may_abort_flight : ContentionManager → ℕ → ℕ → System V → List ℕ → Bool
  may_abort_flight cm wait_time refusals s [] = true
  may_abort_flight cm wait_time refusals s (i ∷ is) =
      (not (irrevocable s i) && cm.allow_lock_to_abort_tx wait_time refusals false (view s i))
      && may_abort_flight cm wait_time refusals s is

  -- The first part of an unlock function: whether the thread has the mutex, or `none` where the
  -- code throws, as the transaction did not obtain the lock.
  unfoldable pub leave_tx : ℕ → ℕ → System V → Option (Bool × System V)
  unfolding get_inflight_tx_of_same_thread remove_from_currently_locked_locks
  leave_tx th m s = elim (get_inflight_tx_of_same_thread s th) [
    | none ↦ some (true, s)
    | some t ↦
        if is_on_obtained_locks_list s t m
        then some (is_currently_locked_lock s t m, remove_from_currently_locked_locks t m s)
        else none
  ]
