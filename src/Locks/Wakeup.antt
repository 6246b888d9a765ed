-- ===== src/Locks/Wakeup.antt =====
-- Protection by the conflicting locks of each transaction: whom an unlock lets go on.
use tboost_stm.Prelude.{
  ℕ, ◌≡◌, refl, subst, true, false, ◌&&◌, ◌==◌, if◌then◌else◌, inl, inr, List, [], ◌∷◌, none, arith,
  has, Bool-cases, ==_iff,
}
use tboost_stm.StdMap
use tboost_stm.Contention.{ContentionManager}
use tboost_stm.System.{System, update}
use tboost_stm.Transaction.Release.{
  occurrences, on_obtained_list, unblock_waiting, unblock_conflicting_threads,
}
use tboost_stm.Locks.{MutexLibrary, LockState, code}
use tboost_stm.Locks.General.{get_inflight_tx_of_same_thread, set_latm, disown_lock}
use tboost_stm.Locks.Flow.{unlock_by}
use tboost_stm.Locks.Tx.{tx_forget, tx_unlock}
use tboost_stm.Locks.RoundTrip.{leave_tx-none}

module _ {V : Type 0} where
  -- The thread waits for the mutex alone.
  record Waits (m w : ℕ) (s : System V) : Type 0 where
    conflicts : has m (s.context w).conflicting_mutexes ≡ true
    alone : occurrences w s.latm.locked_locks_and_thread_ids ≡ 0

  abbrev unblock_one : ℕ → ℕ → System V → System V
  unblock_one m th s =
      let c = s.context th in
      if has m c.conflicting_mutexes && occurrences th s.latm.locked_locks_and_thread_ids == 0
      then record s { context = update s.context th (record c { blocked = false }) }
      else s

  unblock_one-Waits : (m w th : ℕ) (s : System V) → Waits m w s → Waits m w (unblock_one m th s)
  unblock_one-Waits m w th s h =
      let c = h.conflicts in
      let a = h.alone in record { conflicts = ground arith; alone = ground arith }

  unblock_one-stays :
      (m w th : ℕ) (s : System V)
      → (s.context w).blocked ≡ false
      → ((unblock_one m th s).context w).blocked ≡ false
  unblock_one-stays m w th s h = ground arith

  unblock_one_self :
      (m w : ℕ) (s : System V) → Waits m w s → ((unblock_one m w s).context w).blocked ≡ false
  unblock_one_self m w s h = let c = h.conflicts in let a = h.alone in ground arith

  unblock_waiting-stays :
      (m w : ℕ) (ths : List ℕ) (s : System V)
      → (s.context w).blocked ≡ false
      → ((unblock_waiting m ths s).context w).blocked ≡ false
  unfolding unblock_waiting
  unblock_waiting-stays m w [] s h = h
  unblock_waiting-stays m w (th ∷ ths) s h =
      unblock_waiting-stays m w ths (unblock_one m th s) (unblock_one-stays m w th s h)

  unblock_waiting-Waits :
      (m w : ℕ) (ths : List ℕ) (s : System V)
      → has w ths ≡ true
      → Waits m w s
      → ((unblock_waiting m ths s).context w).blocked ≡ false
  unfolding unblock_waiting
  unblock_waiting-Waits m w [] s h k = cc
  unblock_waiting-Waits m w (th ∷ ths) s h k = elim (Bool-cases (w == th)) [
    | inl hit ↦
        let same : w ≡ th = (==_iff w th).0 hit in
        unblock_waiting-stays m w ths (unblock_one m th s) (
          subst (λ z. ((unblock_one m z s).context w).blocked ≡ false) same
            (unblock_one_self m w s k))
    | inr miss ↦
        unblock_waiting-Waits m w ths (unblock_one m th s) (ground arith)
          (unblock_one-Waits m w th s k)
  ]

  abbrev erased : ℕ → System V → System V
  erased m s = set_latm s (record s.latm {
    locked_locks_and_thread_ids = StdMap.erase m s.latm.locked_locks_and_thread_ids;
  })

  tx_forget-blocked :
      (m w : ℕ) (s : System V)
      → StdMap.has_key m s.latm.locked_locks_and_thread_ids ≡ true
      → StdMap.has_key m (StdMap.erase m s.latm.locked_locks_and_thread_ids) ≡ false
      → on_obtained_list s m s.threads ≡ false
      → has w s.threads ≡ true
      → Waits m w (erased m s)
      → ((tx_forget m s).context w).blocked ≡ false
  unfolding tx_forget unblock_conflicting_threads disown_lock
  tx_forget-blocked m w s held gone free h k =
      rw (tx_forget, held, gone, free) (unblock_waiting-Waits m w s.threads (erased m s) h k)

module _ {V M : Type 0} (lib : MutexLibrary M) (cm : ContentionManager) where
  -- Protection by the conflicting locks of each transaction: the unlock of a mutex that had stopped
  -- transactions, outside a transaction, succeeds, and unblocks each thread that has the mutex in its
  -- conflicting set and that no other held lock stops, if no transaction has obtained the mutex.
  -- (The map of stopped threads has the mutex once.)
  pub tx_unlock-blocked :
      (th m w : ℕ) (st : LockState V M)
      → get_inflight_tx_of_same_thread st.system th ≡ none
      → StdMap.has_key m st.system.latm.locked_locks_and_thread_ids ≡ true
      → StdMap.has_key m (StdMap.erase m st.system.latm.locked_locks_and_thread_ids) ≡ false
      → on_obtained_list st.system m st.system.threads ≡ false
      → has w st.system.threads ≡ true
      → has m (st.system.context w).conflicting_mutexes ≡ true
      → occurrences w (StdMap.erase m st.system.latm.locked_locks_and_thread_ids) ≡ 0
      → (st' : LockState V M) × (tx_unlock lib cm th m st ≡ code 0 st')
        × ((st'.system.context w).blocked ≡ false)
  unfolding tx_unlock unlock_by
  tx_unlock-blocked th m w st out held gone free h c a = (
    record { system = tx_forget m st.system; mutexes = lib.unlock th m st.mutexes },
    rw (tx_unlock, unlock_by, leave_tx-none th m st.system out) refl,
    tx_forget-blocked m w st.system held gone free h (record { conflicts = c; alone = a }),
  )
