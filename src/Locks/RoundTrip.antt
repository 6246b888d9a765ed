-- ===== src/Locks/RoundTrip.antt =====
-- Full protection: to lock and to unlock.
use tboost_stm.Prelude.{ℕ, ◌≡◌, refl, ap, ◌∙◌, true, false, List, [], ◌∷◌, none, some, arith, has}
use tboost_stm.StdMap
use tboost_stm.StdMap.{erase-assign}
use tboost_stm.StdSet
use tboost_stm.StdSet.{erase-insert}
use tboost_stm.Contention.{ContentionManager}
use tboost_stm.System.{System}
use tboost_stm.Locks.{does, MutexLibrary, LockState, code}
use tboost_stm.Locks.General.{
  get_inflight_tx_of_same_thread, first_of_thread, own_lock, disown_lock, insert_locked,
  erase_locked, leave_tx,
}
use tboost_stm.Locks.Flow.{unlock_by}
use tboost_stm.Locks.Full.{def_do_core_full, def_full_lock, def_full_unlock}
use tboost_stm.Locks.Protection.{IsKept, def_do_core_full-IsKept, force_all-latm}
use tboost_stm.Locks.Rounds.{lock_round-code}

module _ {V : Type 0} where
  first_of_thread-IsKept :
      (th : ℕ) (s s' : System V) (is : List ℕ)
      → IsKept s s'
      → first_of_thread s' th is ≡ first_of_thread s th is
  unfolding first_of_thread
  first_of_thread-IsKept th s s' [] k = refl
  first_of_thread-IsKept th s s' (i ∷ is) k =
      rw (k.threads i, first_of_thread-IsKept th s s' is k) refl

  pub same_inflight :
      (th : ℕ) (s s' : System V)
      → IsKept s s'
      → get_inflight_tx_of_same_thread s' th ≡ get_inflight_tx_of_same_thread s th
  unfolding get_inflight_tx_of_same_thread
  same_inflight th s s' k = rw k.flights (first_of_thread-IsKept th s s' s.in_flight k)

  pub def_do_core_full-latm :
      (cm : ContentionManager) (time refusals m : ℕ) (s s' : System V)
      → def_do_core_full cm time refusals m s ≡ does s'
      → s'.latm ≡ record s.latm { locked_locks = StdSet.insert m s.latm.locked_locks }
  unfolding def_do_core_full insert_locked
  def_do_core_full-latm cm time refusals m s s' e =
      let l = force_all-latm s.in_flight s in ground arith

  pub leave_tx-none :
      (th m : ℕ) (s : System V)
      → get_inflight_tx_of_same_thread s th ≡ none
      → leave_tx th m s ≡ some (true, s)
  unfolding leave_tx
  leave_tx-none th m s out = rw (leave_tx, out) refl

  pub own_lock-inflight :
      (th m x : ℕ) (s : System V)
      → get_inflight_tx_of_same_thread (own_lock th m s) x ≡ get_inflight_tx_of_same_thread s x
  unfolding own_lock
  own_lock-inflight th m x s =
      same_inflight x s (own_lock th m s)
        (record { flights = refl; threads = λ i. refl; policy = refl })

  -- What lock and unlock make of the static members on locks.
  latm_restored :
      (th m : ℕ) (s s' : System V)
      → has m s.latm.locked_locks ≡ false
      → StdMap.has_key m s.latm.locked_locks_of_thread ≡ false
      → s'.latm ≡ record s.latm { locked_locks = StdSet.insert m s.latm.locked_locks }
      → (disown_lock m (erase_locked m (own_lock th m s'))).latm ≡ s.latm
  unfolding disown_lock erase_locked own_lock
  latm_restored th m s s' free unowned l =
      rw
        (
          l,
          erase-insert m s.latm.locked_locks free,
          erase-assign m th s.latm.locked_locks_of_thread unowned,
        )
        refl

module _ {V M : Type 0} (lib : MutexLibrary M) (cm : ContentionManager) where
  pub unlock_outside :
      (th m : ℕ) (st : LockState V M)
      → get_inflight_tx_of_same_thread st.system th ≡ none
      → def_full_unlock lib cm th m st
        ≡ code 0 (record {
          system = disown_lock m (erase_locked m st.system);
          mutexes = lib.unlock th m st.mutexes;
        })
  unfolding def_full_unlock unlock_by
  unlock_outside th m st out =
      rw (def_full_unlock, unlock_by, leave_tx-none th m st.system out) refl

  -- Full protection with deferred updating, outside a transaction: after a lock that succeeds, of a
  -- mutex that was not locked and had no owner, the unlock by the same thread succeeds and leaves the
  -- policy's sets and maps as they were before the lock.
  pub def_full_unlock-lock :
      (now time refusals th m c : ℕ) (st st' : LockState V M)
      → get_inflight_tx_of_same_thread st.system th ≡ none
      → has m st.system.latm.locked_locks ≡ false
      → StdMap.has_key m st.system.latm.locked_locks_of_thread ≡ false
      → def_full_lock lib cm now time refusals th m st ≡ code c st'
      → (st'' : LockState V M) × (def_full_unlock lib cm th m st' ≡ code 0 st'')
        × (st''.system.latm ≡ st.system.latm)
  unfolding def_full_lock
  def_full_unlock-lock now time refusals th m c st st' out free unowned e =
      let r =
        lock_round-code lib th m c (def_do_core_full cm time refusals m) st st'
          (rw (def_full_lock, out) at e) in
      let k = def_do_core_full-IsKept cm time refusals m st.system r.0 r.1 in
      let l = def_do_core_full-latm cm time refusals m st.system r.0 r.1 in
      let still : get_inflight_tx_of_same_thread st'.system th ≡ none =
        ap (λ z. get_inflight_tx_of_same_thread z th) r.2
        ∙ own_lock-inflight th m th r.0
        ∙ same_inflight th st.system r.0 k
        ∙ out in
      (
        _,
        unlock_outside th m st' still,
        ap (λ z. (disown_lock m (erase_locked m z)).latm) r.2
            ∙ latm_restored th m st.system r.0 free unowned l,
      )
