-- ===== src/Locks/Refusal.antt =====
-- Protection by the locks that conflict with all transactions, with direct updating: a lock inside a
-- transaction, and its unlock.
use tboost_stm.Prelude.{
  ℕ, ◌≡◌, refl, sym, ap, subst, ◌∙◌, Bool, true, false, not, ◌&&◌, if◌then◌else◌, inl, inr, List,
  [], ◌∷◌, some, arith, has, Bool-cases, if_both,
}
use tboost_stm.Contention.{ContentionManager}
use tboost_stm.System.{
  System, Outcome, returns, throws, context_of, set_context, e_irrevocable_and_isolated_tx,
}
use tboost_stm.Transaction.Status.{
  isolated, forced_to_abort, force_to_abort, abort_all, same_thread, abort_all_in_flight_txs,
  irrevocable_tx_in_flight, can_abort_all_in_flight_txs,
}
use tboost_stm.Transaction.Abort.{make_isolated}
use tboost_stm.Locks.{MutexLibrary, LockState, code, refuses, jams, left}
use tboost_stm.Locks.General.{
  get_inflight_tx_of_same_thread, own_lock, leave_tx, is_on_obtained_locks_list,
}
use tboost_stm.Locks.Flow.{unlock_by, lock_prepared}
use tboost_stm.Locks.Tm.{
  dir_tm_isolated, dir_tm_prepare, dir_tm_lock, dir_tm_unlock, must_be_in_tm_conflicting_lock_set,
}
use tboost_stm.Locks.Protection.{IsKept}
use tboost_stm.Locks.RoundTrip.{same_inflight, own_lock-inflight}

-- The locks and the transactions are as they were.
record IsObtained {V : Type 0} (s s' : System V) : Type 0 where
  kept : IsKept s s'
  obtained : (th : ℕ) → (s'.context th).obtained_locks ≡ (s.context th).obtained_locks

module _ {V : Type 0} where
  forced-IsObtained :
      (t i : ℕ) (s : System V) → IsObtained s (if same_thread s i t then s else force_to_abort i s)
  unfolding force_to_abort
  forced-IsObtained t i s = record {
    kept = record { flights = ground arith; threads = λ j. ground arith; policy = ground arith };
    obtained = λ th. ground arith;
  }

  IsObtained-trans : (s s' s'' : System V) → IsObtained s s' → IsObtained s' s'' → IsObtained s s''
  IsObtained-trans s s' s'' a b = record {
    kept = record {
      flights = b.kept.flights ∙ a.kept.flights;
      threads = λ j. b.kept.threads j ∙ a.kept.threads j;
      policy = b.kept.policy ∙ a.kept.policy;
    };
    obtained = λ th. b.obtained th ∙ a.obtained th;
  }

  abort_all-IsObtained : (t : ℕ) (is : List ℕ) (s : System V) → IsObtained s (abort_all t is s)
  unfolding abort_all
  abort_all-IsObtained t [] s = record {
    kept = record { flights = refl; threads = λ j. refl; policy = refl };
    obtained = λ th. refl;
  }
  abort_all-IsObtained t (i ∷ is) s =
      IsObtained-trans s (if same_thread s i t then s else force_to_abort i s) _
        (forced-IsObtained t i s) (abort_all-IsObtained t is _)

  typed-IsObtained :
      (t : ℕ) (s : System V)
      → IsObtained s
          (set_context s t (record (context_of s t) { tx_type = e_irrevocable_and_isolated_tx }))
  typed-IsObtained t s = record {
    kept = record { flights = refl; threads = λ j. refl; policy = refl };
    obtained = λ th. ground arith;
  }

  obtained_by_owner :
      (th m t : ℕ) (s : System V)
      → is_on_obtained_locks_list s t m ≡ false
      → is_on_obtained_locks_list (own_lock th m s) t m ≡ false
  unfolding own_lock
  obtained_by_owner th m t s h = h

  -- What a round of `make_isolated` that succeeds leaves alone.
  abbrev Obtains : System V → Outcome V Bool → Type 0
  Obtains s (throws s') = Unit
  Obtains s (returns false s') = Unit
  Obtains s (returns true s') = IsObtained s s'

  make_isolated-Obtains :
      (cm : ContentionManager) (t : ℕ) (s : System V) → Obtains s (make_isolated cm t s)
  unfolding make_isolated abort_all_in_flight_txs
  make_isolated-Obtains cm t s =
      if_both (Obtains s) (isolated s t) _ _ (abort_all-IsObtained t [] s) (
        if_both (Obtains s) (forced_to_abort s t) _ _ tt (
          if_both (Obtains s)
            (not (irrevocable_tx_in_flight s t) && can_abort_all_in_flight_txs cm s t) _ _
            (IsObtained-trans s _ _ (typed-IsObtained t s) (abort_all-IsObtained t s.in_flight _))
            tt))

  IsObtained-obtained :
      (t m : ℕ) (s s' : System V)
      → IsObtained s s'
      → is_on_obtained_locks_list s t m ≡ false
      → is_on_obtained_locks_list s' t m ≡ false
  IsObtained-obtained t m s s' o h =
      let same = ap (λ z. (s'.context z).obtained_locks) (o.kept.threads t) in
      subst (λ l. has m l ≡ false) (sym (same ∙ o.obtained (s.tx t).thread_id)) h

module _ {V M : Type 0} (lib : MutexLibrary M) (cm : ContentionManager) where
  dir_tm_isolated-code :
      (th m c : ℕ) (mx : M) (s : System V) (o : Outcome V Bool) (st' : LockState V M)
      → Obtains s o
      → lock_prepared lib th m mx (dir_tm_isolated cm th m o) ≡ code c st'
      → (s' : System V) × IsObtained s s'
        × (st'.system ≡ own_lock th m s')
        × (st'.mutexes ≡ lib.lock th m mx)
  unfolding lock_prepared dir_tm_isolated
  dir_tm_isolated-code th m c mx s (throws s') st' k e = cc
  dir_tm_isolated-code th m c mx s (returns false s') st' k e = cc
  dir_tm_isolated-code th m c mx s (returns true s') st' k e =
      (s', k, ap (λ r. (left r).system) (sym e), ap (λ r. (left r).mutexes) (sym e))

  dir_tm_prepare-code :
      (th m c t : ℕ) (mx : M) (s : System V) (st' : LockState V M)
      → lock_prepared lib th m mx (dir_tm_prepare cm th m t s) ≡ code c st'
      → (s' : System V) × IsObtained s s'
        × (st'.system ≡ own_lock th m s')
        × (st'.mutexes ≡ lib.lock th m mx)
  unfolding dir_tm_prepare lock_prepared
  dir_tm_prepare-code th m c t mx s st' e =
      elim (Bool-cases (must_be_in_tm_conflicting_lock_set s m)) [
        | inl present ↦
            dir_tm_isolated-code th m c mx s (make_isolated cm t s) st'
              (make_isolated-Obtains cm t s) (rw (dir_tm_prepare, present) at e)
        | inr missing ↦
            let e' : refuses (record { system = s; mutexes = mx }) ≡ code c st' =
              rw (dir_tm_prepare, missing) at e in
            cc
      ]

  -- Protection by the locks that conflict with all transactions, with direct updating: when a lock
  -- called inside a transaction, of a mutex that the transaction has not obtained, succeeds, it has
  -- locked the mutex, but the unlock of that mutex by the same thread inside the transaction throws,
  -- with `latmMutex_` held; the mutex and the library's records stay as the lock left them.
  pub dir_tm_unlock-lock :
      (time refusals th m c t : ℕ) (st st' : LockState V M)
      → get_inflight_tx_of_same_thread st.system th ≡ some t
      → is_on_obtained_locks_list st.system t m ≡ false
      → dir_tm_lock lib cm time refusals th m st ≡ code c st'
      → (st'.mutexes ≡ lib.lock th m st.mutexes) × (dir_tm_unlock lib cm th m st' ≡ jams st')
  unfolding dir_tm_lock dir_tm_unlock unlock_by leave_tx
  dir_tm_unlock-lock time refusals th m c t st st' inside free e =
      let r =
        dir_tm_prepare-code th m c t st.mutexes st.system st' (rw (dir_tm_lock, inside) at e) in
      let still : get_inflight_tx_of_same_thread st'.system th ≡ some t =
        ap (λ z. get_inflight_tx_of_same_thread z th) r.2
        ∙ own_lock-inflight th m th r.0
        ∙ same_inflight th st.system r.0 r.1.kept
        ∙ inside in
      let unobtained : is_on_obtained_locks_list st'.system t m ≡ false =
        subst (λ z. is_on_obtained_locks_list z t m ≡ false) (sym r.2)
          (obtained_by_owner th m t r.0 (IsObtained-obtained t m st.system r.0 r.1 free)) in
      (r.3, rw (dir_tm_unlock, unlock_by, leave_tx, still, unobtained) refl)
