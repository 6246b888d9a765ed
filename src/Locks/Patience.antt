-- ===== src/Locks/Patience.antt =====
-- How long a client's lock can be refused.
use tboost_stm.Prelude.{
  ℕ, ◌≡◌, refl, ap, subst, ◌∙◌, ◌+◌, ◌*◌, ◌<◌, ◌≤◌, true, false, inl, inr, List, [], ◌∷◌, none,
  arith, All, suc, zero, ◌⊎◌, Bool-cases,
}
use tboost_stm.Contention.{ContentionManager, default_manager, default_lock}
use tboost_stm.System.{System}
use tboost_stm.Transaction.Status.{irrevocable, view}
use tboost_stm.Transaction.Invalidation.{force_all}
use tboost_stm.Locks.{Core, declines, does, IsIdle, MutexLibrary, LockState, Reply, code}
use tboost_stm.Locks.General.{
  is_empty, get_inflight_tx_of_same_thread, insert_locked, may_abort_flight,
}
use tboost_stm.Locks.Flow.{lock_round, lock_ended, next_round, lock_loop}
use tboost_stm.Locks.Rounds.{Restores, declined_round, def_do_core_full-IsIdle}
use tboost_stm.Locks.Full.{def_do_core_full, def_full_lock}

module _ {V : Type 0} where
  -- No transaction of the list is irrevocable, and none has a write list longer than the bound.
  abbrev pub IsModest : ℕ → System V → List ℕ → Type 0
  IsModest w s is = All (λ i. (irrevocable s i ≡ false) × ((view s i).writes ≤ w)) is

  may_abort_flight-default :
      (time refusals w : ℕ) (s : System V) (is : List ℕ)
      → IsModest w s is
      → 100 + 100 * w < time
      → may_abort_flight default_manager time refusals s is ≡ true
  unfolding may_abort_flight default_manager default_lock
  may_abort_flight-default time refusals w s [] h lt = refl
  may_abort_flight-default time refusals w s (i ∷ is) h lt =
      let r = h.0.0 in
      let le = h.0.1 in
      let rest = may_abort_flight-default time refusals w s is h.1 lt in ground arith

  def_do_core_full-default :
      (time refusals w m : ℕ) (s : System V)
      → IsModest w s s.in_flight
      → 100 + 100 * w < time
      → (s' : System V) × (def_do_core_full default_manager time refusals m s ≡ does s')
  unfolding def_do_core_full
  def_do_core_full-default time refusals w m s h lt =
      let ok = may_abort_flight-default time refusals w s s.in_flight h lt in
      elim (Bool-cases (is_empty s.latm.locked_locks)) [
        | inl free ↦
            (insert_locked m (force_all s.in_flight s), rw (def_do_core_full, free, ok) refl)
        | inr held ↦ (insert_locked m s, rw (def_do_core_full, held) refl)
      ]

module _ {V M : Type 0} (lib : MutexLibrary M) where
  Ends : Reply V M → Type 0
  Ends r = (st' : LockState V M) × (r ≡ code 0 st')

  pub def_full_lock_outside :
      (cm : ContentionManager) (now time refusals th m : ℕ) (st : LockState V M)
      → get_inflight_tx_of_same_thread st.system th ≡ none
      → def_full_lock lib cm now time refusals th m st
        ≡ lock_ended lib th m st
            (lib.lock th m st.mutexes)
            (def_do_core_full cm time refusals m st.system)
  unfolding def_full_lock lock_round
  def_full_lock_outside cm now time refusals th m st out = rw (def_full_lock, out) refl

  next_round-Ends :
      (th m : ℕ) (st : LockState V M) (go : LockState V M → Reply V M) (o : Core V (System V))
      → Restores lib th m
      → IsIdle st.system o
      → Ends (go st) ⊎ ((s : System V) × (o ≡ does s))
      → Ends (next_round go (lock_ended lib th m st (lib.lock th m st.mutexes) o))
  unfolding lock_ended Ends
  next_round-Ends th m st go (declines s) ok i (inl g) =
      (g.0, ap go (declined_round lib th m st s ok i) ∙ g.1)
  next_round-Ends th m st go (declines s) ok i (inr d) = let e = d.1 in cc
  next_round-Ends th m st go (does s) ok i g = (_, refl)

  lock_loop-Ends :
      (n now time refusals w th m : ℕ) (st : LockState V M)
      → get_inflight_tx_of_same_thread st.system th ≡ none
      → Restores lib th m
      → IsModest w st.system st.system.in_flight
      → 100 + 100 * w < time + 10 * n
      → Ends (
          lock_loop
            (λ time' refusals' st'. def_full_lock lib default_manager now time' refusals' th m st')
            10
            (suc n)
            time
            refusals
            st)
  unfolding lock_loop
  lock_loop-Ends zero now time refusals w th m st out ok h lt =
      rw (def_full_lock_outside default_manager now time refusals th m st out) (
        next_round-Ends th m st _ _ ok
          (def_do_core_full-IsIdle default_manager time refusals m st.system)
          (inr (def_do_core_full-default time refusals w m st.system h (omega (arith, lt)))))
  lock_loop-Ends (suc n) now time refusals w th m st out ok h lt =
      rw (def_full_lock_outside default_manager now time refusals th m st out) (
        next_round-Ends th m st _ _ ok
          (def_do_core_full-IsIdle default_manager time refusals m st.system)
          (inl (
            lock_loop-Ends n now (time + 10) (suc refusals) w th m st out ok h
              (omega (arith, lt)))))

  -- Full protection with deferred updating and the default contention manager, outside a transaction:
  -- if none of the transactions in flight is irrevocable or has more than `w` objects in its write
  -- list, a client's lock succeeds after at most `12 + 10 * w` rounds, where no other thread acts
  -- between the rounds. Unlocking a mutex just after locking it has to restore the mutexes.
  pub lock_loop-def_full_lock :
      (now w th m : ℕ) (st : LockState V M)
      → get_inflight_tx_of_same_thread st.system th ≡ none
      → Restores lib th m
      → IsModest w st.system st.system.in_flight
      → (st' : LockState V M) × (lock_loop
            (λ time refusals st0. def_full_lock lib default_manager now time refusals th m st0)
            10
            (12 + 10 * w)
            0
            0
            st
          ≡ code 0 st')
  unfolding Ends
  lock_loop-def_full_lock now w th m st out ok h =
      let fuel : suc (11 + 10 * w) ≡ 12 + 10 * w = omega arith in
      subst
        (λ n. Ends (
          lock_loop
            (λ time refusals st0. def_full_lock lib default_manager now time refusals th m st0) 10 n
            0 0 st))
        fuel (lock_loop-Ends (11 + 10 * w) now 0 0 w th m st out ok h (omega arith))
