-- ===== src/Locks/Rounds.antt =====
-- What a round of a lock function outside transactions can have done.
use tboost_stm.Prelude.{
  List, [], ◌∷◌, subst, if_both, has, ℕ, ◌≡◌, refl, sym, ◌∙◌, ap, Bool, true, false, Option, none,
  some,
}
use tboost_stm.Contention.{ContentionManager}
use tboost_stm.System.{
  System, LatmType, e_full_latm_protection, e_tm_conflicting_lock_latm_protection,
  e_tx_conflicting_lock_latm_protection,
}
use tboost_stm.Locks.{MutexLibrary, LockState, Core, declines, does, IsIdle, code, again, left}
use tboost_stm.Locks.General.{get_inflight_tx_of_same_thread, own_lock, is_empty, may_abort_flight}
use tboost_stm.Locks.Flow.{lock_ended, lock_round, drain_ended, drain_round}
use tboost_stm.Locks.Full.{def_do_core_full, dir_do_core_full, def_full_lock, dir_full_lock}
use tboost_stm.Locks.Tm.{def_do_core_tm, dir_do_core_tm, def_tm_lock, dir_tm_lock}
use tboost_stm.Locks.Tx.{
  stop_those, drain_those, def_do_core_tx, dir_do_core_tx, def_tx_lock, dir_tx_lock,
}
use tboost_stm.Locks.Dispatch.{lock_under, pthread_lock}

-- Unlocking a mutex just after locking it restores the state of the mutexes.
abbrev pub Restores : {M : Type 0} → MutexLibrary M → ℕ → ℕ → Type 0
Restores {M} lib th m = (mx : M) → lib.unlock th m (lib.lock th m mx) ≡ mx

module _ {V : Type 0} (cm : ContentionManager) where
  pub def_do_core_full-IsIdle :
      (time refusals m : ℕ) (s : System V) → IsIdle s (def_do_core_full cm time refusals m s)
  unfolding def_do_core_full
  def_do_core_full-IsIdle time refusals m s =
      if_both (IsIdle s) (is_empty s.latm.locked_locks) _ _
        (if_both (IsIdle s) (may_abort_flight cm time refusals s s.in_flight) _ _ tt refl) tt

  pub def_do_core_full-declines :
      (time refusals m : ℕ) (s s' : System V)
      → def_do_core_full cm time refusals m s ≡ declines s'
      → s' ≡ s
  def_do_core_full-declines time refusals m s s' e =
      subst (IsIdle s) e (def_do_core_full-IsIdle time refusals m s)

  dir_do_core_full-IsIdle :
      (time refusals m : ℕ) (s : System V) → IsIdle s (dir_do_core_full cm time refusals m s)
  unfolding dir_do_core_full
  dir_do_core_full-IsIdle time refusals m s =
      if_both (IsIdle s) (is_empty s.latm.locked_locks) _ _
        (if_both (IsIdle s) (may_abort_flight cm time refusals s s.in_flight) _ _ tt refl) tt

  def_do_core_tm-IsIdle :
      (time refusals m : ℕ) (s : System V) → IsIdle s (def_do_core_tm cm time refusals m s)
  unfolding def_do_core_tm
  def_do_core_tm-IsIdle time refusals m s =
      if_both (IsIdle s) (has m s.latm.tm_conflicting_locks) _ _
        (def_do_core_full-IsIdle time refusals m s) tt

  dir_do_core_tm-IsIdle :
      (time refusals m : ℕ) (s : System V) → IsIdle s (dir_do_core_tm cm time refusals m s)
  unfolding dir_do_core_tm
  dir_do_core_tm-IsIdle time refusals m s =
      if_both (IsIdle s) (has m s.latm.tm_conflicting_locks) _ _
        (dir_do_core_full-IsIdle time refusals m s) tt

  stop_those-IsIdle : (m : ℕ) (s : System V) (o : Option (List ℕ)) → IsIdle s (stop_those m s o)
  unfolding stop_those
  stop_those-IsIdle m s none = refl
  stop_those-IsIdle m s (some []) = tt
  stop_those-IsIdle m s (some (i ∷ is)) = tt

  drain_those-IsIdle :
      (th m : ℕ) (s : System V) (o : Option (List ℕ)) → IsIdle s (drain_those th m s o)
  unfolding drain_those
  drain_those-IsIdle th m s none = refl
  drain_those-IsIdle th m s (some []) = tt
  drain_those-IsIdle th m s (some (i ∷ is)) = tt

  def_do_core_tx-IsIdle :
      (time refusals : ℕ) (b : Bool) (th m : ℕ) (s : System V)
      → IsIdle s (def_do_core_tx cm time refusals b th m s)
  unfolding def_do_core_tx
  def_do_core_tx-IsIdle time refusals b th m s = stop_those-IsIdle m s _

  dir_do_core_tx-IsIdle :
      (time refusals : ℕ) (b : Bool) (th m : ℕ) (s : System V)
      → IsIdle s (dir_do_core_tx cm time refusals b th m s)
  unfolding dir_do_core_tx
  dir_do_core_tx-IsIdle time refusals b th m s = drain_those-IsIdle th m s _

module _ {V M : Type 0} (lib : MutexLibrary M) (th m : ℕ) where
  -- A round that is refused by a core that has changed nothing leaves the state as it was.
  pub declined_round :
      (st : LockState V M) (s : System V)
      → Restores lib th m
      → s ≡ st.system
      → record { system = s; mutexes = lib.unlock th m (lib.lock th m st.mutexes) } ≡ st
  declined_round st s ok i =
      ap (λ z. record { system = z; mutexes = lib.unlock th m (lib.lock th m st.mutexes) }) i
      ∙ ap (λ z. record { system = st.system; mutexes = z }) (ok st.mutexes)

  lock_ended-code :
      (c : ℕ) (st st' : LockState V M) (mx : M) (o : Core V (System V))
      → lock_ended lib th m st mx o ≡ code c st'
      → (s : System V) × (o ≡ does s) × (st'.system ≡ own_lock th m s)
  unfolding lock_ended
  lock_ended-code c st st' mx (declines s) e = cc
  lock_ended-code c st st' mx (does s) e = (s, refl, ap (λ r. (left r).system) (sym e))

  -- A round that ends with a result has done the core's work, and its thread owns the lock.
  pub lock_round-code :
      (c : ℕ) (core : System V → Core V (System V)) (st st' : LockState V M)
      → lock_round lib th m core st ≡ code c st'
      → (s : System V) × (core st.system ≡ does s) × (st'.system ≡ own_lock th m s)
  unfolding lock_round
  lock_round-code c core st st' e = lock_ended-code c st st' _ (core st.system) e

  lock_ended-again :
      (st st' : LockState V M) (o : Core V (System V))
      → Restores lib th m
      → IsIdle st.system o
      → lock_ended lib th m st (lib.lock th m st.mutexes) o ≡ again st'
      → st' ≡ st
  unfolding lock_ended
  lock_ended-again st st' (declines s) ok i e = ap left (sym e) ∙ declined_round st s ok i
  lock_ended-again st st' (does s) ok i e = cc

  drain_ended-again :
      (st st' : LockState V M) (o : Core V (Bool × System V))
      → Restores lib th m
      → IsIdle st.system o
      → drain_ended lib th m st (lib.lock th m st.mutexes) o ≡ again st'
      → st' ≡ st
  unfolding drain_ended
  drain_ended-again st st' (declines s) ok i e = ap left (sym e) ∙ declined_round st s ok i
  drain_ended-again st st' (does (true, s)) ok i e = cc
  drain_ended-again st st' (does (false, s)) ok i e = cc

module _ {V M : Type 0} (lib : MutexLibrary M) where
  lock_under-again :
      (cm : ContentionManager) (ty : LatmType) (d : Bool) (now time refusals th m : ℕ)
      (st st' : LockState V M)
      → get_inflight_tx_of_same_thread st.system th ≡ none
      → Restores lib th m
      → lock_under lib cm ty d now time refusals th m st ≡ again st'
      → st' ≡ st
  unfolding lock_under lock_round drain_round def_full_lock dir_full_lock def_tm_lock dir_tm_lock
      def_tx_lock dir_tx_lock
  lock_under-again cm e_full_latm_protection true now time refusals th m st st' out ok e =
      drain_ended-again lib th m st st' (dir_do_core_full cm time refusals m st.system) ok
        (dir_do_core_full-IsIdle cm time refusals m st.system) (rw (dir_full_lock, out) at e)
  lock_under-again cm e_full_latm_protection false now time refusals th m st st' out ok e =
      lock_ended-again lib th m st st' (def_do_core_full cm time refusals m st.system) ok
        (def_do_core_full-IsIdle cm time refusals m st.system) (rw (def_full_lock, out) at e)
  lock_under-again cm e_tm_conflicting_lock_latm_protection true now time refusals th m st st' out
        ok e =
      drain_ended-again lib th m st st' (dir_do_core_tm cm time refusals m st.system) ok
        (dir_do_core_tm-IsIdle cm time refusals m st.system) (rw (dir_tm_lock, out) at e)
  lock_under-again cm e_tm_conflicting_lock_latm_protection false now time refusals th m st st' out
        ok e =
      lock_ended-again lib th m st st' (def_do_core_tm cm time refusals m st.system) ok
        (def_do_core_tm-IsIdle cm time refusals m st.system) (rw (def_tm_lock, out) at e)
  lock_under-again cm e_tx_conflicting_lock_latm_protection true now time refusals th m st st' out
        ok e =
      drain_ended-again lib th m st st' (dir_do_core_tx cm time refusals false th m st.system) ok
        (dir_do_core_tx-IsIdle cm time refusals false th m st.system) (rw (dir_tx_lock, out) at e)
  lock_under-again cm e_tx_conflicting_lock_latm_protection false now time refusals th m st st' out
        ok e =
      lock_ended-again lib th m st st' (def_do_core_tx cm time refusals false th m st.system) ok
        (def_do_core_tx-IsIdle cm time refusals false th m st.system) (rw (def_tx_lock, out) at e)

  -- Under every kind of protection and of updating, a round of a client's lock, called outside a
  -- transaction, that has to be repeated leaves the state as it was, if unlocking a mutex just after
  -- locking it restores the state of the mutexes.
  pub pthread_lock-again :
      (cm : ContentionManager) (now time refusals th m : ℕ) (st st' : LockState V M)
      → get_inflight_tx_of_same_thread st.system th ≡ none
      → Restores lib th m
      → pthread_lock lib cm now time refusals th m st ≡ again st'
      → st' ≡ st
  unfolding pthread_lock
  pthread_lock-again cm now time refusals th m st st' out ok e =
      lock_under-again cm _ _ now time refusals th m st st' out ok e
