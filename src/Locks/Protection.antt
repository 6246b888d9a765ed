-- ===== src/Locks/Protection.antt =====
-- Full protection: what a lock that a client has got keeps out.
use tboost_stm.Prelude.{
  ℕ, ◌≡◌, ◌≢◌, refl, sym, ap, subst, ◌∙◌, true, false, inl, inr, List, [], ◌∷◌, none, arith, has,
  Bool-cases,
}
use tboost_stm.StdMap
use tboost_stm.Contention.{ContentionManager}
use tboost_stm.System.{System, e_full_latm_protection}
use tboost_stm.Transaction.Status.{
  irrevocable, forced_to_abort, force_to_abort, all_of_thread, latm_admits, can_go_inflight,
}
use tboost_stm.Transaction.Invalidation.{force_all}
use tboost_stm.Transaction.Invalidation.Safety.{force_all-hit}
use tboost_stm.Locks.{Core, declines, does, does_cancel, MutexLibrary, LockState, code}
use tboost_stm.Locks.General.{
  get_inflight_tx_of_same_thread, own_lock, insert_locked, may_abort_flight, is_empty,
}
use tboost_stm.Locks.Full.{def_do_core_full, def_full_lock}
use tboost_stm.Locks.Rounds.{lock_round-code}

-- What the cores of the lock functions leave alone.
pub record IsKept {V : Type 0} (s s' : System V) : Type 0 where
  pub flights : s'.in_flight ≡ s.in_flight
  pub threads : (i : ℕ) → (s'.tx i).thread_id ≡ (s.tx i).thread_id
  pub policy : s'.latm.latm_type ≡ s.latm.latm_type

all_of_thread-assign :
    (x th m : ℕ) (l : List (ℕ × ℕ)) → x ≢ th → all_of_thread x (StdMap.assign m th l) ≡ false
unfolding all_of_thread StdMap.assign
all_of_thread-assign x th m [] ne = ground arith
all_of_thread-assign x th m ((j, w) ∷ l) ne = ground (arith, all_of_thread-assign x th m l ne)

module _ {V : Type 0} where
  pub force_all-latm : (l : List ℕ) (s : System V) → (force_all l s).latm ≡ s.latm
  unfolding force_all force_to_abort
  force_all-latm [] s = refl
  force_all-latm (i ∷ l) s = force_all-latm l (force_to_abort i s) ∙ ground arith

  force_all-IsKept : (l : List ℕ) (s : System V) → IsKept s (force_all l s)
  unfolding force_all force_to_abort
  force_all-IsKept [] s = record { flights = refl; threads = λ i. refl; policy = refl }
  force_all-IsKept (i ∷ l) s =
      let rest = force_all-IsKept l (force_to_abort i s) in
      record {
        flights = rest.flights ∙ ground arith;
        threads = λ j. rest.threads j ∙ ground arith;
        policy = rest.policy ∙ ground arith;
      }

  may_abort_flight-irrevocable :
      (cm : ContentionManager) (time refusals i : ℕ) (s : System V) (is : List ℕ)
      → may_abort_flight cm time refusals s is ≡ true
      → has i is ≡ true
      → irrevocable s i ≡ false
  unfolding may_abort_flight
  may_abort_flight-irrevocable cm time refusals i s [] ok h = cc
  may_abort_flight-irrevocable cm time refusals i s (j ∷ is) ok h =
      ground (arith, may_abort_flight-irrevocable cm time refusals i s is)

  own_lock-can_go_inflight :
      (th m t : ℕ) (s : System V)
      → s.latm.latm_type ≡ e_full_latm_protection
      → (s.tx t).thread_id ≢ th
      → can_go_inflight (own_lock th m s) t ≡ false
  unfolding can_go_inflight latm_admits own_lock
  own_lock-can_go_inflight th m t s full ne =
      rw full (all_of_thread-assign (s.tx t).thread_id th m s.latm.locked_locks_of_thread ne)

  pub def_do_core_full-IsKept :
      (cm : ContentionManager) (time refusals m : ℕ) (s s' : System V)
      → def_do_core_full cm time refusals m s ≡ does s'
      → IsKept s s'
  unfolding def_do_core_full insert_locked
  def_do_core_full-IsKept cm time refusals m s s' e =
      let k = force_all-IsKept s.in_flight s in
      let f = k.flights in
      let p = k.policy in
      record {
        flights = ground arith;
        threads = λ i. let t = k.threads i in ground arith;
        policy = ground arith;
      }

  def_do_core_full-forced :
      (cm : ContentionManager) (time refusals m i : ℕ) (s s' : System V)
      → is_empty s.latm.locked_locks ≡ true
      → has i s.in_flight ≡ true
      → def_do_core_full cm time refusals m s ≡ does s'
      → forced_to_abort s' i ≡ true
  unfolding def_do_core_full insert_locked
  def_do_core_full-forced cm time refusals m i s s' free h e =
      elim (Bool-cases (may_abort_flight cm time refusals s s.in_flight)) [
        | inl ok ↦
            let hit =
              force_all-hit s.in_flight i s h
                (may_abort_flight-irrevocable cm time refusals i s s.in_flight ok h) in
            let c : Core V (System V) = does (insert_locked m (force_all s.in_flight s)) in
            let e' : c ≡ does s' = rw (free, ok) at e in
            subst (λ z. forced_to_abort z i ≡ true) (does_cancel _ _ c refl e') hit
        | inr refused ↦
            let c : Core V (System V) = declines s in
            let e' : c ≡ does s' = rw (free, refused) at e in cc
      ]

module _ {V M : Type 0} (lib : MutexLibrary M) (cm : ContentionManager) where
  -- When a client's lock under full protection with deferred updating succeeds outside a transaction,
  -- while no other lock is held, every transaction that was in flight is forced to abort.
  pub def_full_lock-forced_to_abort :
      (now time refusals th m c i : ℕ) (st st' : LockState V M)
      → get_inflight_tx_of_same_thread st.system th ≡ none
      → st.system.latm.locked_locks ≡ []
      → has i st.system.in_flight ≡ true
      → def_full_lock lib cm now time refusals th m st ≡ code c st'
      → forced_to_abort st'.system i ≡ true
  unfolding def_full_lock own_lock
  def_full_lock-forced_to_abort now time refusals th m c i st st' out free h e =
      let r =
        lock_round-code lib th m c (def_do_core_full cm time refusals m) st st'
          (rw (def_full_lock, out) at e) in
      subst (λ z. forced_to_abort z i ≡ true) (sym r.2)
        (def_do_core_full-forced cm time refusals m i st.system r.0 (ap is_empty free) h r.1)

  -- When a client's lock under full protection with deferred updating succeeds outside a transaction,
  -- no transaction of another thread may go in flight.
  pub def_full_lock-can_go_inflight :
      (now time refusals th m c t : ℕ) (st st' : LockState V M)
      → get_inflight_tx_of_same_thread st.system th ≡ none
      → st.system.latm.latm_type ≡ e_full_latm_protection
      → (st.system.tx t).thread_id ≢ th
      → def_full_lock lib cm now time refusals th m st ≡ code c st'
      → can_go_inflight st'.system t ≡ false
  unfolding def_full_lock
  def_full_lock-can_go_inflight now time refusals th m c t st st' out full ne e =
      let r =
        lock_round-code lib th m c (def_do_core_full cm time refusals m) st st'
          (rw (def_full_lock, out) at e) in
      let k = def_do_core_full-IsKept cm time refusals m st.system r.0 r.1 in
      subst (λ z. can_go_inflight z t ≡ false) (sym r.2)
        (own_lock-can_go_inflight th m t r.0 (k.policy ∙ full) (rw (k.threads t) ne))
