-- ===== src/Locks/Stopping.antt =====
-- Protection by the conflicting locks of each transaction: what a lock that a client has got stops.
use tboost_stm.Prelude.{
  ℕ, ◌≡◌, refl, sym, subst, ◌∙◌, Bool, true, false, ◌==◌, inl, inr, List, [], ◌∷◌, Option, none,
  some, arith, has, Bool-cases, some_cancel, ==_iff,
}
use tboost_stm.Contention.{ContentionManager}
use tboost_stm.System.{System, context_of}
use tboost_stm.Transaction.Status.{irrevocable, forced_to_abort, force_to_abort}
use tboost_stm.Locks.{does, does_cancel, MutexLibrary, LockState, code}
use tboost_stm.Locks.General.{get_inflight_tx_of_same_thread, own_lock}
use tboost_stm.Locks.Conflicts.{block}
use tboost_stm.Locks.Tx.{
  collect, must_stop, stop_all, note_threads, stop_those, to_stop, def_do_core_tx, def_tx_lock,
}
use tboost_stm.Locks.Rounds.{lock_round-code}

collect-some :
    (b may : Bool) (i j : ℕ) (rest : Option (List ℕ)) (l : List ℕ)
    → collect b may i rest ≡ some l
    → (l' : List ℕ) × (rest ≡ some l')
      × (has j l' ≡ true → has j l ≡ true)
      × (b ≡ true → (has i l ≡ true) × (may ≡ true))
collect-some false may i j none l e = cc
collect-some false may i j (some l') l e =
    (l', refl, (λ h. subst (λ z. has j z ≡ true) (some_cancel _ _ e) h), λ f. cc)
collect-some true false i j rest l e = cc
collect-some true true i j none l e = cc
collect-some true true i j (some l') l e =
    let same = some_cancel _ _ e in
    (
      l',
      refl,
      (λ h. subst (λ z. has j z ≡ true) same (ground arith)),
      λ f. (subst (λ z. has i z ≡ true) same (ground arith), refl),
    )

module _ {V : Type 0} where
  -- The transaction is forced to abort, and its thread may not start another one.
  abbrev pub IsStopped : System V → ℕ → Type 0
  IsStopped s i = (forced_to_abort s i ≡ true) × ((context_of s i).blocked ≡ true)

  stop_irrevocable :
      (i j : ℕ) (s : System V) → irrevocable (block i (force_to_abort i s)) j ≡ irrevocable s j
  unfolding block force_to_abort irrevocable
  stop_irrevocable i j s = ground arith

  stop_stays : (i j : ℕ) (s : System V) → IsStopped s j → IsStopped (block i (force_to_abort i s)) j
  unfolding block force_to_abort
  stop_stays i j s (f, b) = (ground arith, ground arith)

  stop_self :
      (i : ℕ) (s : System V) → irrevocable s i ≡ false → IsStopped (block i (force_to_abort i s)) i
  unfolding block force_to_abort
  stop_self i s r = (ground arith, ground arith)

  stop_all-stays : (l : List ℕ) (j : ℕ) (s : System V) → IsStopped s j → IsStopped (stop_all l s) j
  unfolding stop_all
  stop_all-stays [] j s h = h
  stop_all-stays (i ∷ l) j s h = stop_all-stays l j _ (stop_stays i j s h)

  stop_all-IsStopped :
      (l : List ℕ) (j : ℕ) (s : System V)
      → has j l ≡ true
      → irrevocable s j ≡ false
      → IsStopped (stop_all l s) j
  unfolding stop_all
  stop_all-IsStopped [] j s h r = cc
  stop_all-IsStopped (i ∷ l) j s h r = elim (Bool-cases (j == i)) [
    | inl hit ↦
        let same : j ≡ i = (==_iff j i).0 hit in
        stop_all-stays l j _ (rw (← same) (stop_self j s r))
    | inr miss ↦ stop_all-IsStopped l j _ (ground arith) (stop_irrevocable i j s ∙ r)
  ]

  stop_those-IsStopped :
      (m j : ℕ) (s s' : System V) (o : Option (List ℕ))
      → ((l : List ℕ) → o ≡ some l → (has j l ≡ true) × (irrevocable s j ≡ false))
      → stop_those m s o ≡ does s'
      → IsStopped s' j
  unfolding stop_those note_threads
  stop_those-IsStopped m j s s' none h e = cc
  stop_those-IsStopped m j s s' (some []) h e = let k = (h [] refl).0 in cc
  stop_those-IsStopped m j s s' (some (i ∷ l)) h e =
      let k = h (i ∷ l) refl in
      subst (λ z. IsStopped z j) (does_cancel _ _ _ refl e) (stop_all-IsStopped (i ∷ l) j s k.0 k.1)

module _ {V : Type 0} (cm : ContentionManager) where
  to_stop-has :
      (time refusals th m j : ℕ) (s : System V) (is l : List ℕ)
      → to_stop cm time refusals false th m s is ≡ some l
      → has j is ≡ true
      → must_stop s th m j ≡ true
      → (has j l ≡ true) × (irrevocable s j ≡ false)
  unfolding to_stop
  to_stop-has time refusals th m j s [] l e h c = cc
  to_stop-has time refusals th m j s (i ∷ is) l e h c =
      let r = collect-some _ _ i j (to_stop cm time refusals false th m s is) l e in
      elim (Bool-cases (j == i)) [
        | inl hit ↦
            let same : j ≡ i = (==_iff j i).0 hit in
            let first = r.3 (subst (λ z. must_stop s th m z ≡ true) same c) in
            (
              subst (λ z. has z l ≡ true) (sym same) first.0,
              subst (λ z. irrevocable s z ≡ false) (sym same) (let ok = first.1 in ground arith),
            )
        | inr miss ↦
            let k = to_stop-has time refusals th m j s is r.0 r.1 (ground arith) c in (r.2 k.0, k.1)
      ]

  def_do_core_tx-IsStopped :
      (time refusals th m j : ℕ) (s s' : System V)
      → has j s.in_flight ≡ true
      → must_stop s th m j ≡ true
      → def_do_core_tx cm time refusals false th m s ≡ does s'
      → IsStopped s' j
  unfolding def_do_core_tx
  def_do_core_tx-IsStopped time refusals th m j s s' h c e =
      stop_those-IsStopped m j s s' (to_stop cm time refusals false th m s s.in_flight)
        (λ l o. to_stop-has time refusals th m j s s.in_flight l o h c) e

module _ {V M : Type 0} (lib : MutexLibrary M) (cm : ContentionManager) where
  -- When a client's lock under the protection by the conflicting locks of each transaction, with
  -- deferred updating, succeeds outside a transaction, every transaction in flight of another thread
  -- that has the mutex in its conflicting set is forced to abort, and its thread is blocked.
  pub def_tx_lock-IsStopped :
      (now time refusals th m c i : ℕ) (st st' : LockState V M)
      → get_inflight_tx_of_same_thread st.system th ≡ none
      → has i st.system.in_flight ≡ true
      → must_stop st.system th m i ≡ true
      → def_tx_lock lib cm now time refusals th m st ≡ code c st'
      → IsStopped st'.system i
  unfolding def_tx_lock own_lock
  def_tx_lock-IsStopped now time refusals th m c i st st' out h k e =
      let r =
        lock_round-code lib th m c (def_do_core_tx cm time refusals false th m) st st'
          (rw (def_tx_lock, out) at e) in
      subst (λ z. IsStopped z i) (sym r.2)
        (def_do_core_tx-IsStopped cm time refusals th m i st.system r.0 h k r.1)
