-- ===== src/Transaction/Blocks.antt =====
-- A client's block under `atomic`, in a transaction that nobody else's stands against.
use tboost_stm.Prelude.{
  ℕ, suc, ◌≡◌, refl, sym, ap, subst, ◌∙◌, Bool, true, false, ltb, List, [], ◌∷◌, inl, inr,
  Bool-cases, if_both, if_so, if_not_so, ==-eq_true, length,
}
use tboost_stm.StdSet
use tboost_stm.Contention.{ContentionManager}
use tboost_stm.System.{
  System, TransactionState, e_no_state, e_aborted, e_committed, e_hand_off, e_in_flight, Outcome,
  returns, throws, final,
}
use tboost_stm.Transaction.Status.{
  is_in_flight, in_flight, is_only_reading, other_in_flight_same_thread,
}
use tboost_stm.Transaction.Access.{restart_if_not_inflight}
use tboost_stm.Transaction.Commit.{
  end, end_reading, end_writing, finish, tick_outcome, commit_or_abort, write_back,
  invalidating_deferred_commit, invalidating_deferred_end_transaction,
}
use tboost_stm.Transaction.Abort.{restarted}
use tboost_stm.Transaction.Retry.{
  is_committed, committed, check_throw_before_restart, no_throw_end, atomic_round, rounds, checked,
  run_restarted, repeat_caught, ends, repeats,
}
use tboost_stm.Transaction.Atomic.{IsBegun, perform-IsView}
use tboost_stm.Transaction.Atomic.Ending.{end-AllOrNothing}
use tboost_stm.Transaction.Atomic.Clients.{
  Client, perform, atomically, Uses, Stores, IsView, AllOrNothing,
}

module _ {V : Type 0} where
  abbrev ignore_flag : Outcome V Bool → Outcome V (Unit {0})
  ignore_flag (returns _ s) = returns tt s
  ignore_flag (throws s) = throws s

  -- The call has returned, and the transaction is committed.
  abbrev Commits : ℕ → Outcome V (Unit {0}) → Type 0
  Commits t (returns _ s) = committed s t ≡ true
  Commits t (throws s) = true ≡ false

  finish-committed : (t : ℕ) (s : System V) → committed (finish t s) t ≡ true
  unfolding finish
  finish-committed t s = rw (==-eq_true t t refl) refl

  write_back-committed : (now t : ℕ) (s : System V) → committed (write_back now t s) t ≡ true
  unfolding write_back finish
  write_back-committed now t s = rw (==-eq_true t t refl) refl

module _ {V : Type 0} (hash : ℕ → ℕ × ℕ) (cm : ContentionManager) (now t : ℕ) (s : System V) where
  end_reading-committed : committed (end_reading hash cm now t s) t ≡ true
  unfolding end_reading
  end_reading-committed =
      let s' = record s { in_flight = StdSet.erase t s.in_flight } in
      if_both {A = System V} (λ z. committed z t ≡ true) (other_in_flight_same_thread s' t) _ _
        (rw (==-eq_true t t refl) refl) (finish-committed t s')

  commit-Commits :
      ltb 1 (length s.in_flight) ≡ false → Commits t (invalidating_deferred_commit hash cm now t s)
  unfolding invalidating_deferred_commit
  commit-Commits few =
      subst (λ (o : Outcome V (Unit {0})). Commits t (commit_or_abort hash cm now t o))
        (sym (if_not_so _ _ _ few)) (write_back-committed now t s)

  tick-Commits : (o : Outcome V (Unit {0})) → Commits t o → Commits t (tick_outcome hash cm now o)
  tick-Commits (returns _ s') k = k
  tick-Commits (throws s') k = k

  module _ (D : ℕ → Type 0) (fl : List ℕ) (ν : ℕ → V) where
    end_writing-Commits :
        {h : _}
        → IsView hash D fl h ν t s
        → ltb 1 (length s.in_flight) ≡ false
        → Commits t (end_writing hash cm now t s)
    unfolding end_writing
    end_writing-Commits w few =
        subst (Commits t) (sym (if_not_so _ _ _ w.free))
          (tick-Commits _ (subst (Commits t) (sym (if_not_so _ _ _ w.alone)) (commit-Commits few)))

    -- With no other transaction in flight, the end returns.
    end-Commits :
        {h : _}
        → IsView hash D fl h ν t s
        → ltb 1 (length s.in_flight) ≡ false
        → Commits t (end hash cm now t s)
    unfolding end invalidating_deferred_end_transaction
    end-Commits w few =
        subst (Commits t)
          (sym
            (if_so _ _ _ w.flying ∙ if_not_so _ _ _ w.untouched.deferred ∙ if_not_so _ _ _ w.free))
          (elim (Bool-cases (is_only_reading s t)) [
            | inl reading ↦ subst (Commits t) (sym (if_so _ _ _ reading)) end_reading-committed
            | inr writing ↦
                subst (Commits t) (sym (if_not_so _ _ _ writing)) (end_writing-Commits w few)
          ])

in_flight-uncommitted : (e : TransactionState) → is_in_flight e ≡ true → is_committed e ≡ false
in_flight-uncommitted e_no_state k = refl
in_flight-uncommitted e_aborted k = refl
in_flight-uncommitted e_committed k = cc
in_flight-uncommitted e_hand_off k = cc
in_flight-uncommitted e_in_flight k = refl

module _ {V : Type 0} where
  check-in_flight :
      (t : ℕ) (s : System V)
      → in_flight s t ≡ true
      → check_throw_before_restart t s ≡ returns true s
  unfolding check_throw_before_restart
  check-in_flight t s h = rw h refl

  restart-in_flight :
      (t : ℕ) (s : System V) → in_flight s t ≡ true → restart_if_not_inflight t s ≡ restarted s
  unfolding restart_if_not_inflight
  restart-in_flight t s h = if_so _ _ _ h

  -- What an end that returns leaves.
  returned :
      (D : ℕ → Type 0) (μ ν : ℕ → V) (t : ℕ) (o : Outcome V (Unit {0}))
      → Commits t o
      → AllOrNothing D μ ν o
      → (committed (final o) t ≡ true) × Stores D ν (final o).heap
  returned D μ ν t (returns _ s) c a = (c, a)
  returned D μ ν t (throws s) c a = cc

module _ {V : Type 0} (hash : ℕ → ℕ × ℕ) where
  -- The block of a program.
  abbrev pub block : Client V → ℕ → System V → Outcome V (Unit {0})
  block p t s = ignore_flag (perform hash p t s)

module _ {V : Type 0} (hash : ℕ → ℕ × ℕ) (cm : ContentionManager) (now : ℕ) where
  round-perform :
      (t : ℕ) (p : Client V) (s s' : System V)
      → in_flight s t ≡ true
      → perform hash p t s ≡ returns true s'
      → atomic_round hash cm now (block hash p t) t s ≡ repeats (no_throw_end hash cm now t s')
  unfolding atomic_round
  round-perform t p s s' h e =
      if_not_so _ _ _ (in_flight-uncommitted (s.tx t).state h)
      ∙ ap (checked hash cm now (block hash p t) t) (check-in_flight t s h)
      ∙ ap (run_restarted hash cm now (block hash p t) t) (restart-in_flight t s h)
      ∙ ap (λ o. repeat_caught hash cm now t (ignore_flag o)) e

  round-committed :
      (t : ℕ) (f : System V → Outcome V (Unit {0})) (s : System V)
      → committed s t ≡ true
      → atomic_round hash cm now f t s ≡ ends s
  unfolding atomic_round
  round-committed t f s h = if_so _ _ _ h

  -- Under `atomic`, a client's program in a transaction that is the only one in flight is carried out
  -- once: in its second round the loop is over, and the objects have the values that the program
  -- gives them on a memory of its own. The transaction begins as for its atomicity.
  pub atomic_round-perform :
      (n t : ℕ) (D : ℕ → Type 0) (p : Client V) (μ : ℕ → V) (s : System V)
      → IsBegun s t
      → s.in_flight ≡ t ∷ []
      → Stores D μ s.heap
      → Uses D p
      → (s' : System V) × (rounds (suc (suc n)) (atomic_round hash cm now (block hash p t) t) s
          ≡ ends s')
        × Stores D (atomically p μ) s'.heap
  unfolding rounds no_throw_end
  atomic_round-perform n t D p μ s b only k u =
      let (s', e, w) = perform-IsView hash D t p μ s b k u in
      let few : ltb 1 (length s'.in_flight) ≡ false = rw (w.flight, only) refl in
      let (c, m) =
        returned D μ (atomically p μ) t (end hash cm now t s')
          (end-Commits hash cm now t s' D s.in_flight (atomically p μ) w few)
          (end-AllOrNothing hash cm now D s.in_flight s.heap μ (atomically p μ) t s' k w) in
      (
        no_throw_end hash cm now t s',
        rw
            (
              round-perform t p s s' b.flying e,
              round-committed t (block hash p t) (no_throw_end hash cm now t s') c,
            )
            refl,
        m,
      )
