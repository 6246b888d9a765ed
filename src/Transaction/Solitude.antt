-- ===== src/Transaction/Solitude.antt =====
-- Isolation: a transaction that is to run alone dooms all the others in flight.
use tboost_stm.Prelude.{
  ℕ, ◌≡◌, ◌≢◌, refl, sym, subst, ◌∙◌, Bool, true, false, ◌==◌, if◌then◌else◌, inl, inr, List, [],
  ◌∷◌, arith, has, Bool-cases, ==_iff, ==-eq_false, if_both,
}
use tboost_stm.Contention.{ContentionManager}
use tboost_stm.System.{System, Outcome, returns, throws, TxType, e_irrevocable_and_isolated_tx}
use tboost_stm.Transaction.Status.{
  irrevocable, isolated, same_thread, forced_to_abort, force_to_abort, abort_all,
  abort_all_in_flight_txs, irrevocable_tx_in_flight, can_abort_all_in_flight_txs,
}
use tboost_stm.Transaction.Status.Exclusive.{
  Exclusive, made, made-Exclusive, raised-Exclusive, any_irrevocable-none,
}
use tboost_stm.Transaction.Abort.{make_isolated}

module _ {V : Type 0} where
  -- What a forced abort leaves as it is.
  record IsAlike (s s' : System V) : Type 0 where
    flights : s'.in_flight ≡ s.in_flight
    threads : (i : ℕ) → (s'.tx i).thread_id ≡ (s.tx i).thread_id
    kinds : (i : ℕ) → irrevocable s' i ≡ irrevocable s i

  forced-IsAlike :
      (t i : ℕ) (s : System V) → IsAlike s (if same_thread s i t then s else force_to_abort i s)
  unfolding force_to_abort irrevocable
  forced-IsAlike t i s = record {
    flights = ground arith;
    threads = λ j. ground arith;
    kinds = λ j. ground arith;
  }

  abort_all-IsAlike : (t : ℕ) (is : List ℕ) (s : System V) → IsAlike s (abort_all t is s)
  unfolding abort_all
  abort_all-IsAlike t [] s = record { flights = refl; threads = λ i. refl; kinds = λ i. refl }
  abort_all-IsAlike t (i ∷ is) s =
      let first = forced-IsAlike t i s in
      let rest = abort_all-IsAlike t is (if same_thread s i t then s else force_to_abort i s) in
      record {
        flights = rest.flights ∙ first.flights;
        threads = λ j. rest.threads j ∙ first.threads j;
        kinds = λ j. rest.kinds j ∙ first.kinds j;
      }

  alike-Exclusive : (s s' : System V) → IsAlike s s' → Exclusive s → Exclusive s'
  unfolding Exclusive
  alike-Exclusive s s' a x i j p q e f =
      a.threads i
      ∙ x i j (subst (λ l. has i l ≡ true) a.flights p) (subst (λ l. has j l ≡ true) a.flights q)
          (sym (a.kinds i) ∙ e) (sym (a.kinds j) ∙ f)
      ∙ sym (a.threads j)

  forced-stays :
      (t i j : ℕ) (s : System V)
      → forced_to_abort s j ≡ true
      → forced_to_abort (if same_thread s i t then s else force_to_abort i s) j ≡ true
  unfolding force_to_abort irrevocable
  forced-stays t i j s h = ground arith

  forced-now :
      (t i : ℕ) (s : System V)
      → irrevocable s i ≡ false
      → same_thread s i t ≡ false
      → forced_to_abort (if same_thread s i t then s else force_to_abort i s) i ≡ true
  unfolding force_to_abort
  forced-now t i s r o = ground arith

  abort_all-stays :
      (t j : ℕ) (is : List ℕ) (s : System V)
      → forced_to_abort s j ≡ true
      → forced_to_abort (abort_all t is s) j ≡ true
  unfolding abort_all
  abort_all-stays t j [] s h = h
  abort_all-stays t j (i ∷ is) s h = abort_all-stays t j is _ (forced-stays t i j s h)

  abort_all-dooms :
      (t j : ℕ) (is : List ℕ) (s : System V)
      → has j is ≡ true
      → irrevocable s j ≡ false
      → (s.tx j).thread_id ≢ (s.tx t).thread_id
      → forced_to_abort (abort_all t is s) j ≡ true
  unfolding abort_all
  abort_all-dooms t j [] s h r o = cc
  abort_all-dooms t j (i ∷ is) s h r o = elim (Bool-cases (j == i)) [
    | inl hit ↦
        let same : i ≡ j = sym ((==_iff j i).0 hit) in
        subst
          (λ z.
            forced_to_abort (abort_all t is (if same_thread s z t then s else force_to_abort z s)) j
            ≡ true)
          (sym same) (abort_all-stays t j is _ (forced-now t j s r (==-eq_false _ _ o)))
    | inr miss ↦
        let a = forced-IsAlike t i s in
        abort_all-dooms t j is (if same_thread s i t then s else force_to_abort i s) (ground arith)
          (a.kinds j ∙ r) (λ e. o (sym (a.threads j) ∙ e ∙ a.threads t))
  ]

  made-irrevocable_other :
      (k : TxType) (t i : ℕ) (s : System V)
      → (s.tx i).thread_id ≢ (s.tx t).thread_id
      → irrevocable (made k t s) i ≡ irrevocable s i
  unfolding irrevocable
  made-irrevocable_other k t i s o = ground arith

module _ {V : Type 0} (cm : ContentionManager) where
  -- The state in which `make_isolated` succeeds.
  abbrev alone : ℕ → System V → System V
  alone t s = abort_all_in_flight_txs t (made e_irrevocable_and_isolated_tx t s)

  alone-dooms :
      (t i : ℕ) (s : System V)
      → irrevocable_tx_in_flight s t ≡ false
      → has i s.in_flight ≡ true
      → (s.tx i).thread_id ≢ (s.tx t).thread_id
      → forced_to_abort (alone t s) i ≡ true
  unfolding abort_all_in_flight_txs irrevocable_tx_in_flight
  alone-dooms t i s none_other h o =
      abort_all-dooms t i s.in_flight (made e_irrevocable_and_isolated_tx t s) h
        (made-irrevocable_other e_irrevocable_and_isolated_tx t i s o ∙ revocable) o
    where
      revocable : irrevocable s i ≡ false
      revocable = elim (Bool-cases (irrevocable s i)) [
        | inl is ↦ absurd (o (any_irrevocable-none s t i s.in_flight none_other h is))
        | inr not_so ↦ not_so
      ]

  alone-Exclusive :
      (t : ℕ) (s : System V) → irrevocable_tx_in_flight s t ≡ false → Exclusive (alone t s)
  unfolding abort_all_in_flight_txs
  alone-Exclusive t s none_other =
      let isolating = made e_irrevocable_and_isolated_tx t s in
      alike-Exclusive isolating (alone t s) (abort_all-IsAlike t s.in_flight isolating)
        (made-Exclusive e_irrevocable_and_isolated_tx t s none_other)

  -- What a round of `make_isolated` leaves, if it does not throw.
  abbrev Alone : ℕ → System V → Outcome V Bool → Type 0
  Alone t s (throws s') = Unit
  Alone t s (returns false s') = Exclusive s → Exclusive s'
  Alone t s (returns true s') =
      (Exclusive s → Exclusive s')
      × ((i : ℕ)
          → has i s.in_flight ≡ true
          → (s.tx i).thread_id ≢ (s.tx t).thread_id
          → isolated s t ≡ false
          → forced_to_abort s' i ≡ true)

  make_isolated-Alone : (t : ℕ) (s : System V) → Alone t s (make_isolated cm t s)
  unfolding make_isolated
  make_isolated-Alone t s = elim (Bool-cases (isolated s t)) [
    | inl is ↦ rw is ((λ x. x), λ i h o e. cc)
    | inr not_yet ↦ rw not_yet (
        if_both (Alone t s) (forced_to_abort s t) _ _ tt
          (elim (Bool-cases (irrevocable_tx_in_flight s t)) [
            | inl busy ↦ rw busy (raised-Exclusive t s)
            | inr clear ↦ rw clear (
                if_both (Alone t s) (can_abort_all_in_flight_txs cm s t) _ _ (isolating clear)
                  (raised-Exclusive t s))
          ]))
  ]
    where
      isolating : irrevocable_tx_in_flight s t ≡ false → Alone t s (returns true (alone t s))
      isolating clear = ((λ x. alone-Exclusive t s clear), λ i h o e. alone-dooms t i s clear h o)

  if_returned :
      (t : ℕ) (s s' : System V) (b : Bool) → Alone t s (returns b s') → Exclusive s → Exclusive s'
  if_returned t s s' true k x = k.0 x
  if_returned t s s' false k x = k x

  -- A round of `make_isolated` that does not throw keeps the irrevocable transactions in flight to
  -- one thread, if they were of one thread before it.
  pub make_isolated-Exclusive :
      (t : ℕ) (b : Bool) (s s' : System V)
      → Exclusive s
      → make_isolated cm t s ≡ returns b s'
      → Exclusive s'
  make_isolated-Exclusive t b s s' x e =
      if_returned t s s' b (subst (Alone t s) e (make_isolated-Alone t s)) x

  -- When `make_isolated` returns for a transaction that was not isolated, every transaction of
  -- another thread that was in flight is forced to abort.
  pub make_isolated-forced_to_abort :
      (t i : ℕ) (s s' : System V)
      → isolated s t ≡ false
      → has i s.in_flight ≡ true
      → (s.tx i).thread_id ≢ (s.tx t).thread_id
      → make_isolated cm t s ≡ returns true s'
      → forced_to_abort s' i ≡ true
  make_isolated-forced_to_abort t i s s' n h o e =
      (subst (Alone t s) e (make_isolated-Alone t s)).1 i h o n
