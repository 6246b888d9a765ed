-- ===== src/Transaction/Status/Exclusive.antt =====
-- At most one thread of those in flight is irrevocable, and no other can make it abort.
use tboost_stm.Prelude.{
  ℕ, ◌≡◌, true, false, ◌==◌, if◌then◌else◌, ◌⊎◌, inl, inr, List, [], ◌∷◌, arith, has, Bool-cases,
  ==_iff, sym, subst, ◌∙◌, refl, ap, ℕ_discrete,
}
use tboost_stm.System.{TxType, System, e_irrevocable_tx, context_of, set_context}
use tboost_stm.Transaction.Status.{
  is_irrevocable, irrevocable, same_thread, force_to_abort, abort_all, abort_all_in_flight_txs,
  any_irrevocable, irrevocable_tx_in_flight, make_irrevocable, raise_priority,
}

module _ {V : Type 0} where
  -- Two irrevocable transactions in flight are of the same thread.
  unfoldable pub Exclusive : System V → Type 0
  Exclusive s =
      (i j : ℕ)
      → has i s.in_flight ≡ true
      → has j s.in_flight ≡ true
      → irrevocable s i ≡ true
      → irrevocable s j ≡ true
      → (s.tx i).thread_id ≡ (s.tx j).thread_id

  pub any_irrevocable-none :
      (s : System V) (t i : ℕ) (is : List ℕ)
      → any_irrevocable s t is ≡ false
      → has i is ≡ true
      → irrevocable s i ≡ true
      → (s.tx i).thread_id ≡ (s.tx t).thread_id
  unfolding any_irrevocable
  any_irrevocable-none s t i [] e h k = cc
  any_irrevocable-none s t i (j ∷ is) e h k = elim (Bool-cases (i == j)) [
    | inl hit ↦
        let same : i ≡ j = (==_iff i j).0 hit in
        let k' : irrevocable s j ≡ true = subst (λ z. irrevocable s z ≡ true) same k in
        subst (λ z. (s.tx z).thread_id ≡ (s.tx t).thread_id) (sym same)
          ((==_iff (s.tx j).thread_id (s.tx t).thread_id).0 (ground arith))
    | inr miss ↦ any_irrevocable-none s t i is (ground arith) (ground arith) k
  ]

  force-spares :
      (t th i : ℕ) (s : System V)
      → is_irrevocable (s.context th).tx_type ≡ true
      → (if same_thread s i t then s else force_to_abort i s).context th ≡ s.context th
  unfolding force_to_abort irrevocable
  force-spares t th i s h = ground arith

  abort_all-spares :
      (t th : ℕ) (is : List ℕ) (s : System V)
      → is_irrevocable (s.context th).tx_type ≡ true
      → (abort_all t is s).context th ≡ s.context th
  unfolding abort_all
  abort_all-spares t th [] s h = refl
  abort_all-spares t th (i ∷ is) s h =
      abort_all-spares t th is _ (ap (λ c. is_irrevocable c.tx_type) (force-spares t th i s h) ∙ h)
      ∙ force-spares t th i s h

  -- `abortAllInFlightTxs` changes nothing of a thread that is irrevocable.
  pub abort_all_in_flight_txs-spares :
      (t th : ℕ) (s : System V)
      → is_irrevocable (s.context th).tx_type ≡ true
      → (abort_all_in_flight_txs t s).context th ≡ s.context th
  unfolding abort_all_in_flight_txs
  abort_all_in_flight_txs-spares t th s h = abort_all-spares t th s.in_flight s h

  -- Who is irrevocable when a thread has been made so.
  abbrev pub made : TxType → ℕ → System V → System V
  made k t s = set_context s t (record (context_of s t) { tx_type = k })

  irrevocable-made :
      (k : TxType) (t i : ℕ) (s : System V)
      → irrevocable (made k t s) i ≡ true
      → (irrevocable s i ≡ true) ⊎ ((s.tx i).thread_id ≡ (s.tx t).thread_id)
  unfolding irrevocable is_irrevocable
  irrevocable-made k t i s e = elim (ℕ_discrete (s.tx i).thread_id (s.tx t).thread_id) [
    | yes same ↦ inr same
    | no other ↦ inl (ground arith)
  ]

  raised-thread :
      (t i : ℕ) (s : System V) → ((raise_priority t s).tx i).thread_id ≡ (s.tx i).thread_id
  unfolding raise_priority
  raised-thread t i s = ground arith

  raised-irrevocable :
      (t i : ℕ) (s : System V) → irrevocable (raise_priority t s) i ≡ irrevocable s i
  unfolding raise_priority irrevocable
  raised-irrevocable t i s = rw (raised-thread t i s) refl

  pub raised-Exclusive : (t : ℕ) (s : System V) → Exclusive s → Exclusive (raise_priority t s)
  unfolding Exclusive raise_priority
  raised-Exclusive t s x i j p q e f =
      raised-thread t i s
      ∙ x i j p q (sym (raised-irrevocable t i s) ∙ e) (sym (raised-irrevocable t j s) ∙ f)
      ∙ sym (raised-thread t j s)

  pub made-Exclusive :
      (k : TxType) (t : ℕ) (s : System V)
      → irrevocable_tx_in_flight s t ≡ false
      → Exclusive (made k t s)
  unfolding Exclusive irrevocable_tx_in_flight
  made-Exclusive k t s alone i j p q e f = owner i p e ∙ sym (owner j q f)
    where
      owner :
          (l : ℕ)
          → has l s.in_flight ≡ true
          → irrevocable (made k t s) l ≡ true
          → (s.tx l).thread_id ≡ (s.tx t).thread_id
      owner l p e = elim (irrevocable-made k t l s e) [
        | inl was ↦ any_irrevocable-none s t l s.in_flight alone p was
        | inr same ↦ same
      ]

  -- A round of `make_irrevocable` by a transaction keeps the irrevocable transactions in flight to
  -- one thread, whatever the round decides, if they were of one thread before it.
  pub make_irrevocable-Exclusive :
      (t : ℕ) (s : System V) → Exclusive s → Exclusive (make_irrevocable t s).0
  unfolding make_irrevocable
  make_irrevocable-Exclusive t s x = elim (Bool-cases (irrevocable s t)) [
    | inl is ↦ rw is x
    | inr not_yet ↦ elim (Bool-cases (irrevocable_tx_in_flight s t)) [
      | inl busy ↦ rw (not_yet, busy) (raised-Exclusive t s x)
      | inr alone ↦ rw (not_yet, alone) (made-Exclusive e_irrevocable_tx t s alone)
    ]
  ]
