-- ===== src/Transaction/Invalidation/Safety.antt =====
-- No conflict survives a commit: what is done with the transactions that a scan collects.
use tboost_stm.Prelude.{
  ℕ, true, false, ◌≡◌, ap, subst, ◌∙◌, ◌==◌, ◌⊎◌, inl, inr, List, [], ◌∷◌, map, has, arith, All,
  All-has, Bool-cases, ==_iff,
}
use tboost_stm.Contention.{ContentionManager}
use tboost_stm.System.{System, returns, throws, final}
use tboost_stm.Transaction.Status.{irrevocable, forced_to_abort, force_to_abort, same_thread, view}
use tboost_stm.Transaction.Invalidation.{
  Verdict, aborts, refused, scan, force_all, settle, force_others_accessing,
}
use tboost_stm.Transaction.Invalidation.Scan.{
  Lists, MayAbort, AllMayAbort, WbloomCovers, Conflict, scan-hit, scan-AllMayAbort,
}

module _ {V : Type 0} where
  -- What `force_to_abort` leaves alone.
  force_irrevocable :
      (i j : ℕ) (s : System V) → irrevocable (force_to_abort i s) j ≡ irrevocable s j
  unfolding force_to_abort irrevocable
  force_irrevocable i j s = ground arith

  force_forced :
      (i j : ℕ) (s : System V)
      → forced_to_abort s j ≡ true
      → forced_to_abort (force_to_abort i s) j ≡ true
  unfolding force_to_abort irrevocable
  force_forced i j s h = ground arith

  force_self :
      (i : ℕ) (s : System V)
      → irrevocable s i ≡ false
      → forced_to_abort (force_to_abort i s) i ≡ true
  unfolding force_to_abort
  force_self i s h = ground arith

  force_all-forced :
      (l : List ℕ) (i : ℕ) (s : System V)
      → forced_to_abort s i ≡ true
      → forced_to_abort (force_all l s) i ≡ true
  unfolding force_all
  force_all-forced [] i s h = h
  force_all-forced (j ∷ l) i s h = force_all-forced l i (force_to_abort j s) (force_forced j i s h)

  pub force_all-hit :
      (l : List ℕ) (i : ℕ) (s : System V)
      → has i l ≡ true
      → irrevocable s i ≡ false
      → forced_to_abort (force_all l s) i ≡ true
  unfolding force_all
  force_all-hit [] i s h r = cc
  force_all-hit (j ∷ l) i s h r = elim (Bool-cases (i == j)) [
    | inl hit ↦
        let same : i ≡ j = (==_iff i j).0 hit in
        force_all-forced l i (force_to_abort j s) (rw (← same) (force_self i s r))
    | inr miss ↦ force_all-hit l i (force_to_abort j s) (ground arith) (force_irrevocable j i s ∙ r)
  ]

  -- The transaction is forced to abort, or both it and the committing one are irrevocable.
  abbrev pub IsSettled : System V → System V → ℕ → ℕ → Type 0
  IsSettled s s' me i =
      (forced_to_abort s' i ≡ true) ⊎ ((irrevocable s me ≡ true) × (irrevocable s i ≡ true))

module _ {V : Type 0} (hash : ℕ → ℕ × ℕ) (cm : ContentionManager) where
  IsSettled-by_force :
      (s : System V) (me i : ℕ) (l : List ℕ)
      → All (MayAbort s me) l
      → has i l ≡ true
      → IsSettled s (force_all l s) me i
  IsSettled-by_force s me i l ok h = elim (Bool-cases (irrevocable s i)) [
    | inr r ↦ inl (force_all-hit l i s h r)
    | inl r ↦ elim (All-has (MayAbort s me) i l ok h) [ inl m ↦ inr (m, r) | inr n ↦ cc ]
  ]

  settle_cases :
      (s s' : System V) (me i : ℕ) (v : Verdict)
      → Lists i v
      → AllMayAbort s me v
      → settle hash cm me s v ≡ returns tt s'
      → IsSettled s s' me i
  settle_cases s s' me i refused h k e = cc
  settle_cases s s' me i (aborts []) h k e = cc
  settle_cases s s' me i (aborts (j ∷ l)) h k e =
      elim (Bool-cases (cm.permission_to_abort_all (view s me) (map (view s) (j ∷ l)))) [
        | inl granted ↦
            let e' : returns tt (force_all (j ∷ l) s) ≡ returns tt s' = rw granted at e in
            subst (λ z. IsSettled s z me i) (ap final e') (IsSettled-by_force s me i (j ∷ l) k h)
        | inr denied ↦ let e' : throws (force_to_abort me s) ≡ returns tt s' = rw denied at e in cc
      ]

  -- When the invalidation of a commit returns, a transaction in flight of another thread that was not
  -- forced to abort, and whose Bloom filter holds an object of the committing write list, is forced to
  -- abort, whether the write list is compared object by object or by the intersection of the filters;
  -- the one exception is that both transactions are irrevocable. The write filter has to hold the
  -- write list.
  pub force_others_accessing-IsSettled :
      (s s' : System V) (me i a : ℕ)
      → WbloomCovers hash s me
      → has i s.in_flight ≡ true
      → forced_to_abort s i ≡ false
      → same_thread s i me ≡ false
      → Conflict hash s me i a
      → force_others_accessing hash cm me s ≡ returns tt s'
      → IsSettled s s' me i
  unfolding force_others_accessing
  force_others_accessing-IsSettled s s' me i a covers flying free other c e =
      settle_cases s s' me i (scan hash cm s me s.in_flight (aborts []))
        (scan-hit hash cm s me s.in_flight i a (aborts []) covers flying free other c)
        (scan-AllMayAbort hash cm s me s.in_flight (aborts []) tt) e
