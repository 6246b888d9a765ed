-- ===== src/Transaction/Conflicts.antt =====
-- Of two transactions in conflict the one that commits first wins.
pub mod Flags
use tboost_stm.Prelude.{
  ℕ, ◌==◌, ◌≡◌, ◌≢◌, refl, sym, ap, subst, ◌∙◌, true, false, ltb, if◌then◌else◌, List, [], ◌∷◌, has,
  length, map, if_both, if_so, if_not_so, inl, inr, ==-eq_true,
}
use tboost_stm.Contention.{ContentionManager}
use tboost_stm.System.{System, Outcome, returns, throws, final}
use tboost_stm.Transaction.Status.{
  in_flight, forced_to_abort, force_to_abort, irrevocable, same_thread, view,
}
use tboost_stm.Transaction.Abort.{deferred_abort}
use tboost_stm.Transaction.Invalidation.{
  Verdict, aborts, refused, scan, settle, force_all, force_others_accessing,
}
use tboost_stm.Transaction.Invalidation.Scan.{WbloomCovers, Conflict}
use tboost_stm.Transaction.Invalidation.Safety.{IsSettled, force_others_accessing-IsSettled}
use tboost_stm.Transaction.Commit.{
  write_back, commit_or_abort, invalidating_deferred_commit, end,
  invalidating_deferred_end_transaction,
}
use tboost_stm.Transaction.Conflicts.Flags.{Spares, write_back-Spares}

-- The transaction is still in flight, and the policy is the same.
record Stays {V : Type 0} (i : ℕ) (s s' : System V) : Type 0 where
  flying : in_flight s' i ≡ in_flight s i
  policy : s'.direct_updating ≡ s.direct_updating

module _ {V : Type 0} (i : ℕ) where
  force_to_abort-Stays : (j : ℕ) (s : System V) → Stays i s (force_to_abort j s)
  unfolding force_to_abort
  force_to_abort-Stays j s =
      if_both (Stays i s) (irrevocable s j) _ _ (record { flying = refl; policy = refl })
        (record { flying = refl; policy = refl })

  force_all-Stays : (l : List ℕ) (s : System V) → Stays i s (force_all l s)
  unfolding force_all
  force_all-Stays [] s = record { flying = refl; policy = refl }
  force_all-Stays (j ∷ l) s =
      let a = force_to_abort-Stays j s in
      let b = force_all-Stays l (force_to_abort j s) in
      record { flying = b.flying ∙ a.flying; policy = b.policy ∙ a.policy }

  abbrev StaysAfter : System V → Outcome V (Unit {0}) → Type 0
  StaysAfter s (returns _ s') = Stays i s s'
  StaysAfter s (throws s') = Stays i s s'

module _ {V : Type 0} (hash : ℕ → ℕ × ℕ) (cm : ContentionManager) where
  settle-Stays : (i t : ℕ) (s : System V) (v : Verdict) → StaysAfter i s (settle hash cm t s v)
  settle-Stays i t s refused = force_to_abort-Stays i t s
  settle-Stays i t s (aborts []) = record { flying = refl; policy = refl }
  settle-Stays i t s (aborts (j ∷ js)) =
      if_both (StaysAfter i s) (cm.permission_to_abort_all (view s t) (map (view s) (j ∷ js))) _ _
        (force_all-Stays i (j ∷ js) s) (force_to_abort-Stays i t s)

  force_others_accessing-Stays :
      (i t : ℕ) (s : System V) → StaysAfter i s (force_others_accessing hash cm t s)
  unfolding force_others_accessing
  force_others_accessing-Stays i t s = settle-Stays i t s (scan hash cm s t s.in_flight (aborts []))

module _ {V : Type 0} (hash : ℕ → ℕ × ℕ) (cm : ContentionManager) (now : ℕ) where
  -- A commit that returns has settled the conflicts and written back.
  committed_from :
      (t : ℕ) (s' : System V) (o : Outcome V (Unit {0}))
      → commit_or_abort hash cm now t o ≡ returns tt s'
      → (s1 : System V) × (o ≡ returns tt s1) × (s' ≡ write_back now t s1)
  committed_from t s' (returns _ s1) e = (s1, refl, sym (ap final e))
  committed_from t s' (throws s1) e = cc

  end-forced :
      (i : ℕ) (s : System V)
      → in_flight s i ≡ true
      → s.direct_updating ≡ false
      → forced_to_abort s i ≡ true
      → end hash cm now i s ≡ throws (deferred_abort i s)
  unfolding end invalidating_deferred_end_transaction
  end-forced i s flying deferred forced =
      if_so _ _ _ flying ∙ if_not_so _ _ _ deferred ∙ if_so _ _ _ forced

  forced_still :
      (t i : ℕ) (s s1 : System V)
      → irrevocable s i ≡ false
      → IsSettled s s1 t i
      → forced_to_abort s1 i ≡ true
  forced_still t i s s1 free (inl f) = f
  forced_still t i s s1 free (inr both) = let z = both.1 in cc

different_thread : {V : Type 0} (t i : ℕ) (s : System V) → same_thread s i t ≡ false → t ≢ i
different_thread t i s other z =
    let h : ((s.tx i).thread_id == (s.tx t).thread_id) ≡ true =
      ==-eq_true _ _ (ap (λ q. (s.tx q).thread_id) (sym z)) in
    cc

module _ {V : Type 0} (hash : ℕ → ℕ × ℕ) (cm : ContentionManager) where
  -- The first to commit wins: once a transaction has committed with deferred updating, another one in
  -- flight of another thread that has accessed what it wrote cannot commit any more, but its end
  -- throws and aborts it. The other one is not irrevocable and was not forced to abort before, and
  -- the write filter holds the write list.
  pub end-commit :
      (now later t i a : ℕ) (s s' : System V)
      → WbloomCovers hash s t
      → s.direct_updating ≡ false
      → ltb 1 (length s.in_flight) ≡ true
      → has i s.in_flight ≡ true
      → in_flight s i ≡ true
      → forced_to_abort s i ≡ false
      → irrevocable s i ≡ false
      → same_thread s i t ≡ false
      → Conflict hash s t i a
      → invalidating_deferred_commit hash cm now t s ≡ returns tt s'
      → end hash cm later i s' ≡ throws (deferred_abort i s')
  unfolding invalidating_deferred_commit
  end-commit now later t i a s s' covers deferred many listed flying free revocable other c e =
      let e' = ap (commit_or_abort hash cm now t) (sym (if_so _ _ _ many)) ∙ e in
      let (s1, f, g) = committed_from hash cm now t s' (force_others_accessing hash cm t s) e' in
      let k = subst (StaysAfter i s) f (force_others_accessing-Stays hash cm i t s) in
      let apart : t ≢ i = different_thread t i s other in
      let w = write_back-Spares i now t s1 apart in
      let forced =
        forced_still hash cm now t i s s1 revocable
          (force_others_accessing-IsSettled hash cm s s1 t i a covers listed free other c f) in
      subst (λ z. end hash cm later i z ≡ throws (deferred_abort i z)) (sym g)
        (end-forced hash cm later i (write_back now t s1) (w.flying ∙ k.flying ∙ flying)
          (w.policy ∙ k.policy ∙ deferred) (w.flag ∙ forced))
