-- ===== src/Transaction/Policy.antt =====
-- boost/stm/transaction.hpp: the update policy and the time at which conflicts are found.
use tboost_stm.Prelude.{ℕ, ◌≡◌, refl, Bool, true, false, not, ◌&&◌, ◌||◌, List, [], ◌∷◌, arith}
use tboost_stm.System.{System}
use tboost_stm.Transaction.Access.{if_idle, do_direct_updating, do_deferred_updating}

-- The calls that set the policy.
pub data PolicyCall : Type 0 where
  ask_direct : PolicyCall
  ask_deferred : PolicyCall
  ask_early : PolicyCall
  ask_late : PolicyCall

module _ {V : Type 0} where
  abbrev pub deferred_updating : System V → Bool
  deferred_updating s = not s.direct_updating

  unfoldable pub early_conflict_detection : System V → Bool
  early_conflict_detection s = not s.direct_late_write_read_conflict && s.direct_updating

  unfoldable pub late_conflict_detection : System V → Bool
  late_conflict_detection s = s.direct_late_write_read_conflict || not s.direct_updating

  -- What an idle `do_early_conflict_detection` does, by whether updating is deferred.
  abbrev pub set_early : Bool → System V → Bool × System V
  set_early true s = (false, s)
  set_early false s = (true, record s { direct_late_write_read_conflict = false })

  unfoldable pub do_early_conflict_detection : System V → Bool × System V
  do_early_conflict_detection s = if_idle s.in_flight (set_early (deferred_updating s) s) s

  unfoldable pub do_late_conflict_detection : System V → Bool × System V
  do_late_conflict_detection s =
      if_idle s.in_flight (true, record s { direct_late_write_read_conflict = true }) s

  abbrev pub set_policy : PolicyCall → System V → Bool × System V
  set_policy ask_direct s = do_direct_updating s
  set_policy ask_deferred s = do_deferred_updating s
  set_policy ask_early s = do_early_conflict_detection s
  set_policy ask_late s = do_late_conflict_detection s

  -- What the call asks for.
  abbrev pub in_force : PolicyCall → System V → Bool
  in_force ask_direct s = s.direct_updating
  in_force ask_deferred s = deferred_updating s
  in_force ask_early s = early_conflict_detection s
  in_force ask_late s = late_conflict_detection s

  -- Conflicts are found either early or late, never both and never neither.
  pub early_conflict_detection-late :
      (s : System V) → early_conflict_detection s ≡ not (late_conflict_detection s)
  unfolding early_conflict_detection late_conflict_detection
  early_conflict_detection-late s = de_morgan s.direct_late_write_read_conflict s.direct_updating
    where
      de_morgan : (a b : Bool) → (not a && b) ≡ not (a || not b)
      de_morgan true b = refl
      de_morgan false true = refl
      de_morgan false false = refl

  if_idle-granted :
      (P : System V → Bool) (l : List ℕ) (r : Bool × System V) (s : System V)
      → (r.0 ≡ true → P r.1 ≡ true)
      → (if_idle l r s).0 ≡ true
      → P (if_idle l r s).1 ≡ true
  if_idle-granted P [] r s f e = f e
  if_idle-granted P (i ∷ is) r s f e = cc

  if_idle-kept :
      (l : List ℕ) (r : Bool × System V) (s : System V)
      → (r.0 ≡ false → r.1 ≡ s)
      → (if_idle l r s).0 ≡ false
      → (if_idle l r s).1 ≡ s
  if_idle-kept [] r s f e = f e
  if_idle-kept (i ∷ is) r s f e = refl

  early_granted :
      (deferred : Bool) (s : System V)
      → deferred_updating s ≡ deferred
      → (set_early deferred s).0 ≡ true
      → early_conflict_detection (set_early deferred s).1 ≡ true
  unfolding early_conflict_detection
  early_granted true s h e = cc
  early_granted false s h e = ground arith

  early_kept :
      (deferred : Bool) (s : System V)
      → (set_early deferred s).0 ≡ false
      → (set_early deferred s).1 ≡ s
  early_kept true s e = refl
  early_kept false s e = cc

  -- A call that returns true has put in force what it asks for.
  pub set_policy-in_force :
      (c : PolicyCall) (s : System V)
      → (set_policy c s).0 ≡ true
      → in_force c (set_policy c s).1 ≡ true
  unfolding do_direct_updating do_deferred_updating do_early_conflict_detection
      do_late_conflict_detection early_conflict_detection late_conflict_detection
  set_policy-in_force ask_direct s e =
      if_idle-granted (in_force ask_direct) s.in_flight _ s (λ h. refl) e
  set_policy-in_force ask_deferred s e =
      if_idle-granted (in_force ask_deferred) s.in_flight _ s (λ h. refl) e
  set_policy-in_force ask_early s e =
      if_idle-granted (in_force ask_early) s.in_flight _ s
        (early_granted (deferred_updating s) s refl) e
  set_policy-in_force ask_late s e =
      if_idle-granted (in_force ask_late) s.in_flight _ s (λ h. refl) e

  -- A call that returns false leaves the state as it is.
  pub set_policy-refused :
      (c : PolicyCall) (s : System V) → (set_policy c s).0 ≡ false → (set_policy c s).1 ≡ s
  unfolding do_direct_updating do_deferred_updating do_early_conflict_detection
      do_late_conflict_detection
  set_policy-refused ask_direct s e = if_idle-kept s.in_flight _ s (λ h. cc) e
  set_policy-refused ask_deferred s e = if_idle-kept s.in_flight _ s (λ h. cc) e
  set_policy-refused ask_early s e =
      if_idle-kept s.in_flight _ s (early_kept (deferred_updating s) s) e
  set_policy-refused ask_late s e = if_idle-kept s.in_flight _ s (λ h. cc) e
