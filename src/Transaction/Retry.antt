-- ===== src/Transaction/Retry.antt =====
-- boost/stm/transaction.hpp: the loops that repeat a client's block until its transaction has
-- committed, the macros `atomic`, `try_atomic` and `use_atomic`.
use tboost_stm.Prelude.{ℕ, zero, suc, Bool, true, false, ◌||◌, if◌then◌else◌}
use tboost_stm.Contention.{ContentionManager}
use tboost_stm.System.{
  System, TransactionState, e_no_state, e_aborted, e_committed, e_hand_off, e_in_flight, Outcome,
  returns, throws, final,
}
use tboost_stm.Transaction.Status.{in_flight, other_in_flight_same_thread}
use tboost_stm.Transaction.Abort.{Restarted, waiting, restarted, restart}
use tboost_stm.Transaction.Commit.{end}
use tboost_stm.Transaction.Access.{restart_if_not_inflight}

abbrev pub is_committed : TransactionState → Bool
is_committed e_no_state = false
is_committed e_aborted = false
is_committed e_committed = true
is_committed e_hand_off = true
is_committed e_in_flight = false

-- What one round of a loop comes to: the loop is over; an exception leaves it; the thread waits in
-- the round's condition; the next round begins.
pub data Round (V : Type 0) : Type 0 where
  ends escapes waits repeats : System V → Round V

module _ {V : Type 0} where
  -- `committed()`
  abbrev pub committed : System V → ℕ → Bool
  committed s t = is_committed (s.tx t).state

  -- `check_throw_before_restart`
  unfoldable pub check_throw_before_restart : ℕ → System V → Outcome V Bool
  unfolding other_in_flight_same_thread
  check_throw_before_restart t s =
      if in_flight s t || committed s t
      then returns true s
      else if other_in_flight_same_thread s t
      then throws s
      else returns true s

  abbrev pub next_round : (System V → Round V) → Round V → Round V
  next_round f (ends s) = ends s
  next_round f (escapes s) = escapes s
  next_round f (waits s) = waits s
  next_round f (repeats s) = f s

  -- The loop over the rounds, at most as many as the fuel counts.
  unfoldable pub rounds : ℕ → (System V → Round V) → System V → Round V
  rounds zero f s = repeats s
  rounds (suc n) f s = next_round (rounds n f) (f s)

module _ {V : Type 0} (hash : ℕ → ℕ × ℕ) (cm : ContentionManager) (now : ℕ) where
  -- `no_throw_end`
  unfoldable pub no_throw_end : ℕ → System V → System V
  unfolding end
  no_throw_end t s = final (end hash cm now t s)

  -- The block has ended, or its handler has caught the exception of an aborted transaction.
  abbrev pub repeat_caught : ℕ → Outcome V (Unit {0}) → Round V
  unfolding no_throw_end
  repeat_caught t o = repeats (no_throw_end t (final o))

  abbrev escape_thrown : Outcome V (Unit {0}) → Round V
  escape_thrown (returns _ s) = repeats s
  escape_thrown (throws s) = escapes s

  -- `T.end()` after the block; an exception of the block leaves the loop at once.
  abbrev end_block : ℕ → Outcome V (Unit {0}) → Round V
  unfolding end
  end_block t (returns _ s) = escape_thrown (end hash cm now t s)
  end_block t (throws s) = escapes s

  module _ (body : System V → Outcome V (Unit {0})) (t : ℕ) where
    -- The rest of a round of `atomic(T)`, after its first two conditions.
    abbrev pub run_restarted : Restarted V → Round V
    unfolding no_throw_end
    run_restarted (waiting s) = waits s
    run_restarted (restarted s) = repeat_caught t (body s)

    abbrev pub checked : Outcome V Bool → Round V
    unfolding no_throw_end restart_if_not_inflight
    checked (throws s) = escapes s
    checked (returns _ s) = run_restarted (restart_if_not_inflight t s)

    -- One round of `atomic(T)`.
    unfoldable pub atomic_round : System V → Round V
    unfolding check_throw_before_restart restart_if_not_inflight no_throw_end
    atomic_round s = if committed s t then ends s else checked (check_throw_before_restart t s)

    -- One round of `try_atomic(T)`.
    unfoldable pub try_atomic_round : System V → Round V
    unfolding restart no_throw_end
    try_atomic_round s = if committed s t then ends s else run_restarted (restart t s)

    -- One round of `use_atomic(T)`.
    unfoldable pub use_atomic_round : System V → Round V
    unfolding restart end
    use_atomic_round s =
        if committed s t
        then ends s
        else elim (restart t s) [ waiting s' ↦ waits s' | restarted s' ↦ end_block t (body s') ]
