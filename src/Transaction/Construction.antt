-- ===== src/Transaction/Construction.antt =====
-- boost/stm/detail/transaction_impl.hpp: the constructor of a transaction.
use tboost_stm.Prelude.{ℕ, if◌then◌else◌, Option, none}
use tboost_stm.System.{System, e_no_state, context_of, set_tx}
use tboost_stm.Transaction.Status.{put_tx_inflight}
use tboost_stm.Transaction.Deletions.{do_interval_deletions}

module _ {V : Type 0} where
  -- `transaction()` up to its wait: the transaction `t` of the thread `th`, at the time `now`.
  unfoldable pub create : ℕ → ℕ → ℕ → System V → System V
  unfolding do_interval_deletions
  create now th t s = do_interval_deletions (
      set_tx s t
        (record { thread_id = th; priority = 0; state = e_no_state; reads = 0; start_time = now }))

  -- One round of the rest: it waits while the thread is blocked, and for `put_tx_inflight`.
  unfoldable pub enter : ℕ → System V → Option (System V)
  unfolding put_tx_inflight
  enter t s = if (context_of s t).blocked then none else put_tx_inflight t s
