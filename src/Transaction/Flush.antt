-- ===== src/Transaction/Flush.antt =====
-- boost/stm/detail/transaction_impl.hpp: `commit_deferred_update_tx`, which writes an irrevocable
-- transaction's memory back while it stays in flight.
use tboost_stm.Prelude.{ℕ, not, if◌then◌else◌, Option, none, some}
use tboost_stm.System.{System}
use tboost_stm.Transaction.Status.{irrevocable, is_only_reading}
use tboost_stm.Transaction.Deletions.{commit_deleted_memory}
use tboost_stm.Transaction.Commit.{deferred_commit_write_state, commit_new_memory}

module _ {V : Type 0} where
  -- `commit_deferred_update_tx`; `none` where it throws a `char const*`.
  unfoldable pub commit_deferred_update_tx : ℕ → ℕ → System V → Option (System V)
  unfolding deferred_commit_write_state commit_new_memory commit_deleted_memory irrevocable
      is_only_reading
  commit_deferred_update_tx now t s =
      if not (irrevocable s t)
      then none
      else if is_only_reading s t
      then some s
      else some
          (commit_deleted_memory now t (commit_new_memory t (deferred_commit_write_state t s)))
