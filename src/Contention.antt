-- ===== src/Contention.antt =====
-- boost/stm/contention_manager.hpp, libs/stm/src/contention_manager.cpp and the classes
-- `base_contention_manager` and `DefaultContentionManager` of boost/stm/base_transaction.hpp.
-- What a manager decides is the interface of the transactions; the managers implement it.
pub mod Fairness
use tboost_stm.Prelude.{
  ℕ, ◌+◌, ◌*◌, Bool, true, false, ltb, leb, if◌then◌else◌, ◌||◌, List, [], ◌∷◌,
}

-- What a manager reads of a transaction.
pub record TxView : Type 0 where
  pub writes : ℕ
  pub reads : ℕ
  pub priority : ℕ
  pub commits : ℕ

-- `base_contention_manager`. The notices `abort_on_*` either do nothing or abort the transaction and
-- throw; the flag says which.
pub record ContentionManager : Type 0 where
  pub abort_on_new : Bool
  pub abort_on_write : Bool
  pub permission_to_abort : TxView → TxView → Bool
  pub permission_to_abort_all : TxView → List TxView → Bool
  -- The time waited, the refusals so far, whether the lock's transaction is irrevocable.
  pub allow_lock_to_abort_tx : ℕ → ℕ → Bool → TxView → Bool

-- `enum eContentionManager`, the policies of the list form of `permission_to_abort`; the two that
-- compute in floating point are left out.
pub data Policy : Type 0 where
  aggr thread_fair balanced : Policy

-- `threadFair`: no transaction that is to be aborted has fewer commits.
unfoldable pub thread_fair_permission : TxView → List TxView → Bool
thread_fair_permission lhs [] = true
thread_fair_permission lhs (r ∷ rhs) =
    if ltb r.commits lhs.commits then false else thread_fair_permission lhs rhs

-- The variables of the loop of `iBalanced`; its doubles hold sums of integers.
pub record Totals : Type 0 where
  pub abort_set_size : ℕ
  pub abort_priority : ℕ
  pub highest_priority : ℕ
  pub has_largest_read_set : Bool
  pub has_fewest_commits : Bool

unfoldable pub balanced_loop : TxView → Totals → List TxView → Totals
balanced_loop lhs a [] = a
balanced_loop lhs a (r ∷ rhs) =
    balanced_loop lhs
      (record {
        abort_set_size = a.abort_set_size + (r.writes + r.reads);
        abort_priority = a.abort_priority + (r.priority + 1);
        highest_priority =
            if ltb a.highest_priority r.priority then r.priority else a.highest_priority;
        has_largest_read_set = if ltb lhs.reads r.reads then false else a.has_largest_read_set;
        has_fewest_commits = if ltb r.commits lhs.commits then false else a.has_fewest_commits;
      })
      rhs

abbrev pub no_totals : Totals
no_totals = record {
  abort_set_size = 0;
  abort_priority = 0;
  highest_priority = 0;
  has_largest_read_set = true;
  has_fewest_commits = true;
}

-- The tests of `iBalanced` behind its loop. The products are in the range of `int`.
unfoldable pub balanced_verdict : TxView → Totals → Bool
balanced_verdict lhs a =
    let set_size = lhs.writes * (lhs.priority + 3) + lhs.reads * (lhs.priority + 1) in
    let this_priority = lhs.priority * (if a.has_fewest_commits then 3 else 1) in
    if leb a.highest_priority this_priority
    then true
    else if a.has_largest_read_set || a.has_fewest_commits
    then true
    else let scaled = if a.has_fewest_commits then set_size * 3 else set_size in
      leb (a.abort_priority + a.abort_set_size) scaled

unfoldable pub balanced_permission : TxView → List TxView → Bool
unfolding balanced_loop balanced_verdict
balanced_permission lhs rhs = balanced_verdict lhs (balanced_loop lhs no_totals rhs)

-- `ExceptAndBackOffOnAbortNoticeCM::permission_to_abort` by `currentCm`.
unfoldable pub permission : Policy → TxView → List TxView → Bool
unfolding thread_fair_permission balanced_permission
permission aggr lhs rhs = true
permission thread_fair lhs rhs = thread_fair_permission lhs rhs
permission balanced lhs rhs = balanced_permission lhs rhs

-- `ExceptAndBackOffOnAbortNoticeCM::allow_lock_to_abort_tx`
unfoldable pub back_off_lock : ℕ → ℕ → Bool → TxView → Bool
back_off_lock wait_time aborted irrevocable rhs =
    if irrevocable then true else ltb (100 * rhs.writes) wait_time

-- `ExceptAndBackOffOnAbortNoticeCM`
unfoldable pub except_and_back_off : Policy → ContentionManager
except_and_back_off p = record {
  abort_on_new = true;
  abort_on_write = true;
  permission_to_abort = λ lhs rhs. true;
  permission_to_abort_all = permission p;
  allow_lock_to_abort_tx = back_off_lock;
}

-- `DefaultContentionManager::allow_lock_to_abort_tx`
unfoldable pub default_lock : ℕ → ℕ → Bool → TxView → Bool
default_lock wait_time aborted irrevocable rhs =
    if irrevocable then true else ltb (100 + 100 * rhs.writes) wait_time

-- `DefaultContentionManager`; the list form is the base class's.
unfoldable pub default_manager : ContentionManager
default_manager = record {
  abort_on_new = true;
  abort_on_write = true;
  permission_to_abort = λ lhs rhs. true;
  permission_to_abort_all = λ lhs rhs. true;
  allow_lock_to_abort_tx = default_lock;
}

-- `NoExceptionOnAbortNoticeOnReadWritesCM`, which ignores the notices; the rest is that of the
-- manager that derives from it.
unfoldable pub no_exception : ContentionManager → ContentionManager
no_exception cm = record cm { abort_on_new = false; abort_on_write = false }

-- `ExceptAndBackOffOnAbortNoticeCM::abort_before_commit`: whether a transaction in flight has a higher
-- priority.
unfoldable pub abort_before_commit : TxView → List TxView → Bool
abort_before_commit t [] = false
abort_before_commit t (i ∷ is) = ltb t.priority i.priority || abort_before_commit t is

-- The members of `ExceptAndBackOffOnAbortNoticeCM`, as its constructor sets them.
pub record BackOff : Type 0 where
  pub sleep_time : ℕ
  pub k_sleep_factor_increase : ℕ
  pub k_max_sleep_time : ℕ
  pub k_max_increases : ℕ
  pub initial_sleep_time : ℕ

-- The constructor; the product is in the range of `int`.
unfoldable pub new_back_off : ℕ → ℕ → ℕ → BackOff
new_back_off initial increase max_increases = record {
  sleep_time = initial;
  k_sleep_factor_increase = increase;
  k_max_sleep_time = increase * initial * max_increases;
  k_max_increases = max_increases;
  initial_sleep_time = initial;
}
