-- ===== src/Contention/Fairness.antt =====
-- What the policies of boost/stm/contention_manager.hpp decide, without their loops.
use tboost_stm.Prelude.{◌≤◌, ◌≡◌, refl, true, ◌↔◌, List, [], ◌∷◌, arith, All}
use tboost_stm.Contention.{TxView, thread_fair_permission}

-- `threadFair` gives permission exactly when each transaction that is to be aborted has at least as
-- many commits as the one that aborts it.
pub thread_fair_permission-All :
    (lhs : TxView) (rhs : List TxView)
    → (thread_fair_permission lhs rhs ≡ true) ↔ All (λ r. lhs.commits ≤ r.commits) rhs
unfolding thread_fair_permission
thread_fair_permission-All lhs [] = ((λ e. tt), λ k. refl)
thread_fair_permission-All lhs (r ∷ rhs) =
    let rest = thread_fair_permission-All lhs rhs in
    (
      (λ e. let first : lhs.commits ≤ r.commits = ground arith in (first, rest.0 (ground arith))),
      λ k. let below = k.0 in let after = rest.1 k.1 in ground arith,
    )
