-- ===== src/Transaction/Binding.antt =====
-- boost/stm/transaction.hpp: objects that are bound to an object, so that who reads it reads them. The
-- map `threadBoundObjects_` is a list in the order of the keys.
pub mod Bonds
use tboost_stm.Prelude.{ℕ, ltb, ◌==◌, if◌then◌else◌, List, [], ◌∷◌}
use tboost_stm.Contention.{ContentionManager}
use tboost_stm.System.{System, Outcome, returns, throws}
use tboost_stm.Transaction.Access.{read}

-- `bind`: a `std::multimap` puts a pair behind those with its key.
unfoldable pub bind : ℕ → ℕ → List (ℕ × ℕ) → List (ℕ × ℕ)
bind lhs rhs [] = (lhs, rhs) ∷ []
bind lhs rhs ((k, b) ∷ m) = if ltb lhs k then (lhs, rhs) ∷ (k, b) ∷ m else (k, b) ∷ bind lhs rhs m

-- `unbind` of an object, and of a pair: both take a lock and release it.
unfoldable pub unbind : ℕ → List (ℕ × ℕ) → List (ℕ × ℕ)
unbind lhs m = m

unfoldable pub unbind_pair : ℕ → ℕ → List (ℕ × ℕ) → List (ℕ × ℕ)
unbind_pair lhs rhs m = m

-- The objects of the pairs with the key, from the first such pair up to one with another key.
unfoldable pub bound_run : ℕ → List (ℕ × ℕ) → List ℕ
bound_run lhs [] = []
bound_run lhs ((k, b) ∷ m) = if k == lhs then b ∷ bound_run lhs m else []

-- `threadBoundObjects_.find(lhs)`, and the pairs from there on
unfoldable pub bound_to : ℕ → List (ℕ × ℕ) → List ℕ
unfolding bound_run
bound_to lhs [] = []
bound_to lhs ((k, b) ∷ m) = if k == lhs then b ∷ bound_run lhs m else bound_to lhs m

module _ {V : Type 0} (hash : ℕ → ℕ × ℕ) (cm : ContentionManager) where
  abbrev pub and_go_on : (System V → Outcome V (Unit {0})) → Outcome V ℕ → Outcome V (Unit {0})
  and_go_on f (returns r s) = f s
  and_go_on f (throws s) = throws s

  -- The reads of the loop; an exception leaves it.
  unfoldable pub read_all : ℕ → List ℕ → System V → Outcome V (Unit {0})
  unfolding read
  read_all t [] s = returns tt s
  read_all t (b ∷ bs) s = and_go_on (read_all t bs) (read hash cm t b s)

  -- `if_bound_perform_subreads`
  unfoldable pub if_bound_perform_subreads : List (ℕ × ℕ) → ℕ → ℕ → System V → Outcome V (Unit {0})
  unfolding read_all bound_to
  if_bound_perform_subreads bound t lhs s = read_all t (bound_to lhs bound) s
