-- ===== src/TransactionsStack.antt =====
-- boost/stm/detail/transactions_stack.hpp: the transactions of a thread, the innermost first. Under
-- them lies the null pointer, so that there always is a current one.
use tboost_stm.Prelude.{ℕ, List, [], ◌∷◌, Option, none, some, length}

-- The constructor.
abbrev pub new_stack : List ℕ
new_stack = 0 ∷ []

unfoldable pub push : ℕ → List ℕ → List ℕ
push ptr stack = ptr ∷ stack

-- `none` where `std::stack` leaves the behaviour open.
unfoldable pub pop : List ℕ → Option (List ℕ)
pop [] = none
pop (ptr ∷ stack) = some stack

unfoldable pub size : List ℕ → ℕ
size stack = length stack

unfoldable pub top : List ℕ → Option ℕ
top [] = none
top (ptr ∷ stack) = some ptr
