-- ===== src/VectorMap.antt =====
-- boost/stm/detail/vector_map.hpp: `vector_map<T, U>`, a map kept in a vector of pairs, at the key
-- types that the library instantiates it with (`size_t` and pointers, here numbers).
-- An iterator is the index that it stands at; `end()` is the size.
pub mod Laws
use tboost_stm.Prelude.{ℕ, zero, suc, ◌==◌, if◌then◌else◌, List, [], ◌∷◌, ◌++◌, Option, none, some}

module _ {ℓ} {U : Type ℓ} where
  -- `pairs_[val].second`, by the index `val`.
  pub second : List (ℕ × U) → ℕ → Option U
  second [] i = none
  second ((t, u) ∷ m) zero = some u
  second ((t, u) ∷ m) (suc i) = second m i

  -- `pairs_.erase(iter)`: the elements behind it move down.
  pub erase : ℕ → List (ℕ × U) → List (ℕ × U)
  erase i [] = []
  erase zero (p ∷ m) = m
  erase (suc i) (p ∷ m) = p ∷ erase i m

  -- The index of the first pair with the key, or the size.
  pub find : ℕ → List (ℕ × U) → ℕ
  find t [] = 0
  find t ((k, u) ∷ m) = if t == k then 0 else suc (find t m)

  -- The result of the loop of `insert`, one element further on.
  pub later : ℕ × U → Option (ℕ × List (ℕ × U)) → Option (ℕ × List (ℕ × U))
  later p none = none
  later p (some (i, m)) = some (suc i, p ∷ m)

  -- The loop of `insert`: writes the value at the first pair with the key, if there is one.
  pub overwrite : ℕ × U → List (ℕ × U) → Option (ℕ × List (ℕ × U))
  unfolding later
  overwrite (f, v) [] = none
  overwrite (f, v) ((k, u) ∷ m) =
      if f == k then some (0, (k, v) ∷ m) else later (k, u) (overwrite (f, v) m)

  -- `insert` appends a new pair and calls itself to find it; the fuel counts the calls.
  pub insert_calls : ℕ → ℕ × U → List (ℕ × U) → Option (ℕ × List (ℕ × U))
  insert_calls zero wp m = none
  insert_calls (suc calls) wp m =
      let again = insert_calls calls wp (m ++ wp ∷ []) in
      elim (overwrite wp m) [ some r ↦ some r | none ↦ again ]

  -- Two calls are enough: `insert-Writes`.
  pub insert : ℕ × U → List (ℕ × U) → Option (ℕ × List (ℕ × U))
  unfolding insert_calls
  insert = insert_calls 2
