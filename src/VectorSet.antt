-- ===== src/VectorSet.antt =====
-- boost/stm/detail/vector_set.hpp: `vector_set`, a set in a `std::vector`, of numbers.
-- An iterator is the index of an element. `find` compares an element with an iterator, which no
-- instance compiles, so that it has no function here.
pub mod Laws
use tboost_stm.Prelude.{
  ℕ, zero, suc, ◌==◌, if◌then◌else◌, List, [], ◌∷◌, ◌++◌, Option, none, some, length,
}

-- The loop of `insert`: the index of the first element that is equal, counted from the given one.
unfoldable pub index_from : ℕ → ℕ → List ℕ → Option ℕ
index_from i rhs [] = none
index_from i rhs (x ∷ xs) = if rhs == x then some i else index_from (suc i) rhs xs

unfoldable pub insert : ℕ → List ℕ → ℕ × List ℕ
unfolding index_from
insert rhs elements = elim (index_from 0 rhs elements) [
  | some i ↦ (i, elements)
  | none ↦ (length elements, elements ++ rhs ∷ [])
]

unfoldable pub erase : ℕ → List ℕ → List ℕ
erase rhs [] = []
erase rhs (x ∷ xs) = if rhs == x then xs else x ∷ erase rhs xs

unfoldable pub push_back : ℕ → List ℕ → List ℕ
push_back rhs elements = elements ++ rhs ∷ []

unfoldable pub clear : List ℕ → List ℕ
clear elements = []
