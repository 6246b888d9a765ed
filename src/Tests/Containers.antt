-- ===== src/Tests/Containers.antt =====
-- The containers and the managers at concrete values.
use tboost_stm.Prelude.{List, ℕ, ◌≡◌, [], ◌∷◌, some}
use tboost_stm.BitVector
use tboost_stm.BitVector.Laws.{sets, apply, member, test-apply}
use tboost_stm.BloomFilter
use tboost_stm.VectorMap
use tboost_stm.VectorMap.Laws.{Writes, insert-Writes}
use tboost_stm.Tests.Data.{hash}
use tboost_stm.BloomFilter.Bounds.{InBounds, insert-InBounds, empty-InBounds}

insert-Writes_example :
    (i : ℕ) × (m : List (ℕ × ℕ)) × (VectorMap.insert {U = ℕ} (5, 9) ((4, 7) ∷ (5, 8) ∷ [])
      ≡ some (i, m))
    × Writes {U = ℕ} 5 9 ((4, 7) ∷ (5, 8) ∷ []) i m
insert-Writes_example = insert-Writes {U = ℕ} 5 9 ((4, 7) ∷ (5, 8) ∷ [])

test-apply_example :
    BitVector.test 70 (apply (sets 70) BitVector.clear)
    ≡ member (sets 70) (λ i. BitVector.test i BitVector.clear) 70
test-apply_example = test-apply (sets 70) BitVector.clear 70

insert-InBounds_example : InBounds (BloomFilter.insert hash 70000 BloomFilter.empty)
insert-InBounds_example = insert-InBounds hash 70000 BloomFilter.empty empty-InBounds
