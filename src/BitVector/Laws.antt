-- ===== src/BitVector/Laws.antt =====
-- `bit_vector` as a set of bits: what `set`, `reset` and `clear` do to `test`, and what a shared bit
-- does to `intersects`.
use Prim.Native.Nat.{bit_and}
use tboost_stm.Prelude.{
  ℕ, zero, suc, ◌+◌, ◌-◌, ◌*◌, ◌/◌, ◌%◌, ◌^◌, ◌≤◌, ◌<◌, ◌≡◌, refl, ◌≢◌, arith, ℕ_discrete, Bool,
  true, false, ◌==◌, ==-eq_true, ==-eq_false, if◌then◌else◌,
}
use tboost_stm.BitVector.{
  BitVector, clear, at, set, reset, test, intersects_from, intersects, def_bit_vector_size, chunks,
}
use tboost_stm.BitVector.Bits.{
  bit, bit-lt, bit_of_zero, bit-bit_and, bit-bit_or, bit_of_pow, bit_by_mask, bit_and_63,
  bit_and_shared, bit_of_mask,
}

-- `operator[]` reads one bit of one chunk.
at-bit : (v : BitVector) (i : ℕ) → at v i ≡ bit (v.bits (i / 8)) (i % 64)
unfolding at
at-bit v i = rw (bit_and_63 i) (bit_by_mask (v.bits (i / 8)) (i % 64))

test_of_bit : (v : BitVector) (i : ℕ) → bit (v.bits (i / 8)) (i % 64) ≡ 1 → test i v ≡ true
unfolding test
test_of_bit v i h = ground (arith, at-bit v i)

bit_of_test : (v : BitVector) (i : ℕ) → test i v ≡ true → bit (v.bits (i / 8)) (i % 64) ≡ 1
unfolding test
bit_of_test v i h = ground (arith, at-bit v i, bit-lt (v.bits (i / 8)) (i % 64))

one_times : (n : ℕ) → 1 * n ≡ n
one_times n = omega arith

bit-set :
    (i j : ℕ) (v : BitVector)
    → bit ((set i v).bits (j / 8)) (j % 64) ≡ (if i == j then 1 else bit (v.bits (j / 8)) (j % 64))
unfolding set
bit-set i j v = elim (ℕ_discrete (i / 8) (j / 8)) [
  | yes same ↦
      rw
        (
          ==-eq_true (i / 8) (j / 8) same,
          bit_and_63 i,
          bit-bit_or (v.bits (i / 8)) (1 * 2 ^ (i % 64)) (j % 64),
        )
        (rw (one_times (2 ^ (i % 64)), same)
          (ground (arith, bit_of_pow (i % 64) (j % 64), bit-lt (v.bits (j / 8)) (j % 64))))
  | no other ↦ rw (==-eq_false (i / 8) (j / 8) other) (ground arith)
]

pub test-set : (i j : ℕ) (v : BitVector) → test j (set i v) ≡ (if i == j then true else test j v)
unfolding test
test-set i j v =
    ground (arith, at-bit (set i v) j, at-bit v j, bit-set i j v, bit-lt (v.bits (j / 8)) (j % 64))

bit-reset :
    (i j : ℕ) (v : BitVector)
    → bit ((reset i v).bits (j / 8)) (j % 64)
      ≡ (if i == j then 0 else bit (v.bits (j / 8)) (j % 64))
unfolding reset
bit-reset i j v = elim (ℕ_discrete (i / 8) (j / 8)) [
  | yes same ↦
      rw
        (
          ==-eq_true (i / 8) (j / 8) same,
          bit_and_63 i,
          bit-bit_and (v.bits (i / 8)) (2 ^ 64 - 1 - 1 * 2 ^ (i % 64)) (j % 64),
          same,
        )
        (ground (
          arith,
          bit_of_mask 64 (i % 64) (j % 64) (omega arith) (omega arith),
          bit-lt (v.bits (j / 8)) (j % 64),
        ))
  | no other ↦ rw (==-eq_false (i / 8) (j / 8) other) (ground arith)
]

pub test-reset :
    (i j : ℕ) (v : BitVector) → test j (reset i v) ≡ (if i == j then false else test j v)
unfolding test
test-reset i j v =
    ground
      (arith, at-bit (reset i v) j, at-bit v j, bit-reset i j v, bit-lt (v.bits (j / 8)) (j % 64))

pub test-clear : (j : ℕ) → test j clear ≡ false
unfolding test clear
test-clear j = ground (arith, at-bit clear j, bit_of_zero (j % 64))

-- What a history of writes does to a bit: the last write at its index counts.
pub data Write : Type 0 where
  sets resets : ℕ → Write
  clears : Write

pub apply : Write → BitVector → BitVector
apply (sets i) v = set i v
apply (resets i) v = reset i v
apply clears v = clear

-- The set of indices that a write leaves, by their test.
pub member : Write → (ℕ → Bool) → ℕ → Bool
member (sets i) s j = if i == j then true else s j
member (resets i) s j = if i == j then false else s j
member clears s j = false

-- A bit vector is the set of its indices: each of `set`, `reset` and `clear` acts on `test` as the
-- same change of the set does, at every index.
pub test-apply :
    (w : Write) (v : BitVector) (j : ℕ) → test j (apply w v) ≡ member w (λ i. test i v) j
unfolding apply member
test-apply (sets i) v j = test-set i j v
test-apply (resets i) v j = test-reset i j v
test-apply clears v j = test-clear j

intersects_from-hit :
    (rounds i k : ℕ) (v w : BitVector)
    → i ≤ k
    → k < i + rounds
    → bit_and (v.bits k) (w.bits k) ≢ 0
    → intersects_from rounds i v w ≡ 1
unfolding intersects_from
intersects_from-hit zero i k v w l h ne = absurd (omega arith)
intersects_from-hit (suc rounds) i k v w l h ne =
    elim (ℕ_discrete (bit_and (v.bits i) (w.bits i)) 0) [
      | yes empty ↦ rw (==-eq_true _ 0 empty) (
          intersects_from-hit rounds (i + 1) k v w
            (elim (ℕ_discrete i k) [ yes e ↦ absurd (ne (rw (← e) empty)) | no d ↦ omega arith ])
            (omega arith) ne)
      | no hit ↦ rw (==-eq_false _ 0 hit) refl
    ]

-- Two vectors with a bit in common, at an index below the size, intersect.
pub intersects_common :
    (v w : BitVector) (i : ℕ)
    → i < def_bit_vector_size
    → test i v ≡ true
    → test i w ≡ true
    → intersects v w ≡ 1
unfolding intersects
intersects_common v w i h a b =
    intersects_from-hit chunks 0 (i / 8) v w (omega arith) (omega arith)
      (bit_and_shared _ _ (i % 64) (bit_of_test v i a) (bit_of_test w i b))
