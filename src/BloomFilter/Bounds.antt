-- ===== src/BloomFilter/Bounds.antt =====
-- The bounds of the Bloom filter: whatever the hash, its vectors are written inside their arrays.
use Prim.Native.Nat.{bit_and}
use tboost_stm.Prelude.{ℕ, ◌<◌, arith}
use tboost_stm.BitVector.{def_bit_vector_size}
use tboost_stm.BitVector.Bits.{bit_and-le}
use tboost_stm.BitVector.Bounds.{Fits, set-Fits, clear-Fits}
use tboost_stm.BloomFilter.{BloomFilter, bitwise_and_op, insert, empty}

-- The chunks of both vectors are numbers of 64 bits, and none beyond the arrays is written.
abbrev pub InBounds : BloomFilter → Type 0
InBounds f = Fits f.bit_vector1 × Fits f.bit_vector2

masked-lt : (h : ℕ) → bit_and h bitwise_and_op < def_bit_vector_size
masked-lt h = omega (arith, bit_and-le h 65535)

-- An insertion keeps the chunks of both vectors numbers of 64 bits, and writes no chunk beyond the
-- arrays, for any object and any pair of hashes.
pub insert-InBounds :
    (hashlittle2 : ℕ → ℕ × ℕ) (rhs : ℕ) (f : BloomFilter)
    → InBounds f
    → InBounds (insert hashlittle2 rhs f)
unfolding insert
insert-InBounds hashlittle2 rhs f k =
    let h = hashlittle2 rhs in
    (
      set-Fits (bit_and h.0 bitwise_and_op) f.bit_vector1 (masked-lt h.0) k.0,
      set-Fits (bit_and h.1 bitwise_and_op) f.bit_vector2 (masked-lt h.1) k.1,
    )

pub empty-InBounds : InBounds empty
unfolding empty
empty-InBounds = (clear-Fits, clear-Fits)
