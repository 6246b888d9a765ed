-- ===== src/BloomFilter.antt =====
-- boost/stm/detail/bloom_filter.hpp: `bloom_filter`, two bit vectors indexed by two hashes.
-- `hashlittle2` (boost/stm/detail/jenkins_hash.hpp, Bob Jenkins's lookup3) is a parameter: from the
-- pointer that it is given to the two hashes of the eight bytes there. No operation of the library
-- writes those bytes, an object's first word, so that the hashes depend on the pointer alone.
pub mod Laws
pub mod Bounds
use Prim.Native.Nat.{bit_and}
use tboost_stm.Prelude.{ℕ, ◌-◌, Bool, ◌==◌, not, ◌&&◌}
use tboost_stm.BitVector
use tboost_stm.BitVector.{BitVector, def_bit_vector_size}

-- `bitwiseAndOp`
abbrev pub bitwise_and_op : ℕ
bitwise_and_op = def_bit_vector_size - 1

pub record BloomFilter : Type 0 where
  pub h1 : ℕ
  pub h2 : ℕ
  pub bit_vector1 : BitVector
  pub bit_vector2 : BitVector

-- A new filter. `h1_` and `h2_` are written before they are read, whatever they start with.
unfoldable pub empty : BloomFilter
empty = record { h1 = 0; h2 = 0; bit_vector1 = BitVector.clear; bit_vector2 = BitVector.clear }

pub clear : BloomFilter → BloomFilter
clear f = record f { bit_vector1 = BitVector.clear; bit_vector2 = BitVector.clear }

pub set_bv1 : ℕ → BloomFilter → BloomFilter
set_bv1 h f = record f { bit_vector1 = BitVector.set (bit_and h bitwise_and_op) f.bit_vector1 }

pub set_bv2 : ℕ → BloomFilter → BloomFilter
set_bv2 h f = record f { bit_vector2 = BitVector.set (bit_and h bitwise_and_op) f.bit_vector2 }

-- The product of the two results as a truth value.
pub intersection : BloomFilter → BloomFilter → Bool
intersection f g =
    not (BitVector.intersects f.bit_vector1 g.bit_vector1 == 0)
    && not (BitVector.intersects f.bit_vector2 g.bit_vector2 == 0)

module _ (hashlittle2 : ℕ → ℕ × ℕ) where
  unfoldable pub insert : ℕ → BloomFilter → BloomFilter
  insert rhs f =
      let (a, b) = hashlittle2 rhs in
      record {
        h1 = a;
        h2 = b;
        bit_vector1 = BitVector.set (bit_and a bitwise_and_op) f.bit_vector1;
        bit_vector2 = BitVector.set (bit_and b bitwise_and_op) f.bit_vector2;
      }

  -- The result of `exists`, which also leaves the hashes in `h1_` and `h2_`: nothing reads those
  -- but `deferred_write`, directly after an `insert` of its own.
  unfoldable pub exists : ℕ → BloomFilter → Bool
  exists rhs f =
      let (a, b) = hashlittle2 rhs in
      BitVector.test (bit_and a bitwise_and_op) f.bit_vector1
      && BitVector.test (bit_and b bitwise_and_op) f.bit_vector2
