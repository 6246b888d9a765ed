-- ===== src/BitVector.antt =====
-- boost/stm/detail/bit_vector.hpp: `bit_vector`, 65536 bits in an array of 64-bit chunks.
-- The array is the function from a chunk's index to the chunk. `idx_to_bit_idx` divides by
-- `sizeof(chunk_type)`, 8, as the source does, so that each chunk holds eight bits of the vector.
pub mod Bits
pub mod Laws
pub mod Bounds
use Prim.Native.Nat.{bit_and, bit_or}
use tboost_stm.Prelude.{
  ℕ, zero, suc, ◌+◌, ◌-◌, ◌*◌, ◌/◌, ◌^◌, Bool, true, false, ◌==◌, not, if◌then◌else◌,
}

-- `def_bit_vector_size`
abbrev pub def_bit_vector_size : ℕ
def_bit_vector_size = 65536

-- `chunk_bits` is `sizeof(size_t) * byte_size`
abbrev pub chunk_bits : ℕ
chunk_bits = 64

abbrev pub chunk_shift_bits : ℕ
chunk_shift_bits = chunk_bits - 1

-- The length of `bits_`, `def_bit_vector_size/sizeof(chunk_type)+1`.
abbrev pub chunks : ℕ
chunks = def_bit_vector_size / 8 + 1

pub record BitVector : Type 0 where
  pub bits : ℕ → ℕ

-- `clear()`, which the constructor calls: every chunk is 0.
unfoldable pub clear : BitVector
clear = record { bits = λ i. 0 }

pub idx_to_bit_idx : ℕ → ℕ
idx_to_bit_idx idx = idx / 8

pub idx_to_chunk_idx : ℕ → ℕ
idx_to_chunk_idx idx = bit_and idx chunk_shift_bits

-- `bits_[i] = chunk`
abbrev pub write_chunk : BitVector → ℕ → ℕ → BitVector
write_chunk v i chunk = record { bits = λ j. if i == j then chunk else v.bits j }

-- `operator[]`. `>>` divides and `1 <<` multiplies by a power of two; the position is below 64.
unfoldable pub at : BitVector → ℕ → ℕ
unfolding idx_to_bit_idx idx_to_chunk_idx
at v idx =
    let pos = idx_to_chunk_idx idx in bit_and (v.bits (idx_to_bit_idx idx)) (1 * 2 ^ pos) / 2 ^ pos

unfoldable pub set : ℕ → BitVector → BitVector
unfolding idx_to_bit_idx idx_to_chunk_idx
set idx v =
    let i = idx_to_bit_idx idx in write_chunk v i (bit_or (v.bits i) (1 * 2 ^ idx_to_chunk_idx idx))

-- `mask` is the complement in 64 bits.
unfoldable pub reset : ℕ → BitVector → BitVector
unfolding idx_to_bit_idx
reset idx v =
    let mask = 2 ^ chunk_bits - 1 - 1 * 2 ^ bit_and idx chunk_shift_bits in
    let i = idx_to_bit_idx idx in write_chunk v i (bit_and (v.bits i) mask)

-- The conversion of `operator[]` to `bool`.
unfoldable pub test : ℕ → BitVector → Bool
unfolding at
test idx v = not (at v idx == 0)

-- The loop of `intersects`, over the chunks from `i` on, `rounds` of them.
unfoldable pub intersects_from : ℕ → ℕ → BitVector → BitVector → ℕ
intersects_from zero i v w = 0
intersects_from (suc rounds) i v w =
    let rest = intersects_from rounds (i + 1) v w in
    if bit_and (v.bits i) (w.bits i) == 0 then rest else 1

unfoldable pub intersects : BitVector → BitVector → ℕ
unfolding intersects_from
intersects = intersects_from chunks 0
