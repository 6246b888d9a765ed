-- ===== src/BitVector/Bounds.antt =====
-- The bounds of the bit vector: its array and its words.
use Prim.Native.Nat.{bit_and, bit_or}
use native.Mathlib.Nat.{pow-suc}
use tboost_stm.Prelude.{ℕ, zero, suc, ◌-◌, ◌*◌, ◌/◌, ◌^◌, ◌≤◌, ◌<◌, ◌≡◌, refl, arith}
use tboost_stm.BitVector.{
  BitVector, def_bit_vector_size, chunks, idx_to_bit_idx, idx_to_chunk_idx, set, reset, clear,
  write_chunk,
}
use tboost_stm.BitVector.Bits.{or_step, bit_and_63, bit_and-le, pow_lt}

-- Every chunk is a number of 64 bits, and none beyond the array has been written.
pub record Fits (v : BitVector) : Type 0 where
  pub words : (i : ℕ) → v.bits i < 2 ^ 64
  pub outside : (i : ℕ) → chunks ≤ i → v.bits i ≡ 0

bit_or-lt : (w a b : ℕ) → a < 2 ^ w → b < 2 ^ w → bit_or a b < 2 ^ w
bit_or-lt zero a b h k =
    let left : a ≡ 0 = omega arith in
    let right : b ≡ 0 = omega arith in rw (left, right) (omega arith)
bit_or-lt (suc w) a b h k =
    let half =
      bit_or-lt w (a / 2) (b / 2) (omega (arith, pow-suc 2 w)) (omega (arith, pow-suc 2 w)) in
    omega (arith, or_step a b, pow-suc 2 w)

write_chunk-Fits :
    (v : BitVector) (i chunk : ℕ)
    → Fits v
    → i < chunks
    → chunk < 2 ^ 64
    → Fits (write_chunk v i chunk)
write_chunk-Fits v i chunk f lt small = record {
  words = λ j. let w = f.words j in ground arith;
  outside = λ j h. let o = f.outside j h in ground arith;
}

pub set-Fits : (idx : ℕ) (v : BitVector) → idx < def_bit_vector_size → Fits v → Fits (set idx v)
unfolding set idx_to_bit_idx idx_to_chunk_idx
set-Fits idx v lt f =
    let i = idx / 8 in
    let pos = bit_and_63 idx in
    write_chunk-Fits v i _ f (omega arith) (
      bit_or-lt 64 (v.bits i) (1 * 2 ^ bit_and idx 63) (f.words i)
        (omega (arith, pow_lt (bit_and idx 63) 64 (omega (arith, pos)))))

pub reset-Fits : (idx : ℕ) (v : BitVector) → idx < def_bit_vector_size → Fits v → Fits (reset idx v)
unfolding reset idx_to_bit_idx
reset-Fits idx v lt f =
    let i = idx / 8 in
    write_chunk-Fits v i _ f (omega arith)
      (omega (arith, bit_and-le (v.bits i) (2 ^ 64 - 1 - 1 * 2 ^ bit_and idx 63)))

pub clear-Fits : Fits clear
unfolding clear
clear-Fits = record { words = λ i. omega arith; outside = λ i h. refl }
