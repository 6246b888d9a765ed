-- ===== src/BloomFilter/Laws.antt =====
-- A Bloom filter has no false negatives: for `exists`, through `set_bv1` and `set_bv2`, and for
-- `intersection`.
use Prim.Native.Nat.{bit_and}
use tboost_stm.Prelude.{ℕ, ◌≡◌, arith, true, false}
use tboost_stm.BitVector.Bits.{bit_and-le}
use tboost_stm.BitVector.Laws.{test-set, test-clear, intersects_common}
use tboost_stm.BloomFilter.{
  BloomFilter, bitwise_and_op, clear, set_bv1, set_bv2, intersection, insert, exists,
}

module _ (hashlittle2 : ℕ → ℕ × ℕ) where
  -- A key that was inserted exists.
  pub exists-insert_self :
      (k : ℕ) (f : BloomFilter) → exists hashlittle2 k (insert hashlittle2 k f) ≡ true
  unfolding exists insert
  exists-insert_self k f = grind (arith, test-set)

  -- A key that exists goes on existing under any later insertion.
  pub exists-insert_mono :
      (k j : ℕ) (f : BloomFilter)
      → exists hashlittle2 k f ≡ true
      → exists hashlittle2 k (insert hashlittle2 j f) ≡ true
  unfolding exists insert
  exists-insert_mono k j f h = grind (arith, test-set)

  -- `set_bv1` and `set_bv2` by the hashes of another filter's last insertion are an insertion.
  pub exists-set_self :
      (k : ℕ) (f w : BloomFilter)
      → let b = insert hashlittle2 k f in
        exists hashlittle2 k (set_bv2 b.h2 (set_bv1 b.h1 w)) ≡ true
  unfolding exists insert set_bv1 set_bv2
  exists-set_self k f w = grind (arith, test-set)

  pub exists-set_mono :
      (k a b : ℕ) (w : BloomFilter)
      → exists hashlittle2 k w ≡ true
      → exists hashlittle2 k (set_bv2 a (set_bv1 b w)) ≡ true
  unfolding exists set_bv1 set_bv2
  exists-set_mono k a b w h = grind (arith, test-set)

  -- After `clear` no key exists.
  pub exists-clear : (k : ℕ) (f : BloomFilter) → exists hashlittle2 k (clear f) ≡ false
  unfolding exists clear
  exists-clear k f = grind (arith, test-clear)

  -- Two filters that both hold a key intersect.
  pub intersection_common :
      (k : ℕ) (f g : BloomFilter)
      → exists hashlittle2 k f ≡ true
      → exists hashlittle2 k g ≡ true
      → intersection f g ≡ true
  unfolding exists intersection
  intersection_common k f g h l = ground (
    arith,
    bit_and-le (hashlittle2 k).0 bitwise_and_op,
    bit_and-le (hashlittle2 k).1 bitwise_and_op,
    intersects_common f.bit_vector1 g.bit_vector1 (bit_and (hashlittle2 k).0 bitwise_and_op),
    intersects_common f.bit_vector2 g.bit_vector2 (bit_and (hashlittle2 k).1 bitwise_and_op),
  )
