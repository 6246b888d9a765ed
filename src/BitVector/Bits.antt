-- ===== src/BitVector/Bits.antt =====
-- Single bits of a number: what `&` and `|` do to the bit at a position, and the masks `1 << p` and
-- `chunk_shift_bits`.
use Prim.Native.Nat.{min, max, bit_and, bit_or, digits, bit_and-bitwise, bit_or-bitwise}
use native.Mathlib.Nat.{pow-suc, mul-div_cancel}
use tboost_stm.Prelude.{
  ℕ, zero, suc, ◌+◌, ◌-◌, ◌*◌, ◌/◌, ◌%◌, ◌^◌, ◌≤◌, ◌<◌, ◌≡◌, refl, ap, sym, ◌∙◌, ◌≢◌, arith, ◌==◌,
  if◌then◌else◌,
}

-- A bitwise operation stops at the number 0, whatever fuel is left.
stopped : (f : ℕ → ℕ) (g : ℕ → ℕ → ℕ) (n b : ℕ) → digits f g n 0 b ≡ f b
stopped f g zero b = refl
stopped f g (suc n) b = refl

-- Fuel beyond the number itself makes no difference.
spare_fuel :
    (f : ℕ → ℕ) (g : ℕ → ℕ → ℕ) (a b m n : ℕ) → a ≤ m → a ≤ n → digits f g m a b ≡ digits f g n a b
spare_fuel f g zero b m n h k = stopped f g m b ∙ sym (stopped f g n b)
spare_fuel f g (suc a) b zero n h k = absurd (omega arith)
spare_fuel f g (suc a) b (suc m) zero h k = absurd (omega arith)
spare_fuel f g (suc a) b (suc m) (suc n) h k =
    let half = spare_fuel f g (suc a / 2) (b / 2) m n (omega arith) (omega arith) in omega arith

-- How an operation treats the lowest digit.
module _ (f : ℕ → ℕ) (g op : ℕ → ℕ → ℕ) (means : (x y : ℕ) → op x y ≡ digits f g x x y) where
  low_digit_of_suc : (a b : ℕ) → op (suc a) b ≡ op (suc a / 2) (b / 2) * 2 + g (suc a % 2) (b % 2)
  low_digit_of_suc a b =
      let whole = means (suc a) b in
      let rest = means (suc a / 2) (b / 2) in
      let enough = spare_fuel f g (suc a / 2) (b / 2) a (suc a / 2) (omega arith) (omega arith) in
      omega arith

and_step : (x y : ℕ) → bit_and x y ≡ bit_and (x / 2) (y / 2) * 2 + min (x % 2) (y % 2)
and_step zero y =
    let whole = bit_and-bitwise 0 y in let rest = bit_and-bitwise 0 (y / 2) in omega arith
and_step (suc x) y = low_digit_of_suc (λ _. 0) min bit_and bit_and-bitwise x y

pub or_step : (x y : ℕ) → bit_or x y ≡ bit_or (x / 2) (y / 2) * 2 + max (x % 2) (y % 2)
or_step zero y =
    let whole = bit_or-bitwise 0 y in let rest = bit_or-bitwise 0 (y / 2) in omega arith
or_step (suc x) y = low_digit_of_suc (λ z. z) max bit_or bit_or-bitwise x y

-- The bit of a number at a position.
pub bit : ℕ → ℕ → ℕ
bit a zero = a % 2
bit a (suc p) = bit (a / 2) p

pub bit-lt : (a p : ℕ) → bit a p < 2
unfolding bit
bit-lt a zero = omega arith
bit-lt a (suc p) = bit-lt (a / 2) p

pub bit_of_zero : (p : ℕ) → bit 0 p ≡ 0
unfolding bit
bit_of_zero zero = refl
bit_of_zero (suc p) = bit_of_zero p

pub bit-bit_and : (a b p : ℕ) → bit (bit_and a b) p ≡ min (bit a p) (bit b p)
unfolding bit
bit-bit_and a b zero = omega (arith, and_step a b)
bit-bit_and a b (suc p) =
    let e : bit_and a b / 2 ≡ bit_and (a / 2) (b / 2) = omega (arith, and_step a b) in
    rw e (bit-bit_and (a / 2) (b / 2) p)

pub bit-bit_or : (a b p : ℕ) → bit (bit_or a b) p ≡ max (bit a p) (bit b p)
unfolding bit
bit-bit_or a b zero = omega (arith, or_step a b)
bit-bit_or a b (suc p) =
    let e : bit_or a b / 2 ≡ bit_or (a / 2) (b / 2) = omega (arith, or_step a b) in
    rw e (bit-bit_or (a / 2) (b / 2) p)

pub bit_of_pow : (p q : ℕ) → bit (2 ^ p) q ≡ (if p == q then 1 else 0)
unfolding bit
bit_of_pow zero zero = refl
bit_of_pow zero (suc q) = ground (arith, bit_of_zero q)
bit_of_pow (suc p) zero = ground (arith, pow-suc 2 p)
bit_of_pow (suc p) (suc q) =
    let e : 2 ^ suc p / 2 ≡ 2 ^ p = omega (arith, pow-suc 2 p) in
    rw e (ground (arith, bit_of_pow p q))

and_zero : (n a : ℕ) → a ≤ n → bit_and a 0 ≡ 0
and_zero n zero h = refl
and_zero zero (suc a) h = absurd (omega arith)
and_zero (suc n) (suc a) h = omega (arith, and_step (suc a) 0, and_zero n (suc a / 2) (omega arith))

-- Masking with `1 << p` keeps the bit at `p`, in its place.
pub bit_and-pow : (a p : ℕ) → bit_and a (2 ^ p) ≡ bit a p * 2 ^ p
unfolding bit
bit_and-pow a zero = omega (arith, and_step a 1, and_zero (a / 2) (a / 2) (omega arith))
bit_and-pow a (suc p) =
    let e : 2 ^ suc p / 2 ≡ 2 ^ p = omega (arith, pow-suc 2 p) in
    let k : bit_and a (2 ^ suc p)
        ≡ bit_and (a / 2) (2 ^ suc p / 2) * 2 + min (a % 2) (2 ^ suc p % 2) =
      and_step a (2 ^ suc p) in
    let k' : bit_and a (2 ^ suc p) ≡ bit_and (a / 2) (2 ^ p) * 2 + min (a % 2) (2 ^ suc p % 2) =
      rw e at k in
    let half : bit_and (a / 2) (2 ^ p) * 2 ≡ bit (a / 2) p * 2 ^ p * 2 =
      ap (λ (x : ℕ). x * 2) (bit_and-pow (a / 2) p) in
    let even : bit (a / 2) p * 2 ^ suc p ≡ bit (a / 2) p * 2 ^ p * 2 =
      rw (pow-suc 2 p) (grind arith) in
    omega (arith, k', half, even, pow-suc 2 p)

pow_pos : (p : ℕ) → 0 < 2 ^ p
pow_pos zero = omega arith
pow_pos (suc p) = omega (arith, pow-suc 2 p, pow_pos p)

-- `(a & (1 << p)) >> p` is the bit at `p`.
pub bit_by_mask : (a p : ℕ) → bit_and a (1 * 2 ^ p) / 2 ^ p ≡ bit a p
bit_by_mask a p =
    let e : 1 * 2 ^ p ≡ 2 ^ p = omega arith in
    rw (e, bit_and-pow a p) (mul-div_cancel (bit a p) (pow_pos p))

and_one : (a : ℕ) → bit_and a 1 ≡ a % 2
and_one a = omega (arith, and_step a 1, and_zero (a / 2) (a / 2) (omega arith))

-- `a & chunk_shift_bits` is the remainder by the chunk's 64 bits.
pub bit_and_63 : (a : ℕ) → bit_and a 63 ≡ a % 64
bit_and_63 a = omega (
  arith,
  and_step a 63,
  and_step (a / 2) 31,
  and_step (a / 2 / 2) 15,
  and_step (a / 2 / 2 / 2) 7,
  and_step (a / 2 / 2 / 2 / 2) 3,
  and_one (a / 2 / 2 / 2 / 2 / 2),
)

-- Numbers that share a bit have a non-zero conjunction.
pub bit_and_shared : (a b p : ℕ) → bit a p ≡ 1 → bit b p ≡ 1 → bit_and a b ≢ 0
bit_and_shared a b p h k e =
    omega (arith, bit-bit_and a b p, ap (λ (x : ℕ). bit x p) e, bit_of_zero p)

-- A conjunction is at most its second number.
bit_and-le_fuel : (n a b : ℕ) → b ≤ n → bit_and a b ≤ b
bit_and-le_fuel n a zero h = omega (arith, and_zero a a (omega arith))
bit_and-le_fuel zero a (suc b) h = absurd (omega arith)
bit_and-le_fuel (suc n) a (suc b) h =
    omega (arith, and_step a (suc b), bit_and-le_fuel n (a / 2) (suc b / 2) (omega arith))

pub bit_and-le : (a b : ℕ) → bit_and a b ≤ b
bit_and-le a b = bit_and-le_fuel b a b (omega arith)

ones : (k q : ℕ) → q < k → bit (2 ^ k - 1) q ≡ 1
unfolding bit
ones zero q h = absurd (omega arith)
ones (suc k) zero h = omega (arith, pow-suc 2 k, pow_pos k)
ones (suc k) (suc q) h =
    let e : (2 ^ suc k - 1) / 2 ≡ 2 ^ k - 1 = omega (arith, pow-suc 2 k, pow_pos k) in
    rw e (ones k q (omega arith))

pub pow_lt : (p k : ℕ) → p < k → 2 ^ p < 2 ^ k
pow_lt p zero h = absurd (omega arith)
pow_lt zero (suc k) h = omega (arith, pow-suc 2 k, pow_pos k)
pow_lt (suc p) (suc k) h = omega (arith, pow-suc 2 k, pow-suc 2 p, pow_lt p k (omega arith))

-- The bits of the complement of `1 << p` in `k` bits.
pub bit_of_mask :
    (k p q : ℕ) → p < k → q < k → bit (2 ^ k - 1 - 1 * 2 ^ p) q ≡ (if p == q then 0 else 1)
unfolding bit
bit_of_mask zero p q h l = absurd (omega arith)
bit_of_mask (suc k) zero zero h l = omega (arith, pow-suc 2 k, pow_pos k)
bit_of_mask (suc k) zero (suc q) h l =
    let e : (2 ^ suc k - 1 - 1 * 2 ^ zero) / 2 ≡ 2 ^ k - 1 =
      omega (arith, pow-suc 2 k, pow_pos k) in
    rw e (ground (arith, ones k q (omega arith)))
bit_of_mask (suc k) (suc p) zero h l =
    grind (arith, pow-suc 2 k, pow-suc 2 p, pow_lt p k (omega arith))
bit_of_mask (suc k) (suc p) (suc q) h l =
    let e : (2 ^ suc k - 1 - 1 * 2 ^ suc p) / 2 ≡ 2 ^ k - 1 - 1 * 2 ^ p =
      omega (arith, pow-suc 2 k, pow-suc 2 p, pow_lt p k (omega arith)) in
    rw e (ground (arith, bit_of_mask k p q (omega arith) (omega arith)))
