-- ===== src/Prelude/Bits.antt =====
-- The bit operations that the source uses, as arithmetic: `|` of disjoint fields and `^` with no
-- bits or with all bits at every width, and the masks of one byte by evaluation.
use Prim.Native.Nat.{ℕ, zero, suc, ◌+◌, ◌-◌, ◌*◌, ◌/◌, ◌%◌, ◌^◌, ◌≤◌, ◌<◌, min, max}
use Prim.Native.Nat.{bit_and, bit_or, bit_xor, digits, bitwise, differ}
use Prim.Native.Nat.{bit_and-bitwise, bit_or-bitwise, bit_xor-bitwise}
use mathlib.Core.Path.{◌≡◌, refl, ap}
use mathlib.Core.Bool.{Bool, true, false}
use native.Mathlib.Nat.{pow-suc, one-le-pow}
use native.Mathlib.Omega.{arith}
use Prim.Native.Nat.{compare, Ordering}

-- The native operations mean a recursion on binary digits with the first number as fuel. The
-- result does not depend on how much fuel there is, so there is one equation per digit.
module _ (z : ℕ → ℕ) (f : ℕ → ℕ → ℕ) where
  digits_enough : (n m a b : ℕ) → a ≤ n → a ≤ m → digits z f n a b ≡ digits z f m a b
  digits_enough zero zero a b p q = refl
  digits_enough zero (suc m) zero b p q = refl
  digits_enough zero (suc m) (suc a) b p q = absurd (omega arith)
  digits_enough (suc n) zero zero b p q = refl
  digits_enough (suc n) zero (suc a) b p q = absurd (omega arith)
  digits_enough (suc n) (suc m) zero b p q = refl
  digits_enough (suc n) (suc m) (suc a) b p q =
      rw (digits_enough n m (suc a / 2) (b / 2) (omega arith) (omega arith))

  bitwise_digit :
      (a b : ℕ)
      → bitwise z f (suc a) b ≡ bitwise z f (suc a / 2) (b / 2) * 2 + f (suc a % 2) (b % 2)
  bitwise_digit a b =
      rw (digits_enough a (suc a / 2) (suc a / 2) (b / 2) (omega arith) (omega arith))

bit_or_digit : (a b : ℕ) → bit_or a b ≡ bit_or (a / 2) (b / 2) * 2 + max (a % 2) (b % 2)
bit_or_digit zero b = simp bit_or-bitwise (omega arith)
bit_or_digit (suc a) b = simp bit_or-bitwise (bitwise_digit (λ y. y) max a b)

bit_and_digit : (a b : ℕ) → bit_and a b ≡ bit_and (a / 2) (b / 2) * 2 + min (a % 2) (b % 2)
bit_and_digit zero b = simp bit_and-bitwise (omega arith)
bit_and_digit (suc a) b = simp bit_and-bitwise (bitwise_digit (λ y. 0) min a b)

differ_zero : (y : ℕ) → differ 0 y ≡ y
differ_zero y = refl

differ-zero : (y : ℕ) → differ y 0 ≡ y
differ-zero zero = refl
differ-zero (suc y) = refl

bit_xor_digit : (a b : ℕ) → bit_xor a b ≡ bit_xor (a / 2) (b / 2) * 2 + differ (a % 2) (b % 2)
bit_xor_digit zero b = simp bit_xor-bitwise (omega (arith, differ_zero (b % 2)))
bit_xor_digit (suc a) b = simp bit_xor-bitwise (bitwise_digit (λ y. y) differ a b)

two_pow_suc : (u k : ℕ) → u * 2 ^ suc k ≡ 2 * (u * 2 ^ k)
two_pow_suc u k = omega (arith, ap (λ (t : ℕ). u * t) (pow-suc 2 k))

zero-bit_or : (b : ℕ) → bit_or 0 b ≡ b
zero-bit_or b = bit_or-bitwise 0 b

-- An operation that keeps its first number when the second is 0, digit by digit.
bit_or-zero_below : (n a : ℕ) → a ≤ n → bit_or a 0 ≡ a
bit_or-zero_below n zero h = refl
bit_or-zero_below zero (suc a) h = absurd (omega arith)
bit_or-zero_below (suc n) (suc a) h =
    omega (arith, bit_or_digit (suc a) 0, bit_or-zero_below n (suc a / 2) (omega arith))

bit_xor-zero_below : (n a : ℕ) → a ≤ n → bit_xor a 0 ≡ a
bit_xor-zero_below n zero h = refl
bit_xor-zero_below zero (suc a) h = absurd (omega arith)
bit_xor-zero_below (suc n) (suc a) h = ground (
  arith,
  bit_xor_digit (suc a) 0,
  differ-zero (suc a % 2),
  bit_xor-zero_below n (suc a / 2) (omega arith),
)

bit_and-zero_below : (n a : ℕ) → a ≤ n → bit_and a 0 ≡ 0
bit_and-zero_below n zero h = refl
bit_and-zero_below zero (suc a) h = absurd (omega arith)
bit_and-zero_below (suc n) (suc a) h =
    omega (arith, bit_and_digit (suc a) 0, bit_and-zero_below n (suc a / 2) (omega arith))

pub bit_xor-zero : (a : ℕ) → bit_xor a 0 ≡ a
bit_xor-zero a = bit_xor-zero_below a a (omega arith)

-- A field shifted above the `k` low bits is or-ed in by addition, on either side.
pub bit_or_above : (k a u : ℕ) → a < 2 ^ k → bit_or a (u * 2 ^ k) ≡ a + u * 2 ^ k
bit_or_above zero a u h = ground (arith, zero-bit_or (u * 2 ^ 0))
bit_or_above (suc k) a u h = ground (
  arith,
  bit_or_digit a (u * 2 ^ suc k),
  two_pow_suc u k,
  pow-suc 2 k,
  bit_or_above k (a / 2) u (omega (arith, pow-suc 2 k)),
)

pub bit_or_below : (k u a : ℕ) → a < 2 ^ k → bit_or (u * 2 ^ k) a ≡ u * 2 ^ k + a
bit_or_below zero u a h = ground (arith, bit_or-zero_below u u)
bit_or_below (suc k) u a h = ground (
  arith,
  bit_or_digit (u * 2 ^ suc k) a,
  two_pow_suc u k,
  pow-suc 2 k,
  bit_or_below k u (a / 2) (omega (arith, pow-suc 2 k)),
)

bit_and_low : (k q r : ℕ) → r < 2 ^ k → bit_and (q * 2 ^ k + r) (2 ^ k - 1) ≡ r
bit_and_low zero q r h = ground (arith, bit_and-zero_below q q)
bit_and_low (suc k) q r h = ground (
  arith,
  bit_and_digit (q * 2 ^ suc k + r) (2 ^ suc k - 1),
  two_pow_suc q k,
  pow-suc 2 k,
  one-le-pow k 2,
  bit_and_low k q (r / 2) (omega (arith, pow-suc 2 k)),
)

-- A mask of `k` low ones is the remainder by `2 ^ k`.
pub bit_and_ones : (k a : ℕ) → bit_and a (2 ^ k - 1) ≡ a % 2 ^ k
bit_and_ones k a = ground (arith, one-le-pow k 2, bit_and_low k (a / 2 ^ k) (a % 2 ^ k))

differ-one : (y : ℕ) → y < 2 → differ y 1 ≡ 1 - y
differ-one zero h = refl
differ-one (suc zero) h = refl
differ-one (suc (suc y)) h = absurd (omega arith)

-- `^` with all ones below `2 ^ k` is the complement.
pub bit_xor_ones : (k a : ℕ) → a < 2 ^ k → bit_xor a (2 ^ k - 1) ≡ 2 ^ k - 1 - a
bit_xor_ones zero a h = ground (arith, bit_xor-zero a)
bit_xor_ones (suc k) a h = ground (
  arith,
  bit_xor_digit a (2 ^ suc k - 1),
  differ-one (a % 2),
  pow-suc 2 k,
  one-le-pow k 2,
  bit_xor_ones k (a / 2) (omega (arith, pow-suc 2 k)),
)

-- Equality of two functions on the numbers below a bound, by evaluation.
module _ (f g : ℕ → ℕ) where
  same_below : ℕ → Bool
  same_below zero = true
  same_below (suc n) = elim (compare (f n) (g n)) [ Ordering.eq ↦ same_below n | _ ↦ false ]

  same_below→eq : (n : ℕ) → same_below n ≡ true → (b : ℕ) → b < n → f b ≡ g b
  unfolding same_below
  same_below→eq zero e b h = absurd (omega arith)
  same_below→eq (suc n) e b h = ground (arith, same_below→eq n (ground arith) b)

-- The masks of one byte.
pub low_seven : (b : ℕ) → b < 256 → bit_and b 0x7f ≡ b % 128
unfolding same_below
low_seven = same_below→eq _ _ 256 refl

pub low_seven_wide : (b : ℕ) → b < 256 → bit_and b 0xffff_ff7f ≡ b % 128
unfolding same_below
low_seven_wide = same_below→eq _ _ 256 refl

pub low_seven_wider : (b : ℕ) → b < 256 → bit_and b 0xffff_ffff_ffff_ff7f ≡ b % 128
unfolding same_below
low_seven_wider = same_below→eq _ _ 256 refl

pub top_bit : (b : ℕ) → b < 256 → bit_and b 0x80 ≡ b / 128 * 128
unfolding same_below
top_bit = same_below→eq _ _ 256 refl
