-- ===== src/Generated/Hazzer/Bytes.antt =====
-- One byte of a `_Hazzer`, by evaluation.

use micropb.Prelude.{ℕ, zero, suc, ◌^◌, ◌<◌, ◌≡◌, refl, arith, Bool, true, false}
use micropb.Prelude.{◌==◌, ltb, if◌then◌else◌, ltb→lt}
use micropb.Generated.Hazzer.{bit, with_bit, without_bit}

-- Whether a test holds for all numbers below a bound.
all_below : (ℕ → Bool) → ℕ → Bool
all_below p zero = true
all_below p (suc n) = if p n then all_below p n else false

all_below→ : (p : ℕ → Bool) (n : ℕ) → all_below p n ≡ true → (b : ℕ) → b < n → p b ≡ true
unfolding all_below
all_below→ p zero e b h = absurd (omega arith)
all_below→ p (suc n) e b h = ground (arith, all_below→ p n (ground arith) b)

both_or_neither : Bool → Bool → Bool
both_or_neither true b = b
both_or_neither false true = false
both_or_neither false false = true

both_or_neither→ : (x y : Bool) → both_or_neither x y ≡ true → x ≡ y
unfolding both_or_neither
both_or_neither→ true true e = refl
both_or_neither→ true false e = absurd cc
both_or_neither→ false true e = absurd cc
both_or_neither→ false false e = refl

module _ (p : ℕ → ℕ → ℕ → Bool) where
  every_bit : Bool
  every_bit = all_below (λ i. all_below (λ j. all_below (p i j) 256) 8) 8

  every_bit→ : every_bit ≡ true → (i j b : ℕ) → i < 8 → j < 8 → b < 256 → p i j b ≡ true
  unfolding every_bit
  every_bit→ e i j b hi hj hb = all_below→ _ 256 (all_below→ _ 8 (all_below→ _ 8 e i hi) j hj) b hb

pub with_bit-bit :
    (i j b : ℕ)
    → i < 8
    → j < 8
    → b < 256
    → bit (2 ^ j) (with_bit (2 ^ i) b) ≡ (if i == j then true else bit (2 ^ j) b)
unfolding every_bit all_below both_or_neither
with_bit-bit i j b hi hj hb = both_or_neither→ _ _ (
    every_bit→
      (λ i j b.
        both_or_neither (bit (2 ^ j) (with_bit (2 ^ i) b)) (if i == j then true else bit (2 ^ j) b))
      refl i j b hi hj hb)

pub without_bit-bit :
    (i j b : ℕ)
    → i < 8
    → j < 8
    → b < 256
    → bit (2 ^ j) (without_bit (2 ^ i) b) ≡ (if i == j then false else bit (2 ^ j) b)
unfolding every_bit all_below both_or_neither
without_bit-bit i j b hi hj hb = both_or_neither→ _ _ (
    every_bit→
      (λ i j b.
        both_or_neither (bit (2 ^ j) (without_bit (2 ^ i) b))
          (if i == j then false else bit (2 ^ j) b))
      refl i j b hi hj hb)

pub with_bit-lt : (i b : ℕ) → i < 8 → b < 256 → with_bit (2 ^ i) b < 256
unfolding every_bit all_below
with_bit-lt i b hi hb =
    ltb→lt _ _ (every_bit→ (λ i j b. ltb (with_bit (2 ^ i) b) 256) refl i 0 b hi (omega arith) hb)

pub without_bit-lt : (i b : ℕ) → i < 8 → b < 256 → without_bit (2 ^ i) b < 256
unfolding every_bit all_below
without_bit-lt i b hi hb =
    ltb→lt _ _
      (every_bit→ (λ i j b. ltb (without_bit (2 ^ i) b) 256) refl i 0 b hi (omega arith) hb)
