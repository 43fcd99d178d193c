-- ===== src/Prelude/Int.antt =====
-- Signed machine integers. An `i32` or `i64` is the integer that it stands for; casts go through
-- its two's complement bit pattern of `w` bits.
use Prim.Native.Nat.{ℕ, zero, suc, ◌-◌, ◌*◌, ◌/◌, ◌^◌, ◌%◌, ◌<◌, bit_xor}
use mathlib.Core.Path.{◌≡◌}
use mathlib.Core.Bool.{Bool, true, false}
use native.Mathlib.Omega.{arith}
use micropb.Prelude.Tests.{if◌then◌else◌, ltb}

-- `negsuc n` is -(n + 1).
pub data ℤ : Type 0 where
  pos : ℕ → ℤ
  negsuc : ℕ → ℤ

abbrev pub is_neg : ℤ → Bool
is_neg (pos n) = false
is_neg (negsuc n) = true

-- `i as u<w>`: the bit pattern.
abbrev pub to_unsigned : ℕ → ℤ → ℕ
to_unsigned w (pos n) = n
to_unsigned w (negsuc n) = 2 ^ w - 1 - n

-- `u as i<w>`: what a bit pattern stands for.
abbrev pub to_signed : ℕ → ℕ → ℤ
to_signed w u = if ltb u (2 ^ (w - 1)) then pos u else negsuc (2 ^ w - 1 - u)

-- The values of `i<w>`.
abbrev pub InRange : ℕ → ℤ → Type 0
InRange w (pos n) = n < 2 ^ (w - 1)
InRange w (negsuc n) = n < 2 ^ (w - 1)

-- `i << 1`: the top bit is lost.
abbrev pub shl_one : ℕ → ℤ → ℤ
shl_one w i = to_signed w (to_unsigned w i * 2 % 2 ^ w)

-- `i >> k` keeps the sign: it rounds down.
abbrev pub shr : ℤ → ℕ → ℤ
shr (pos n) k = pos (n / 2 ^ k)
shr (negsuc n) k = negsuc (n / 2 ^ k)

-- `a ^ b`, on the bit patterns.
abbrev pub xor : ℕ → ℤ → ℤ → ℤ
xor w a b = to_signed w (bit_xor (to_unsigned w a) (to_unsigned w b))

-- `-i`; only the smallest value of the width has no negation in it, and no caller reaches it.
abbrev pub neg : ℤ → ℤ
neg (pos zero) = pos zero
neg (pos (suc n)) = negsuc n
neg (negsuc n) = pos (suc n)

pub to_signed-to_unsigned_32 : (i : ℤ) → InRange 32 i → to_signed 32 (to_unsigned 32 i) ≡ i
to_signed-to_unsigned_32 (pos n) h = ground arith
to_signed-to_unsigned_32 (negsuc n) h = ground arith

pub to_signed-to_unsigned_64 : (i : ℤ) → InRange 64 i → to_signed 64 (to_unsigned 64 i) ≡ i
to_signed-to_unsigned_64 (pos n) h = ground arith
to_signed-to_unsigned_64 (negsuc n) h = ground arith

pub to_unsigned-lt_32 : (i : ℤ) → InRange 32 i → to_unsigned 32 i < 2 ^ 32
to_unsigned-lt_32 (pos n) h = omega arith
to_unsigned-lt_32 (negsuc n) h = omega arith

pub to_unsigned-lt_64 : (i : ℤ) → InRange 64 i → to_unsigned 64 i < 2 ^ 64
to_unsigned-lt_64 (pos n) h = omega arith
to_unsigned-lt_64 (negsuc n) h = omega arith

pub to_unsigned-to_signed_32 : (u : ℕ) → u < 2 ^ 32 → to_unsigned 32 (to_signed 32 u) ≡ u
to_unsigned-to_signed_32 u h = ground arith

pub to_unsigned-to_signed_64 : (u : ℕ) → u < 2 ^ 64 → to_unsigned 64 (to_signed 64 u) ≡ u
to_unsigned-to_signed_64 u h = ground arith
