-- ===== src/Encode/Zigzag.antt =====
-- The zigzag form of a signed number: 0, -1, 1, -2, 2, … are 0, 1, 2, 3, 4, ….
use micropb.Prelude.{◌<◌, ℕ, ◌+◌, ◌-◌, ◌*◌, ◌/◌, ◌%◌, ◌^◌, ◌≡◌, arith}
use micropb.Prelude.Bits.{bit_xor-zero, bit_xor_ones}
use micropb.Prelude.Int.{ℤ, pos, negsuc, InRange}
use micropb.Prelude.Int.{to_unsigned-to_signed_32, to_unsigned-to_signed_64}
use micropb.Encode.{zigzag}

abbrev pub zigzag_value : ℤ → ℕ
zigzag_value (pos n) = 2 * n
zigzag_value (negsuc n) = 2 * n + 1

pub zigzag_32 : (i : ℤ) → InRange 32 i → zigzag 32 31 i ≡ zigzag_value i
zigzag_32 (pos n) h =
    let none_left : n / 2 ^ 31 ≡ 0 = omega arith in
    let doubled : n * 2 % 2 ^ 32 ≡ 2 * n = omega arith in
    rw (none_left, doubled, to_unsigned-to_signed_32 (2 * n) (omega arith), bit_xor-zero (2 * n))
      (to_unsigned-to_signed_32 (2 * n) (omega arith))
zigzag_32 (negsuc n) h =
    let none_left : n / 2 ^ 31 ≡ 0 = omega arith in
    let back : 2 ^ 32 - 1 - (2 ^ 32 - 2 - 2 * n) ≡ 2 * n + 1 = omega arith in
    let doubled : (2 ^ 32 - 1 - n) * 2 % 2 ^ 32 ≡ 2 ^ 32 - 2 - 2 * n = omega arith in
    rw
      (
        none_left,
        doubled,
        to_unsigned-to_signed_32 (2 ^ 32 - 2 - 2 * n) (omega arith),
        bit_xor_ones 32 (2 ^ 32 - 2 - 2 * n) (omega arith),
        back,
      )
      (to_unsigned-to_signed_32 (2 * n + 1) (omega arith))

pub zigzag_64 : (i : ℤ) → InRange 64 i → zigzag 64 63 i ≡ zigzag_value i
zigzag_64 (pos n) h =
    let none_left : n / 2 ^ 63 ≡ 0 = omega arith in
    let doubled : n * 2 % 2 ^ 64 ≡ 2 * n = omega arith in
    rw (none_left, doubled, to_unsigned-to_signed_64 (2 * n) (omega arith), bit_xor-zero (2 * n))
      (to_unsigned-to_signed_64 (2 * n) (omega arith))
zigzag_64 (negsuc n) h =
    let none_left : n / 2 ^ 63 ≡ 0 = omega arith in
    let back : 2 ^ 64 - 1 - (2 ^ 64 - 2 - 2 * n) ≡ 2 * n + 1 = omega arith in
    let doubled : (2 ^ 64 - 1 - n) * 2 % 2 ^ 64 ≡ 2 ^ 64 - 2 - 2 * n = omega arith in
    rw
      (
        none_left,
        doubled,
        to_unsigned-to_signed_64 (2 ^ 64 - 2 - 2 * n) (omega arith),
        bit_xor_ones 64 (2 ^ 64 - 2 - 2 * n) (omega arith),
        back,
      )
      (to_unsigned-to_signed_64 (2 * n + 1) (omega arith))

pub zigzag_value-lt_32 : (i : ℤ) → InRange 32 i → zigzag_value i < 2 ^ 32
zigzag_value-lt_32 (pos n) h = omega arith
zigzag_value-lt_32 (negsuc n) h = omega arith

pub zigzag_value-lt_64 : (i : ℤ) → InRange 64 i → zigzag_value i < 2 ^ 64
zigzag_value-lt_64 (pos n) h = omega arith
zigzag_value-lt_64 (negsuc n) h = omega arith
