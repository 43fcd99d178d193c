-- ===== src/Decode/Zigzag.antt =====
-- `decode_sint32` and `decode_sint64` undo the zigzag form.
use micropb.Prelude.{◌+◌, ◌*◌, ◌/◌, ◌≡◌, ◌∙◌, arith}
use micropb.Prelude.{bit_and}
use micropb.Prelude.Bits.{bit_and_ones, bit_xor-zero, bit_xor_ones}
use micropb.Prelude.Int.{
  ℤ, pos, negsuc, InRange, to_signed-to_unsigned_32, to_signed-to_unsigned_64,
  to_unsigned-to_signed_32, to_unsigned-to_signed_64,
}
use micropb.Encode.Zigzag.{zigzag_value}
use micropb.Decode.{unzigzag}

pub unzigzag_32 : (i : ℤ) → InRange 32 i → unzigzag 32 (zigzag_value i) ≡ i
unzigzag_32 (pos n) h =
    let half : 2 * n / 2 ≡ n = omega arith in
    let low : bit_and (2 * n) 1 ≡ 0 = bit_and_ones 1 (2 * n) ∙ omega arith in
    rw (half, low, to_signed-to_unsigned_32 (pos n) h, bit_xor-zero n)
      (to_signed-to_unsigned_32 (pos n) h)
unzigzag_32 (negsuc n) h =
    let half : (2 * n + 1) / 2 ≡ n = omega arith in
    let low : bit_and (2 * n + 1) 1 ≡ 1 = bit_and_ones 1 (2 * n + 1) ∙ omega arith in
    rw (half, low, to_unsigned-to_signed_32 n (omega arith), bit_xor_ones 32 n (omega arith))
      (to_signed-to_unsigned_32 (negsuc n) h)

pub unzigzag_64 : (i : ℤ) → InRange 64 i → unzigzag 64 (zigzag_value i) ≡ i
unzigzag_64 (pos n) h =
    let half : 2 * n / 2 ≡ n = omega arith in
    let low : bit_and (2 * n) 1 ≡ 0 = bit_and_ones 1 (2 * n) ∙ omega arith in
    rw (half, low, to_signed-to_unsigned_64 (pos n) h, bit_xor-zero n)
      (to_signed-to_unsigned_64 (pos n) h)
unzigzag_64 (negsuc n) h =
    let half : (2 * n + 1) / 2 ≡ n = omega arith in
    let low : bit_and (2 * n + 1) 1 ≡ 1 = bit_and_ones 1 (2 * n + 1) ∙ omega arith in
    rw (half, low, to_unsigned-to_signed_64 n (omega arith), bit_xor_ones 64 n (omega arith))
      (to_signed-to_unsigned_64 (negsuc n) h)
