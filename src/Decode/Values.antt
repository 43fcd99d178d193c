-- ===== src/Decode/Values.antt =====
-- Each decoding operation reads back what the encoder writes for its type.
use micropb.Prelude.{ℕ, zero, suc, ◌-◌, ◌/◌, ◌%◌, ◌^◌, ◌<◌, ◌≡◌, refl, ap, ◌∙◌, arith}
use micropb.Prelude.{Bool, true, false, not, List, ◌++◌, length, ◌==◌}
use micropb.Prelude.{if◌then◌else◌, append-nil}
use micropb.Prelude.Int.{ℤ, pos, negsuc, InRange, to_unsigned, to_signed}
use micropb.Prelude.Int.{to_unsigned-lt_32, to_unsigned-lt_64}
use micropb.Prelude.Int.{to_signed-to_unsigned_32, to_signed-to_unsigned_64}
use micropb.Monad.{◌>>◌, M, ◌>>=◌, pure}
use micropb.Wire.{tag}
use micropb.Reader.Source.{Source, source_reader}
use micropb.Encode.{le_bytes}
use micropb.Encode.Bytes.{varint_bytes}
use micropb.Encode.Zigzag.{zigzag_value, zigzag_value-lt_32, zigzag_value-lt_64}
use micropb.Decode.{PbDecoder, DecodeError, from_le_bytes, unzigzag}
use micropb.Decode.{
  decode_int32, decode_int64, decode_sint32, decode_sint64, decode_bool, decode_tag,
}
use micropb.Decode.{decode_fixed32, decode_fixed64, decode_sfixed32, decode_sfixed64}
use micropb.Decode.{decode_fixed64_as_32, decode_sfixed64_as_32, decode_float, decode_double}
use micropb.Decode.{skip_bytes}
use micropb.Decode.Expect.{Decodes, >>=-Decodes, pure-Decodes, map_ok-Decodes}
use micropb.Decode.Expect.{read_exact-Decodes, skip_bytes-Decodes}
use micropb.Decode.Varint32.{decode_varint32-Decodes}
use micropb.Decode.Varint64.{decode_varint64-Decodes}
use micropb.Decode.Zigzag.{unzigzag_32, unzigzag_64}

low_half : (i : ℤ) → InRange 32 i → to_signed 32 (to_unsigned 64 i % 2 ^ 32) ≡ i
low_half (pos n) h =
    let same : n % 2 ^ 32 ≡ n = omega arith in rw same (to_signed-to_unsigned_32 (pos n) h)
low_half (negsuc n) h =
    let same : (2 ^ 64 - 1 - n) % 2 ^ 32 ≡ 2 ^ 32 - 1 - n = omega arith in
    rw same (to_signed-to_unsigned_32 (negsuc n) h)

-- An `i32` is an `i64`.
pub in_64 : (i : ℤ) → InRange 32 i → InRange 64 i
in_64 (pos n) h = omega arith
in_64 (negsuc n) h = omega arith

pub length-le_bytes : (n u : ℕ) → length (le_bytes n u) ≡ n
unfolding le_bytes
length-le_bytes zero u = refl
length-le_bytes (suc n) u = ap suc (length-le_bytes n (u / 256))

-- Little-endian bytes stand for the number, within their width.
from_le_bytes-le_bytes_4 : (u : ℕ) → u < 2 ^ 32 → from_le_bytes (le_bytes 4 u) ≡ u
unfolding from_le_bytes le_bytes
from_le_bytes-le_bytes_4 u h = omega arith

from_le_bytes-le_bytes_8 : (u : ℕ) → u < 2 ^ 64 → from_le_bytes (le_bytes 8 u) ≡ u
unfolding from_le_bytes le_bytes
from_le_bytes-le_bytes_8 u h = omega arith

module _ {E : Type 0} where
  pub int32-Decodes :
      (i : ℤ)
      → InRange 32 i
      → Decodes {E = E} (decode_int32 source_reader) (varint_bytes (to_unsigned 64 i)) i
  unfolding decode_int32
  int32-Decodes i h =
      map_ok-Decodes (to_signed 32) (low_half i h)
        (decode_varint32-Decodes (to_unsigned 64 i) (to_unsigned-lt_64 i (in_64 i h)))

  pub int64-Decodes :
      (i : ℤ)
      → InRange 64 i
      → Decodes {E = E} (decode_int64 source_reader) (varint_bytes (to_unsigned 64 i)) i
  unfolding decode_int64
  int64-Decodes i h =
      map_ok-Decodes (to_signed 64) (to_signed-to_unsigned_64 i h)
        (decode_varint64-Decodes (to_unsigned 64 i) (to_unsigned-lt_64 i h))

  pub sint32-Decodes :
      (i : ℤ)
      → InRange 32 i
      → Decodes {E = E} (decode_sint32 source_reader) (varint_bytes (zigzag_value i)) i
  unfolding decode_sint32
  sint32-Decodes i h =
      let low : zigzag_value i % 2 ^ 32 ≡ zigzag_value i = omega (arith, zigzag_value-lt_32 i h) in
      let wide : zigzag_value i < 2 ^ 64 = omega (arith, zigzag_value-lt_32 i h) in
      map_ok-Decodes (unzigzag 32) (ap (unzigzag 32) low ∙ unzigzag_32 i h)
        (decode_varint32-Decodes (zigzag_value i) wide)

  pub sint64-Decodes :
      (i : ℤ)
      → InRange 64 i
      → Decodes {E = E} (decode_sint64 source_reader) (varint_bytes (zigzag_value i)) i
  unfolding decode_sint64
  sint64-Decodes i h =
      map_ok-Decodes (unzigzag 64) (unzigzag_64 i h)
        (decode_varint64-Decodes (zigzag_value i) (zigzag_value-lt_64 i h))

  pub bool-Decodes :
      (b : Bool) → Decodes {E = E} (decode_bool source_reader) (varint_bytes (if b then 1 else 0)) b
  unfolding decode_bool
  bool-Decodes true =
      map_ok-Decodes (λ u. not (u == 0)) refl (decode_varint32-Decodes 1 (omega arith))
  bool-Decodes false =
      map_ok-Decodes (λ u. not (u == 0)) refl (decode_varint32-Decodes 0 (omega arith))

  pub tag-Decodes :
      (t : ℕ) → t < 2 ^ 32 → Decodes {E = E} (decode_tag source_reader) (varint_bytes t) (tag t)
  unfolding decode_tag
  tag-Decodes t h =
      let low : t % 2 ^ 32 ≡ t = omega arith in
      map_ok-Decodes tag (ap tag low) (decode_varint32-Decodes t (omega arith))

  pub fixed32-Decodes :
      (u : ℕ) → u < 2 ^ 32 → Decodes {E = E} (decode_fixed32 source_reader) (le_bytes 4 u) u
  unfolding decode_fixed32
  fixed32-Decodes u h =
      map_ok-Decodes from_le_bytes (from_le_bytes-le_bytes_4 u h)
        (rw (length-le_bytes 4 u) at (read_exact-Decodes {E = E} (le_bytes 4 u)))

  pub fixed64-Decodes :
      (u : ℕ) → u < 2 ^ 64 → Decodes {E = E} (decode_fixed64 source_reader) (le_bytes 8 u) u
  unfolding decode_fixed64
  fixed64-Decodes u h =
      map_ok-Decodes from_le_bytes (from_le_bytes-le_bytes_8 u h)
        (rw (length-le_bytes 8 u) at (read_exact-Decodes {E = E} (le_bytes 8 u)))

  pub sfixed32-Decodes :
      (i : ℤ)
      → InRange 32 i
      → Decodes {E = E} (decode_sfixed32 source_reader) (le_bytes 4 (to_unsigned 32 i)) i
  unfolding decode_sfixed32
  sfixed32-Decodes i h =
      map_ok-Decodes (to_signed 32) (to_signed-to_unsigned_32 i h)
        (fixed32-Decodes (to_unsigned 32 i) (to_unsigned-lt_32 i h))

  pub sfixed64-Decodes :
      (i : ℤ)
      → InRange 64 i
      → Decodes {E = E} (decode_sfixed64 source_reader) (le_bytes 8 (to_unsigned 64 i)) i
  unfolding decode_sfixed64
  sfixed64-Decodes i h =
      map_ok-Decodes (to_signed 64) (to_signed-to_unsigned_64 i h)
        (fixed64-Decodes (to_unsigned 64 i) (to_unsigned-lt_64 i h))

  pub float-Decodes :
      (u : ℕ) → u < 2 ^ 32 → Decodes {E = E} (decode_float source_reader) (le_bytes 4 u) u
  unfolding decode_float
  float-Decodes u h = fixed32-Decodes u h

  pub double-Decodes :
      (u : ℕ) → u < 2 ^ 64 → Decodes {E = E} (decode_double source_reader) (le_bytes 8 u) u
  unfolding decode_double
  double-Decodes u h =
      map_ok-Decodes from_le_bytes (from_le_bytes-le_bytes_8 u h)
        (rw (length-le_bytes 8 u) at (read_exact-Decodes {E = E} (le_bytes 8 u)))

  skip_four :
      (high : List ℕ) → length high ≡ 4 → Decodes {E = E} (skip_bytes source_reader 4) high tt
  skip_four high four = rw four at (skip_bytes-Decodes {E = E} high)

  then_skip :
      {A : Type 0} {m : M (PbDecoder (Source E)) (DecodeError E) A} (low high : List ℕ) (x : A)
      → Decodes m low x
      → length high ≡ 4
      → Decodes (do n ← m; skip_bytes source_reader 4; pure n) (low ++ high) x
  then_skip {m = m} low high x h four =
      let behind : Decodes (skip_bytes source_reader 4 >> pure x) high x =
        rw append-nil at
          (>>=-Decodes (λ _. pure x) (skip_four high four) (pure-Decodes {E = E} x)) in
      >>=-Decodes (λ n. skip_bytes source_reader 4 >> pure n) h behind

  -- A 64-bit field read as 32 bits: any four bytes may follow the low four.
  pub fixed64_as_32-Decodes :
      (u : ℕ) (high : List ℕ)
      → u < 2 ^ 32
      → length high ≡ 4
      → Decodes {E = E} (decode_fixed64_as_32 source_reader) (le_bytes 4 u ++ high) u
  unfolding decode_fixed64_as_32
  fixed64_as_32-Decodes u high h four = then_skip (le_bytes 4 u) high u (fixed32-Decodes u h) four

  pub sfixed64_as_32-Decodes :
      (i : ℤ) (high : List ℕ)
      → InRange 32 i
      → length high ≡ 4
      → Decodes {E = E}
          (decode_sfixed64_as_32 source_reader)
          (le_bytes 4 (to_unsigned 32 i) ++ high)
          i
  unfolding decode_sfixed64_as_32
  sfixed64_as_32-Decodes i high h four =
      then_skip (le_bytes 4 (to_unsigned 32 i)) high i (sfixed32-Decodes i h) four
