-- ===== src/Encode/Values.antt =====
-- What the encoder writes for each type of value.
use micropb.Prelude.{ℕ, ◌%◌, ◌^◌, ◌<◌, arith}
use micropb.Prelude.{Bool, true, false, List, [], ◌∷◌, ◌++◌, length, All}
use micropb.Prelude.{if◌then◌else◌}
use micropb.Prelude.Int.{ℤ, pos, negsuc, InRange, to_unsigned}
use micropb.Prelude.Int.{to_unsigned-lt_64}
use mathlib.Core.List.{flat_map}
use micropb.Wire.{Tag, varint}
use micropb.Monad.{M}
use micropb.Writer.{PbWrite}
use micropb.Encode.{PbEncoder}
use micropb.Encode.{encode_varint32, encode_varint64, encode_int32, encode_int64, encode_sint32}
use micropb.Encode.{
  encode_sint64, encode_bool, encode_bytes, encode_each, encode_packed, encode_tag,
}
use micropb.Encode.Bytes.{groups, varint_bytes}
use micropb.Encode.Output.{IsAppender, Writes, write-Writes, >>-Writes, pure-Writes}
use micropb.Encode.Varint.{byte-Writes, varint-Writes, negative-Writes}
use micropb.Encode.Zigzag.{
  zigzag_value, zigzag_32, zigzag_64, zigzag_value-lt_32, zigzag_value-lt_64,
}

module _ {W E : Type 0} {wr : PbWrite W E} (a : IsAppender wr) where
  -- A `uint32` is written as a varint.
  pub varint32-Writes : (u : ℕ) → u < 2 ^ 32 → Writes a (encode_varint32 wr u) (varint_bytes u)
  unfolding encode_varint32
  varint32-Writes u h = varint-Writes a u (omega arith)

  pub varint64-Writes : (u : ℕ) → u < 2 ^ 64 → Writes a (encode_varint64 wr u) (varint_bytes u)
  unfolding encode_varint64
  varint64-Writes u h = varint-Writes a u h

  -- An `int32`, negative or not, is written as the varint of its 64-bit two's complement.
  pub int32-Writes :
      (i : ℤ) → InRange 32 i → Writes a (encode_int32 wr i) (varint_bytes (to_unsigned 64 i))
  unfolding encode_int32
  int32-Writes (pos n) h = varint-Writes a n (omega arith)
  int32-Writes (negsuc n) h = negative-Writes a n h

  pub int64-Writes :
      (i : ℤ) → InRange 64 i → Writes a (encode_int64 wr i) (varint_bytes (to_unsigned 64 i))
  unfolding encode_int64
  int64-Writes i h = varint64-Writes (to_unsigned 64 i) (to_unsigned-lt_64 i h)

  pub sint32-Writes :
      (i : ℤ) → InRange 32 i → Writes a (encode_sint32 wr i) (varint_bytes (zigzag_value i))
  unfolding encode_sint32
  sint32-Writes i h = rw (zigzag_32 i h) (varint32-Writes (zigzag_value i) (zigzag_value-lt_32 i h))

  pub sint64-Writes :
      (i : ℤ) → InRange 64 i → Writes a (encode_sint64 wr i) (varint_bytes (zigzag_value i))
  unfolding encode_sint64
  sint64-Writes i h = rw (zigzag_64 i h) (varint64-Writes (zigzag_value i) (zigzag_value-lt_64 i h))

  pub bool-Writes : (b : Bool) → Writes a (encode_bool wr b) (varint_bytes (if b then 1 else 0))
  unfolding encode_bool
  bool-Writes true = unfold varint_bytes groups in byte-Writes a 1
  bool-Writes false = unfold varint_bytes groups in byte-Writes a 0

  pub tag-Writes :
      (t : Tag) → varint t < 2 ^ 32 → Writes a (encode_tag wr t) (varint_bytes (varint t))
  unfolding encode_tag
  tag-Writes t h = varint32-Writes (varint t) h

  -- The length prefix counts the bytes behind it modulo 2 ^ 32.
  pub bytes-Writes :
      (bytes : List ℕ)
      → Writes a (encode_bytes wr bytes) (varint_bytes (length bytes % 2 ^ 32) ++ bytes)
  unfolding encode_bytes
  bytes-Writes bytes =
      >>-Writes a (varint32-Writes (length bytes % 2 ^ 32) (omega arith)) (write-Writes a bytes)

  module _ {T : Type 0} (P : T → Type 0) (encoder : T → M (PbEncoder W) E (Unit {0}))
      (wire : T → List ℕ) (each : (x : T) → P x → Writes a (encoder x) (wire x)) where
    pub each-Writes :
        (elems : List T)
        → All P elems
        → Writes a (encode_each wr elems encoder) (flat_map wire elems)
    unfolding encode_each flat_map
    each-Writes [] h = pure-Writes a
    each-Writes (x ∷ elems) h = >>-Writes a (each x h.0) (each-Writes elems h.1)

    pub packed-Writes :
        (len : ℕ) (elems : List T)
        → All P elems
        → Writes a
            (encode_packed wr len elems encoder)
            (varint_bytes (len % 2 ^ 32) ++ flat_map wire elems)
    unfolding encode_packed
    packed-Writes len elems h =
        >>-Writes a (varint32-Writes (len % 2 ^ 32) (omega arith)) (each-Writes elems h)
