-- ===== src/TypeSpec/Carried.antt =====
-- The methods that the generator picks for an integer field carry the field's values.
use native.Mathlib.Nat.{mod-eq_of_lt}
use micropb.Prelude.{ℕ, ◌^◌, ◌<◌, ◌≡◌, refl, sym, ap, arith, Bool, true, false}
use micropb.Prelude.Int.{ℤ, pos, negsuc, InRange}
use micropb.Monad.{M, map_ok}
use micropb.Writer.{PbWrite}
use micropb.Encode.{PbEncoder}
use micropb.Encode.Output.{IsAppender}
use micropb.Size
use micropb.Reader.{PbRead}
use micropb.Reader.Source.{Source, source_reader}
use micropb.Reader.Laws.{IsReader}
use micropb.Decode.{PbDecoder, DecodeError}
use micropb.Decode.Agree.{map_ok-Agree}
use micropb.Decode.Expect.{map_ok-Decodes}
use micropb.RoundTrip.{Carries}
use micropb.RoundTrip.Scalars
use micropb.RoundTrip.Fixed
use micropb.TypeSpec

-- The values of `i<w>` or `u<w>`.
abbrev pub InType : Bool → ℕ → ℤ → Type 0
InType true w i = InRange w i
InType false w (pos n) = n < 2 ^ w
InType false w (negsuc n) = ⊥

as_int_8 : (i : ℤ) → InRange 8 i → TypeSpec.as_int true 8 i ≡ i
as_int_8 (pos n) h = ground arith
as_int_8 (negsuc n) h = ground arith

as_int_16 : (i : ℤ) → InRange 16 i → TypeSpec.as_int true 16 i ≡ i
as_int_16 (pos n) h = ground arith
as_int_16 (negsuc n) h = ground arith

as_int_32 : (i : ℤ) → InRange 32 i → TypeSpec.as_int true 32 i ≡ i
as_int_32 (pos n) h = ground arith
as_int_32 (negsuc n) h = ground arith

as_int_64 : (i : ℤ) → InRange 64 i → TypeSpec.as_int true 64 i ≡ i
as_int_64 (pos n) h = ground arith
as_int_64 (negsuc n) h = ground arith

as_nat-below : (w n : ℕ) → n < 2 ^ w → TypeSpec.as_int false w (pos n) ≡ pos n
as_nat-below w n h = ap pos (mod-eq_of_lt h)

-- A cast to the type of the field keeps the values of that type.
pub as_int_lem :
    (signed : Bool) (size : TypeSpec.IntSize) (i : ℤ)
    → InType signed (TypeSpec.type_name size) i
    → TypeSpec.as_int signed (TypeSpec.type_name size) i ≡ i
unfolding TypeSpec.type_name
as_int_lem true TypeSpec.s8 i h = as_int_8 i h
as_int_lem true TypeSpec.s16 i h = as_int_16 i h
as_int_lem true TypeSpec.s32 i h = as_int_32 i h
as_int_lem true TypeSpec.s64 i h = as_int_64 i h
as_int_lem false size (pos n) h = as_nat-below (TypeSpec.type_name size) n h
as_int_lem false size (negsuc n) h = absurd h

-- What a method carries: the sign, the width and the size of its values.
abbrev pub codec_signed : TypeSpec.Codec → Bool
codec_signed TypeSpec.int32_codec = true
codec_signed TypeSpec.int64_codec = true
codec_signed TypeSpec.varint32_codec = false
codec_signed TypeSpec.varint64_codec = false
codec_signed TypeSpec.sint32_codec = true
codec_signed TypeSpec.sint64_codec = true
codec_signed TypeSpec.sfixed32_codec = true
codec_signed TypeSpec.sfixed64_codec = true
codec_signed TypeSpec.fixed32_codec = false
codec_signed TypeSpec.fixed64_codec = false
codec_signed TypeSpec.sfixed64_as_32_codec = true
codec_signed TypeSpec.fixed64_as_32_codec = false

abbrev pub codec_width : TypeSpec.Codec → ℕ
codec_width TypeSpec.int32_codec = 32
codec_width TypeSpec.int64_codec = 64
codec_width TypeSpec.varint32_codec = 32
codec_width TypeSpec.varint64_codec = 64
codec_width TypeSpec.sint32_codec = 32
codec_width TypeSpec.sint64_codec = 64
codec_width TypeSpec.sfixed32_codec = 32
codec_width TypeSpec.sfixed64_codec = 64
codec_width TypeSpec.fixed32_codec = 32
codec_width TypeSpec.fixed64_codec = 64
codec_width TypeSpec.sfixed64_as_32_codec = 32
codec_width TypeSpec.fixed64_as_32_codec = 32

abbrev pub codec_size : TypeSpec.Codec → ℤ → ℕ
codec_size TypeSpec.int32_codec i = Size.sizeof_int32 (TypeSpec.as_int true 32 i)
codec_size TypeSpec.int64_codec i = Size.sizeof_int64 (TypeSpec.as_int true 64 i)
codec_size TypeSpec.varint32_codec i = Size.sizeof_varint32 (TypeSpec.as_bits 32 i)
codec_size TypeSpec.varint64_codec i = Size.sizeof_varint64 (TypeSpec.as_bits 64 i)
codec_size TypeSpec.sint32_codec i = Size.sizeof_sint32 (TypeSpec.as_int true 32 i)
codec_size TypeSpec.sint64_codec i = Size.sizeof_sint64 (TypeSpec.as_int true 64 i)
codec_size TypeSpec.sfixed32_codec i = 4
codec_size TypeSpec.sfixed64_codec i = 8
codec_size TypeSpec.fixed32_codec i = 4
codec_size TypeSpec.fixed64_codec i = 8
codec_size TypeSpec.sfixed64_as_32_codec i = 8
codec_size TypeSpec.fixed64_as_32_codec i = 8

module _ {W F R E : Type 0} {wr : PbWrite W F} {rd : PbRead R E} (a : IsAppender wr)
    (h : IsReader rd) where
  pub map-Carries :
      {A B : Type 0} {encode : M (PbEncoder W) F (Unit {0})}
      {decode : M (PbDecoder R) (DecodeError E) A}
      {plain : M (PbDecoder (Source E)) (DecodeError E) A} {size : ℕ} {x : A} {y : B} (f : A → B)
      → f x ≡ y
      → Carries a h encode decode plain size x
      → Carries a h encode (map_ok f decode) (map_ok f plain) size y
  map-Carries f e c = record {
    bytes = c.bytes;
    writes = c.writes;
    sized = c.sized;
    decodes = map_ok-Decodes f e c.decodes;
    agrees = map_ok-Agree h f c.agrees;
  }

  codec-Carries :
      (c : TypeSpec.Codec) (i : ℤ)
      → InType (codec_signed c) (codec_width c) i
      → Carries a h
          (TypeSpec.call_encode wr c i)
          (TypeSpec.call_decode rd c)
          (TypeSpec.call_decode source_reader c)
          (codec_size c i)
          i
  unfolding TypeSpec.call_encode TypeSpec.call_decode
  codec-Carries TypeSpec.int32_codec i k = rw (as_int_32 i k) (Scalars.int32-Carries a h i k)
  codec-Carries TypeSpec.int64_codec i k = rw (as_int_64 i k) (Scalars.int64-Carries a h i k)
  codec-Carries TypeSpec.varint32_codec (pos n) k =
      rw (mod-eq_of_lt k) (map-Carries pos refl (Scalars.uint32-Carries a h n k))
  codec-Carries TypeSpec.varint32_codec (negsuc n) k = absurd k
  codec-Carries TypeSpec.varint64_codec (pos n) k =
      rw (mod-eq_of_lt k) (map-Carries pos refl (Scalars.uint64-Carries a h n k))
  codec-Carries TypeSpec.varint64_codec (negsuc n) k = absurd k
  codec-Carries TypeSpec.sint32_codec i k = rw (as_int_32 i k) (Scalars.sint32-Carries a h i k)
  codec-Carries TypeSpec.sint64_codec i k = rw (as_int_64 i k) (Scalars.sint64-Carries a h i k)
  codec-Carries TypeSpec.sfixed32_codec i k = rw (as_int_32 i k) (Fixed.sfixed32-Carries a h i k)
  codec-Carries TypeSpec.sfixed64_codec i k = rw (as_int_64 i k) (Fixed.sfixed64-Carries a h i k)
  codec-Carries TypeSpec.fixed32_codec (pos n) k =
      rw (mod-eq_of_lt k) (map-Carries pos refl (Fixed.fixed32-Carries a h n k))
  codec-Carries TypeSpec.fixed32_codec (negsuc n) k = absurd k
  codec-Carries TypeSpec.fixed64_codec (pos n) k =
      rw (mod-eq_of_lt k) (map-Carries pos refl (Fixed.fixed64-Carries a h n k))
  codec-Carries TypeSpec.fixed64_codec (negsuc n) k = absurd k
  codec-Carries TypeSpec.sfixed64_as_32_codec i k =
      rw (as_int_32 i k) (Fixed.sfixed64_as_32-Carries a h i k)
  codec-Carries TypeSpec.fixed64_as_32_codec (pos n) k =
      rw (mod-eq_of_lt k) (map-Carries pos refl (Fixed.fixed64_as_32-Carries a h n k))
  codec-Carries TypeSpec.fixed64_as_32_codec (negsuc n) k = absurd k

-- What the generator picks fits together.
same_codec :
    (t : TypeSpec.PbInt) (size : TypeSpec.IntSize)
    → TypeSpec.generate_encode_func t size ≡ TypeSpec.generate_decode_func t size
unfolding TypeSpec.generate_encode_func TypeSpec.generate_decode_func
same_codec TypeSpec.int64 TypeSpec.s64 = refl
same_codec TypeSpec.int64 TypeSpec.s8 = refl
same_codec TypeSpec.int64 TypeSpec.s16 = refl
same_codec TypeSpec.int64 TypeSpec.s32 = refl
same_codec TypeSpec.uint64 TypeSpec.s64 = refl
same_codec TypeSpec.uint64 TypeSpec.s8 = refl
same_codec TypeSpec.uint64 TypeSpec.s16 = refl
same_codec TypeSpec.uint64 TypeSpec.s32 = refl
same_codec TypeSpec.sint64 TypeSpec.s64 = refl
same_codec TypeSpec.sint64 TypeSpec.s8 = refl
same_codec TypeSpec.sint64 TypeSpec.s16 = refl
same_codec TypeSpec.sint64 TypeSpec.s32 = refl
same_codec TypeSpec.sfixed64 TypeSpec.s64 = refl
same_codec TypeSpec.sfixed64 TypeSpec.s8 = refl
same_codec TypeSpec.sfixed64 TypeSpec.s16 = refl
same_codec TypeSpec.sfixed64 TypeSpec.s32 = refl
same_codec TypeSpec.fixed64 TypeSpec.s64 = refl
same_codec TypeSpec.fixed64 TypeSpec.s8 = refl
same_codec TypeSpec.fixed64 TypeSpec.s16 = refl
same_codec TypeSpec.fixed64 TypeSpec.s32 = refl
same_codec TypeSpec.int32 size = refl
same_codec TypeSpec.uint32 size = refl
same_codec TypeSpec.sint32 size = refl
same_codec TypeSpec.sfixed32 size = refl
same_codec TypeSpec.fixed32 size = refl

same_sign :
    (t : TypeSpec.PbInt) (size : TypeSpec.IntSize)
    → TypeSpec.is_signed t ≡ codec_signed (TypeSpec.generate_encode_func t size)
unfolding TypeSpec.generate_encode_func TypeSpec.is_signed
same_sign TypeSpec.int64 TypeSpec.s64 = refl
same_sign TypeSpec.int64 TypeSpec.s8 = refl
same_sign TypeSpec.int64 TypeSpec.s16 = refl
same_sign TypeSpec.int64 TypeSpec.s32 = refl
same_sign TypeSpec.uint64 TypeSpec.s64 = refl
same_sign TypeSpec.uint64 TypeSpec.s8 = refl
same_sign TypeSpec.uint64 TypeSpec.s16 = refl
same_sign TypeSpec.uint64 TypeSpec.s32 = refl
same_sign TypeSpec.sint64 TypeSpec.s64 = refl
same_sign TypeSpec.sint64 TypeSpec.s8 = refl
same_sign TypeSpec.sint64 TypeSpec.s16 = refl
same_sign TypeSpec.sint64 TypeSpec.s32 = refl
same_sign TypeSpec.sfixed64 TypeSpec.s64 = refl
same_sign TypeSpec.sfixed64 TypeSpec.s8 = refl
same_sign TypeSpec.sfixed64 TypeSpec.s16 = refl
same_sign TypeSpec.sfixed64 TypeSpec.s32 = refl
same_sign TypeSpec.fixed64 TypeSpec.s64 = refl
same_sign TypeSpec.fixed64 TypeSpec.s8 = refl
same_sign TypeSpec.fixed64 TypeSpec.s16 = refl
same_sign TypeSpec.fixed64 TypeSpec.s32 = refl
same_sign TypeSpec.int32 size = refl
same_sign TypeSpec.uint32 size = refl
same_sign TypeSpec.sint32 size = refl
same_sign TypeSpec.sfixed32 size = refl
same_sign TypeSpec.fixed32 size = refl

same_size :
    (t : TypeSpec.PbInt) (size : TypeSpec.IntSize) (i : ℤ)
    → TypeSpec.generate_sizeof t size i ≡ codec_size (TypeSpec.generate_encode_func t size) i
unfolding TypeSpec.generate_encode_func TypeSpec.generate_sizeof
same_size TypeSpec.int64 TypeSpec.s64 i = refl
same_size TypeSpec.int64 TypeSpec.s8 i = refl
same_size TypeSpec.int64 TypeSpec.s16 i = refl
same_size TypeSpec.int64 TypeSpec.s32 i = refl
same_size TypeSpec.uint64 TypeSpec.s64 i = refl
same_size TypeSpec.uint64 TypeSpec.s8 i = refl
same_size TypeSpec.uint64 TypeSpec.s16 i = refl
same_size TypeSpec.uint64 TypeSpec.s32 i = refl
same_size TypeSpec.sint64 TypeSpec.s64 i = refl
same_size TypeSpec.sint64 TypeSpec.s8 i = refl
same_size TypeSpec.sint64 TypeSpec.s16 i = refl
same_size TypeSpec.sint64 TypeSpec.s32 i = refl
same_size TypeSpec.sfixed64 TypeSpec.s64 i = refl
same_size TypeSpec.sfixed64 TypeSpec.s8 i = refl
same_size TypeSpec.sfixed64 TypeSpec.s16 i = refl
same_size TypeSpec.sfixed64 TypeSpec.s32 i = refl
same_size TypeSpec.fixed64 TypeSpec.s64 i = refl
same_size TypeSpec.fixed64 TypeSpec.s8 i = refl
same_size TypeSpec.fixed64 TypeSpec.s16 i = refl
same_size TypeSpec.fixed64 TypeSpec.s32 i = refl
same_size TypeSpec.int32 size i = refl
same_size TypeSpec.uint32 size i = refl
same_size TypeSpec.sint32 size i = refl
same_size TypeSpec.sfixed32 size i = refl
same_size TypeSpec.fixed32 size i = refl

module _ {W F R E : Type 0} {wr : PbWrite W F} {rd : PbRead R E} (a : IsAppender wr)
    (h : IsReader rd) where
  -- The value on the wire, before the cast to the field's type.
  pub wire_value-Carries :
      (t : TypeSpec.PbInt) (size : TypeSpec.IntSize) (i : ℤ)
      → InType (TypeSpec.is_signed t) (codec_width (TypeSpec.generate_encode_func t size)) i
      → Carries a h
          (TypeSpec.generate_encode_expr wr t size i)
          (TypeSpec.call_decode rd (TypeSpec.generate_decode_func t size))
          (TypeSpec.call_decode source_reader (TypeSpec.generate_decode_func t size))
          (TypeSpec.generate_sizeof t size i)
          i
  unfolding TypeSpec.generate_encode_expr
  wire_value-Carries t size i l =
      rw (sym (same_codec t size), same_size t size i)
        (codec-Carries a h (TypeSpec.generate_encode_func t size) i (rw (same_sign t size) at l))

  -- For each of the ten Protobuf integer types and each width of the Rust type, every value of the
  -- field's type that also fits the argument of the method that `generate_encode_func` picks is
  -- written by that method in the number of bytes that `generate_sizeof` gives and read back by the
  -- one that `generate_decode_func` picks with its casts, over any writer and reader.
  pub int_field-Carries :
      (t : TypeSpec.PbInt) (size : TypeSpec.IntSize) (i : ℤ)
      → InType (TypeSpec.is_signed t) (TypeSpec.type_name size) i
      → InType (TypeSpec.is_signed t) (codec_width (TypeSpec.generate_encode_func t size)) i
      → Carries a h
          (TypeSpec.generate_encode_expr wr t size i)
          (TypeSpec.generate_decode_val rd t size)
          (TypeSpec.generate_decode_val source_reader t size)
          (TypeSpec.generate_sizeof t size i)
          i
  unfolding TypeSpec.generate_decode_val
  int_field-Carries t size i k l =
      map-Carries a h (TypeSpec.as_int (TypeSpec.is_signed t) (TypeSpec.type_name size))
        (as_int_lem (TypeSpec.is_signed t) size i k) (wire_value-Carries t size i l)
