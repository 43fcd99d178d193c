-- ===== src/TypeSpec.antt =====
-- The integer types of micropb-gen/src/generator/type_spec.rs: which methods of the runtime the
-- generated code calls for a field, by its Protobuf type and the width of its Rust type.
pub mod Carried
use micropb.Prelude.{ℕ, ◌%◌, ◌^◌, Bool, true, false, Option, none, some}
use micropb.Prelude.Int.{ℤ, pos, to_signed, to_unsigned}
use micropb.Monad.{M, map_ok}
use micropb.Wire.{wire_type_varint, wire_type_i32, wire_type_i64, wire_type_len}
use micropb.Writer.{PbWrite}
use micropb.Encode
use micropb.Encode.{PbEncoder}
use micropb.Size
use micropb.Reader.{PbRead}
use micropb.Decode
use micropb.Decode.{PbDecoder, DecodeError}

-- micropb-gen/src/config.rs.
pub data IntSize : Type 0 where
  s8 s16 s32 s64 : IntSize

pub data PbInt : Type 0 where
  int32 int64 uint32 uint64 sint32 sint64 sfixed32 sfixed64 fixed32 fixed64 : PbInt

-- The methods `decode_int32`, `encode_int32` and so on, by what follows the first word.
pub data Codec : Type 0 where
  int32_codec int64_codec varint32_codec varint64_codec sint32_codec sint64_codec : Codec
  sfixed32_codec sfixed64_codec fixed32_codec fixed64_codec : Codec
  sfixed64_as_32_codec fixed64_as_32_codec : Codec

-- A type's path is of any type `P`.
pub data TypeSpec (P : Type 0) : Type 0 where
  message enum : P → TypeSpec P
  float double bool : TypeSpec P
  int : PbInt → IntSize → TypeSpec P
  string bytes : P → Option ℕ → TypeSpec P

-- The width in the name that `IntSize::type_name` gives; the other half of it is the sign.
unfoldable pub type_name : IntSize → ℕ
type_name s8 = 8
type_name s16 = 16
type_name s32 = 32
type_name s64 = 64

unfoldable pub is_signed : PbInt → Bool
is_signed int32 = true
is_signed int64 = true
is_signed uint32 = false
is_signed uint64 = false
is_signed sint32 = true
is_signed sint64 = true
is_signed sfixed32 = true
is_signed sfixed64 = true
is_signed fixed32 = false
is_signed fixed64 = false

unfoldable pub generate_decode_func : PbInt → IntSize → Codec
generate_decode_func int64 s64 = int64_codec
generate_decode_func int64 s8 = int32_codec
generate_decode_func int64 s16 = int32_codec
generate_decode_func int64 s32 = int32_codec
generate_decode_func uint64 s64 = varint64_codec
generate_decode_func uint64 s8 = varint32_codec
generate_decode_func uint64 s16 = varint32_codec
generate_decode_func uint64 s32 = varint32_codec
generate_decode_func sint64 s64 = sint64_codec
generate_decode_func sint64 s8 = sint32_codec
generate_decode_func sint64 s16 = sint32_codec
generate_decode_func sint64 s32 = sint32_codec
generate_decode_func fixed64 s64 = fixed64_codec
generate_decode_func fixed64 s8 = fixed64_as_32_codec
generate_decode_func fixed64 s16 = fixed64_as_32_codec
generate_decode_func fixed64 s32 = fixed64_as_32_codec
generate_decode_func sfixed64 s64 = sfixed64_codec
generate_decode_func sfixed64 s8 = sfixed64_as_32_codec
generate_decode_func sfixed64 s16 = sfixed64_as_32_codec
generate_decode_func sfixed64 s32 = sfixed64_as_32_codec
generate_decode_func int32 size = int32_codec
generate_decode_func uint32 size = varint32_codec
generate_decode_func sint32 size = sint32_codec
generate_decode_func sfixed32 size = sfixed32_codec
generate_decode_func fixed32 size = fixed32_codec

unfoldable pub generate_encode_func : PbInt → IntSize → Codec
generate_encode_func int64 s64 = int64_codec
generate_encode_func int64 s8 = int32_codec
generate_encode_func int64 s16 = int32_codec
generate_encode_func int64 s32 = int32_codec
generate_encode_func uint64 s64 = varint64_codec
generate_encode_func uint64 s8 = varint32_codec
generate_encode_func uint64 s16 = varint32_codec
generate_encode_func uint64 s32 = varint32_codec
generate_encode_func sint64 s64 = sint64_codec
generate_encode_func sint64 s8 = sint32_codec
generate_encode_func sint64 s16 = sint32_codec
generate_encode_func sint64 s32 = sint32_codec
generate_encode_func fixed64 s64 = fixed64_codec
generate_encode_func fixed64 s8 = fixed64_as_32_codec
generate_encode_func fixed64 s16 = fixed64_as_32_codec
generate_encode_func fixed64 s32 = fixed64_as_32_codec
generate_encode_func sfixed64 s64 = sfixed64_codec
generate_encode_func sfixed64 s8 = sfixed64_as_32_codec
generate_encode_func sfixed64 s16 = sfixed64_as_32_codec
generate_encode_func sfixed64 s32 = sfixed64_as_32_codec
generate_encode_func int32 size = int32_codec
generate_encode_func uint32 size = varint32_codec
generate_encode_func sint32 size = sint32_codec
generate_encode_func sfixed32 size = sfixed32_codec
generate_encode_func fixed32 size = fixed32_codec

-- `x as _`, to an integer type with or without a sign, of a width of up to 64 bits.
abbrev pub as_int : Bool → ℕ → ℤ → ℤ
as_int true w i = to_signed w (to_unsigned 64 i % 2 ^ w)
as_int false w i = pos (to_unsigned 64 i % 2 ^ w)

abbrev pub as_bits : ℕ → ℤ → ℕ
as_bits w i = to_unsigned 64 i % 2 ^ w

-- `PbInt::generate_sizeof`, applied to the field's value.
unfoldable pub generate_sizeof : PbInt → IntSize → ℤ → ℕ
generate_sizeof int64 s64 i = Size.sizeof_int64 (as_int true 64 i)
generate_sizeof int64 s8 i = Size.sizeof_int32 (as_int true 32 i)
generate_sizeof int64 s16 i = Size.sizeof_int32 (as_int true 32 i)
generate_sizeof int64 s32 i = Size.sizeof_int32 (as_int true 32 i)
generate_sizeof uint64 s64 i = Size.sizeof_varint64 (as_bits 64 i)
generate_sizeof uint64 s8 i = Size.sizeof_varint32 (as_bits 32 i)
generate_sizeof uint64 s16 i = Size.sizeof_varint32 (as_bits 32 i)
generate_sizeof uint64 s32 i = Size.sizeof_varint32 (as_bits 32 i)
generate_sizeof sint64 s64 i = Size.sizeof_sint64 (as_int true 64 i)
generate_sizeof sint64 s8 i = Size.sizeof_sint32 (as_int true 32 i)
generate_sizeof sint64 s16 i = Size.sizeof_sint32 (as_int true 32 i)
generate_sizeof sint64 s32 i = Size.sizeof_sint32 (as_int true 32 i)
generate_sizeof int32 size i = Size.sizeof_int32 (as_int true 32 i)
generate_sizeof uint32 size i = Size.sizeof_varint32 (as_bits 32 i)
generate_sizeof sint32 size i = Size.sizeof_sint32 (as_int true 32 i)
generate_sizeof sfixed32 size i = 4
generate_sizeof fixed32 size i = 4
generate_sizeof sfixed64 size i = 8
generate_sizeof fixed64 size i = 8

module _ {P : Type 0} where
  unfoldable pub fixed_size : TypeSpec P → Option ℕ
  fixed_size float = some 4
  fixed_size (int fixed32 size) = some 4
  fixed_size (int sfixed32 size) = some 4
  fixed_size double = some 8
  fixed_size (int fixed64 size) = some 8
  fixed_size (int sfixed64 size) = some 8
  fixed_size bool = some 1
  fixed_size (int int32 size) = none
  fixed_size (int int64 size) = none
  fixed_size (int uint32 size) = none
  fixed_size (int uint64 size) = none
  fixed_size (int sint32 size) = none
  fixed_size (int sint64 size) = none
  fixed_size (message path) = none
  fixed_size (enum path) = none
  fixed_size (string path max) = none
  fixed_size (bytes path max) = none

  unfoldable pub wire_type : TypeSpec P → ℕ
  wire_type float = wire_type_i32
  wire_type (int fixed32 size) = wire_type_i32
  wire_type (int sfixed32 size) = wire_type_i32
  wire_type double = wire_type_i64
  wire_type (int fixed64 size) = wire_type_i64
  wire_type (int sfixed64 size) = wire_type_i64
  wire_type (enum path) = wire_type_varint
  wire_type bool = wire_type_varint
  wire_type (int int32 size) = wire_type_varint
  wire_type (int int64 size) = wire_type_varint
  wire_type (int uint32 size) = wire_type_varint
  wire_type (int uint64 size) = wire_type_varint
  wire_type (int sint32 size) = wire_type_varint
  wire_type (int sint64 size) = wire_type_varint
  wire_type (message path) = wire_type_len
  wire_type (string path max) = wire_type_len
  wire_type (bytes path max) = wire_type_len

module _ {W E : Type 0} (wr : PbWrite W E) where
  -- The call of a method with the field's value, `encoder.encode_..(*val_ref as _)`.
  unfoldable pub call_encode : Codec → ℤ → M (PbEncoder W) E (Unit {0})
  call_encode int32_codec i = Encode.encode_int32 wr (as_int true 32 i)
  call_encode int64_codec i = Encode.encode_int64 wr (as_int true 64 i)
  call_encode varint32_codec i = Encode.encode_varint32 wr (as_bits 32 i)
  call_encode varint64_codec i = Encode.encode_varint64 wr (as_bits 64 i)
  call_encode sint32_codec i = Encode.encode_sint32 wr (as_int true 32 i)
  call_encode sint64_codec i = Encode.encode_sint64 wr (as_int true 64 i)
  call_encode sfixed32_codec i = Encode.encode_sfixed32 wr (as_int true 32 i)
  call_encode sfixed64_codec i = Encode.encode_sfixed64 wr (as_int true 64 i)
  call_encode fixed32_codec i = Encode.encode_fixed32 wr (as_bits 32 i)
  call_encode fixed64_codec i = Encode.encode_fixed64 wr (as_bits 64 i)
  call_encode sfixed64_as_32_codec i = Encode.encode_sfixed64_as_32 wr (as_int true 32 i)
  call_encode fixed64_as_32_codec i = Encode.encode_fixed64_as_32 wr (as_bits 32 i)

  -- The integer case of `generate_encode_expr`.
  unfoldable pub generate_encode_expr : PbInt → IntSize → ℤ → M (PbEncoder W) E (Unit {0})
  generate_encode_expr t size i = call_encode (generate_encode_func t size) i

module _ {R E : Type 0} (rd : PbRead R E) where
  unfoldable pub call_decode : Codec → M (PbDecoder R) (DecodeError E) ℤ
  call_decode int32_codec = Decode.decode_int32 rd
  call_decode int64_codec = Decode.decode_int64 rd
  call_decode varint32_codec = map_ok pos (Decode.decode_varint32 rd)
  call_decode varint64_codec = map_ok pos (Decode.decode_varint64 rd)
  call_decode sint32_codec = Decode.decode_sint32 rd
  call_decode sint64_codec = Decode.decode_sint64 rd
  call_decode sfixed32_codec = Decode.decode_sfixed32 rd
  call_decode sfixed64_codec = Decode.decode_sfixed64 rd
  call_decode fixed32_codec = map_ok pos (Decode.decode_fixed32 rd)
  call_decode fixed64_codec = map_ok pos (Decode.decode_fixed64 rd)
  call_decode sfixed64_as_32_codec = Decode.decode_sfixed64_as_32 rd
  call_decode fixed64_as_32_codec = map_ok pos (Decode.decode_fixed64_as_32 rd)

  -- The integer case of `generate_decode_val`, with the cast to the field's type that the code of a
  -- repeated field puts on each element.
  unfoldable pub generate_decode_val : PbInt → IntSize → M (PbDecoder R) (DecodeError E) ℤ
  generate_decode_val t size =
      map_ok (as_int (is_signed t) (type_name size)) (call_decode (generate_decode_func t size))
