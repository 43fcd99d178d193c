-- ===== src/Examples/Codec.antt =====
-- The codec's theorems at concrete inputs.
use micropb.Prelude.{arith}
use micropb.Prelude.Int.{pos, negsuc, to_unsigned}
use micropb.Writer.{vec_writer}
use micropb.Reader.{slice_reader}
use micropb.Reader.Source.{source_reader}
use micropb.Reader.Laws.{slice_reader-IsReader}
use micropb.Encode
use micropb.Encode.{le_bytes}
use micropb.Encode.Bytes.{varint_bytes}
use micropb.Encode.Output.{vec_appender, Writes}
use micropb.Decode
use micropb.Size
use micropb.RoundTrip.{Carries}
use micropb.RoundTrip.Scalars
use micropb.RoundTrip.Fixed
use micropb.Examples.Writers.{multichunk, multichunk-IsReader}

encode_int32_lem_example :
    Writes vec_appender
      (Encode.encode_int32 vec_writer (negsuc 1))
      (varint_bytes (to_unsigned 64 (negsuc 1)))
    × Carries vec_appender multichunk-IsReader
        (Encode.encode_int32 vec_writer (negsuc 1))
        (Decode.decode_int32 multichunk)
        (Decode.decode_int32 source_reader)
        (Size.sizeof_int32 (negsuc 1))
        (negsuc 1)
    × Carries vec_appender multichunk-IsReader
        (Encode.encode_int32 vec_writer (negsuc 1))
        (Decode.decode_int64 multichunk)
        (Decode.decode_int64 source_reader)
        (Size.sizeof_int32 (negsuc 1))
        (negsuc 1)
encode_int32_lem_example =
    Scalars.encode_int32_lem vec_appender multichunk-IsReader (negsuc 1) (omega arith)

uint32-Carries_example :
    Carries vec_appender multichunk-IsReader
      (Encode.encode_varint32 vec_writer 300)
      (Decode.decode_varint32 multichunk)
      (Decode.decode_varint32 source_reader)
      (Size.sizeof_varint32 300)
      300
uint32-Carries_example = Scalars.uint32-Carries vec_appender multichunk-IsReader 300 (omega arith)

uint64-Carries_example :
    Carries vec_appender slice_reader-IsReader
      (Encode.encode_varint64 vec_writer 0xffff_ffff_ffff_ffff)
      (Decode.decode_varint64 slice_reader)
      (Decode.decode_varint64 source_reader)
      (Size.sizeof_varint64 0xffff_ffff_ffff_ffff)
      0xffff_ffff_ffff_ffff
uint64-Carries_example =
    Scalars.uint64-Carries vec_appender slice_reader-IsReader 0xffff_ffff_ffff_ffff (omega arith)

int64-Carries_example :
    Carries vec_appender multichunk-IsReader
      (Encode.encode_int64 vec_writer (negsuc 41))
      (Decode.decode_int64 multichunk)
      (Decode.decode_int64 source_reader)
      (Size.sizeof_int64 (negsuc 41))
      (negsuc 41)
int64-Carries_example =
    Scalars.int64-Carries vec_appender multichunk-IsReader (negsuc 41) (omega arith)

sint32-Carries_example :
    Carries vec_appender multichunk-IsReader
      (Encode.encode_sint32 vec_writer (negsuc 299))
      (Decode.decode_sint32 multichunk)
      (Decode.decode_sint32 source_reader)
      (Size.sizeof_sint32 (negsuc 299))
      (negsuc 299)
sint32-Carries_example =
    Scalars.sint32-Carries vec_appender multichunk-IsReader (negsuc 299) (omega arith)

sint64-Carries_example :
    Carries vec_appender multichunk-IsReader
      (Encode.encode_sint64 vec_writer (pos 77))
      (Decode.decode_sint64 multichunk)
      (Decode.decode_sint64 source_reader)
      (Size.sizeof_sint64 (pos 77))
      (pos 77)
sint64-Carries_example =
    Scalars.sint64-Carries vec_appender multichunk-IsReader (pos 77) (omega arith)

encode_sfixed64_as_32_lem_example :
    Writes vec_appender
      (Encode.encode_sfixed64_as_32 vec_writer (negsuc 7))
      (le_bytes 8 (to_unsigned 64 (negsuc 7)))
    × Carries vec_appender multichunk-IsReader
        (Encode.encode_sfixed64_as_32 vec_writer (negsuc 7))
        (Decode.decode_sfixed64_as_32 multichunk)
        (Decode.decode_sfixed64_as_32 source_reader)
        8
        (negsuc 7)
    × Carries vec_appender multichunk-IsReader
        (Encode.encode_sfixed64_as_32 vec_writer (negsuc 7))
        (Decode.decode_sfixed64 multichunk)
        (Decode.decode_sfixed64 source_reader)
        8
        (negsuc 7)
encode_sfixed64_as_32_lem_example =
    Fixed.encode_sfixed64_as_32_lem vec_appender multichunk-IsReader (negsuc 7) (omega arith)

fixed64-Carries_example :
    Carries vec_appender multichunk-IsReader
      (Encode.encode_fixed64 vec_writer 0xf498)
      (Decode.decode_fixed64 multichunk)
      (Decode.decode_fixed64 source_reader)
      8
      0xf498
fixed64-Carries_example =
    Fixed.fixed64-Carries vec_appender multichunk-IsReader 0xf498 (omega arith)
