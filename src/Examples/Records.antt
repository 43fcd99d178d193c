-- ===== src/Examples/Records.antt =====
-- The theorems on strings, packed fields, map elements, messages and fields at concrete inputs.
use micropb.Prelude.{
  ℕ, refl, ◌≡◌, ◌≢◌, ◌++◌, arith, true, false, Bool, if◌then◌else◌, List, [], ◌∷◌, length, some,
  none,
}
use micropb.Prelude.Int.{ℤ, pos, negsuc}
use micropb.Monad.{ok}
use micropb.Wire
use micropb.Wire.Tags
use micropb.Writer.{vec_writer}
use micropb.Encode
use micropb.Encode.Bytes.{varint_bytes, groups}
use micropb.Encode.Output.{vec_appender, Writes, holds}
use micropb.Encode.Values
use micropb.Size
use micropb.Reader.{PbRead}
use micropb.Reader.Source.{source_reader}
use micropb.Container.Alloc
use micropb.Decode
use micropb.Decode.Into
use micropb.Decode.Into.Agree as Over
use micropb.Decode.Into.Texts
use micropb.Message
use micropb.Message.Laws as MessageLaws
use micropb.Field
use micropb.Field.Laws as FieldLaws
use micropb.RoundTrip.{Carries, CarriesInto}
use micropb.RoundTrip.Scalars
use micropb.RoundTrip.Elements
use micropb.RoundTrip.Packed
use micropb.RoundTrip.MapElem
use micropb.Examples.Writers.{multichunk, multichunk-IsReader}

abbrev held : Alloc.Vec ℕ
held = record { items = 7 ∷ []; slots = []; spare = 0 }

abbrev two_elems : List ℕ
two_elems = 1 ∷ 300 ∷ []

packed-CarriesInto_example :
    (t : Alloc.Vec ℕ) × (Alloc.vec.deref t ≡ Alloc.vec.deref held ++ two_elems)
    × CarriesInto vec_appender multichunk-IsReader
        (Encode.encode_packed vec_writer
          (Size.sizeof_packed two_elems Size.sizeof_varint32)
          two_elems
          (Encode.encode_varint32 vec_writer))
        (Into.decode_packed multichunk Alloc.vec (Decode.decode_varint32 multichunk))
        (Into.decode_packed source_reader Alloc.vec (Decode.decode_varint32 source_reader))
        (Size.sizeof_len_record (Size.sizeof_packed two_elems Size.sizeof_varint32))
        held
        t
unfolding Size.sizeof_packed Size.sizeof_varint32 Alloc.vec
packed-CarriesInto_example =
    Packed.packed-CarriesInto vec_appender multichunk-IsReader Alloc.vec-IsVec
      (Elements.uint32-CarriesEach vec_appender multichunk-IsReader) two_elems held
      (omega arith, (omega arith, tt)) (omega arith) (Alloc.vec_holds ℕ 3)

map_elem-Carries_example :
    Carries vec_appender multichunk-IsReader
      (Encode.encode_map_elem vec_writer
        (Size.sizeof_map_elem 300 (negsuc 4) Size.sizeof_varint32 Size.sizeof_sint32)
        300
        0
        (negsuc 4)
        0
        (Encode.encode_varint32 vec_writer)
        (Encode.encode_sint32 vec_writer))
      (Into.decode_map_elem multichunk 0
        (pos 0)
        (Elements.store multichunk (Decode.decode_varint32 multichunk))
        (Elements.store multichunk (Decode.decode_sint32 multichunk)))
      (Into.decode_map_elem source_reader 0
        (pos 0)
        (Elements.store source_reader (Decode.decode_varint32 source_reader))
        (Elements.store source_reader (Decode.decode_sint32 source_reader)))
      (Size.sizeof_len_record
        (Size.sizeof_map_elem 300 (negsuc 4) Size.sizeof_varint32 Size.sizeof_sint32))
      (some (300, negsuc 4))
unfolding Size.sizeof_map_elem Size.sizeof_varint32 Size.sizeof_sint32
map_elem-Carries_example =
    MapElem.map_elem-Carries vec_appender multichunk-IsReader (Encode.encode_varint32 vec_writer)
      (Encode.encode_sint32 vec_writer) Size.sizeof_varint32 Size.sizeof_sint32 300 0 (negsuc 4)
      (pos 0) 0 0 (omega arith) (omega arith)
      (Elements.store-CarriesInto vec_appender multichunk-IsReader
        (Scalars.uint32-Carries vec_appender multichunk-IsReader 300 (omega arith)) 0)
      (Elements.store-CarriesInto vec_appender multichunk-IsReader
        (Scalars.sint32-Carries vec_appender multichunk-IsReader (negsuc 4) (omega arith)) (pos 0))
      (omega arith)

abbrev bool_field : Field.FieldEncode vec_writer Bool
bool_field = record { encode_fields = Encode.encode_bool vec_writer; compute_fields_size = λ b. 1 }

option_size_lem_example :
    Writes vec_appender
      ((Field.option_encode vec_writer bool_field).encode_fields (some true))
      (varint_bytes 1)
    × ((Field.option_encode vec_writer bool_field).compute_fields_size (some true)
        ≢ length (varint_bytes 1))
unfolding varint_bytes groups
option_size_lem_example =
    FieldLaws.option_size_lem vec_appender bool_field (λ b. varint_bytes (if b then 1 else 0))
      (Values.bool-Writes vec_appender) true (omega arith)

tag_parts_example :
    (Wire.field_num (Wire.from_parts 536870911 5) ≡ 536870911)
    × (Wire.wire_type (Wire.from_parts 536870911 5) ≡ 5)
tag_parts_example = Tags.tag_parts 536870911 5 (omega arith) (omega arith)

abbrev greeting : List ℕ
greeting = 0x68 ∷ 0xc3 ∷ 0xa9 ∷ []

decode_string_lem_example :
    Texts.shown Alloc.string.deref (
      Over.shown multichunk-IsReader (
        Into.decode_string multichunk Alloc.string Wire.explicit
          (Decode.new multichunk (varint_bytes 3 ++ (greeting ++ (9 ∷ []))), held)))
    ≡ Texts.replaced greeting
        (9 ∷ [])
        none
        (length (varint_bytes 3))
        false
        Wire.explicit
        (holds Alloc.string-IsStorage.capacity 3)
        (Texts.utf8_test greeting)
        (7 ∷ [])
unfolding Decode.new Alloc.string varint_bytes groups
decode_string_lem_example =
    Texts.decode_string_lem multichunk-IsReader Alloc.string Alloc.string-IsStorage Wire.explicit
      greeting (9 ∷ []) (omega arith)
      (Decode.new multichunk (varint_bytes 3 ++ (greeting ++ (9 ∷ [])))) held refl

decode_bytes_lem_example :
    Texts.shown Alloc.vec.deref (
      Over.shown multichunk-IsReader (
        Into.decode_bytes multichunk Alloc.vec Wire.implicit
          (Decode.new multichunk (varint_bytes 3 ++ (greeting ++ (9 ∷ []))), held)))
    ≡ Texts.replaced greeting
        (9 ∷ [])
        none
        (length (varint_bytes 3))
        false
        Wire.implicit
        (holds (Alloc.vec-IsVec {T = ℕ}).storage.capacity 3)
        (ok tt)
        (7 ∷ [])
unfolding Decode.new Alloc.vec varint_bytes groups
decode_bytes_lem_example =
    Texts.decode_bytes_lem multichunk-IsReader Alloc.vec (Alloc.vec-IsVec {T = ℕ}).storage
      Wire.implicit greeting (9 ∷ []) (omega arith)
      (Decode.new multichunk (varint_bytes 3 ++ (greeting ++ (9 ∷ [])))) held refl

-- A message with one `sint32` field, which its decoder reads whatever its tag is.
abbrev point_encode : Message.MessageEncode vec_writer ℤ
point_encode = record {
  encode = Encode.encode_sint32 vec_writer;
  compute_size = Size.sizeof_sint32;
}

abbrev point_decode : {R E : Type 0} (rd : PbRead R E) → Message.MessageDecode rd ℤ
point_decode rd = record { decode = λ len. Elements.store rd (Decode.decode_sint32 rd) }

point-Agree :
    (len : ℕ)
    → Over.Agree multichunk-IsReader
        ((point_decode multichunk).decode len)
        ((point_decode source_reader).decode len)
point-Agree len =
    (Elements.store-CarriesInto vec_appender multichunk-IsReader
      (Scalars.sint32-Carries vec_appender multichunk-IsReader (pos 0) (omega arith))
      (pos 0)).agrees

len_delimited-CarriesInto_example :
    CarriesInto vec_appender multichunk-IsReader
      (Message.encode_len_delimited vec_writer point_encode (negsuc 99))
      (Message.decode_len_delimited multichunk (point_decode multichunk))
      (Message.decode_len_delimited source_reader (point_decode source_reader))
      (Size.sizeof_len_record (Size.sizeof_sint32 (negsuc 99)))
      (pos 0)
      (negsuc 99)
unfolding Size.sizeof_sint32 Size.sizeof_varint32
len_delimited-CarriesInto_example =
    MessageLaws.len_delimited-CarriesInto vec_appender multichunk-IsReader point_encode
      (point_decode multichunk) (point_decode source_reader) (negsuc 99) (pos 0) (negsuc 99)
      (omega arith)
      (Elements.store-CarriesInto vec_appender multichunk-IsReader
        (Scalars.sint32-Carries vec_appender multichunk-IsReader (negsuc 99) (omega arith)) (pos 0))
      point-Agree
