-- ===== src/Examples/Narrow.antt =====
-- An `int32` field in an `i8`, with implicit presence: the presence check is on the value on the wire.
use micropb.Prelude.{◌≡◌, refl, false, none, [], ◌∷◌}
use micropb.Prelude.Int.{pos}
use micropb.Monad.{ok}
use micropb.Wire.{implicit}
use micropb.Reader.Source.{source_reader}
use micropb.Decode
use micropb.Decode.Expect.{at}
use micropb.TypeSpec.{int, int32, s8, is_signed, type_name}
use micropb.TypeSpec as Integers
use micropb.Generated.Types.{decode_mut, RustType}
use micropb.Examples.Generated.{alloc_paths}

unfoldable five : RustType alloc_paths (int int32 s8)
unfolding RustType
five = pos 5

unfoldable nothing : RustType alloc_paths (int int32 s8)
unfolding RustType
nothing = pos 0

-- 256 is there, and its cast is 0.
wide_value :
    decode_mut alloc_paths
      (source_reader {E = ⊥})
      (int int32 s8)
      implicit
      (at (0x80 ∷ 0x02 ∷ []) none 0 false, five)
    ≡ (ok tt, (at [] none 2 false, nothing))
unfolding decode_mut RustType five nothing is_signed type_name Integers.call_decode
    Integers.generate_decode_func Decode.decode_int32 Decode.decode_varint32 Decode.varint32_loop
    Decode.get_byte Decode.read_chunk Decode.advance
wide_value = refl

-- 0 is not.
zero_value :
    decode_mut alloc_paths
      (source_reader {E = ⊥})
      (int int32 s8)
      implicit
      (at (0 ∷ []) none 0 false, five)
    ≡ (ok tt, (at [] none 1 false, five))
unfolding decode_mut RustType five nothing is_signed type_name Integers.call_decode
    Integers.generate_decode_func Decode.decode_int32 Decode.decode_varint32 Decode.varint32_loop
    Decode.get_byte Decode.read_chunk Decode.advance
zero_value = refl
