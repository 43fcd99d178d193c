-- ===== src/Examples/Types.antt =====
-- The theorems on the generator's integer types and single varints at concrete inputs.
use micropb.Prelude.{◌+◌, ◌≡◌, ◌%◌, ◌^◌, ◌++◌, refl, arith, false, ◌≢◌, [], ◌∷◌, length, none, drop}
use micropb.Prelude.Int.{negsuc}
use micropb.Monad.{ok, out_of_fuel}
use micropb.Writer.{vec_writer}
use micropb.Encode.Output.{vec_appender}
use micropb.Encode.Bytes.{varint_bytes}
use micropb.Reader
use micropb.Reader.Laws
use micropb.Reader.Source.{source_reader, exactly, skip}
use micropb.Decode
use micropb.Decode.Expect.{at, Decodes}
use micropb.Decode.Agree.{seen}
use micropb.Decode.Skip
use micropb.Decode.Into
use micropb.Decode.Into.Ends
use micropb.Decode.Varint32
use micropb.RoundTrip.{Carries}
use micropb.TypeSpec
use micropb.TypeSpec.Carried
use micropb.Examples.Writers.{multichunk, multichunk-IsReader, multichunk-HasChunks, chunk_of}

-- A `sfixed64` field kept in an `i16`.
int_field-Carries_example :
    Carries vec_appender multichunk-IsReader
      (TypeSpec.generate_encode_expr vec_writer TypeSpec.sfixed64 TypeSpec.s16 (negsuc 300))
      (TypeSpec.generate_decode_val multichunk TypeSpec.sfixed64 TypeSpec.s16)
      (TypeSpec.generate_decode_val source_reader TypeSpec.sfixed64 TypeSpec.s16)
      (TypeSpec.generate_sizeof TypeSpec.sfixed64 TypeSpec.s16 (negsuc 300))
      (negsuc 300)
unfolding TypeSpec.is_signed TypeSpec.type_name TypeSpec.generate_encode_func
int_field-Carries_example =
    Carried.int_field-Carries vec_appender multichunk-IsReader TypeSpec.sfixed64 TypeSpec.s16
      (negsuc 300) (omega arith) (omega arith)

-- More than 32 bits: the high ones are dropped.
decode_varint32-Decodes_example :
    Decodes {E = ⊥}
      (Decode.decode_varint32 source_reader)
      (varint_bytes 0x1_0000_0005)
      (0x1_0000_0005 % 2 ^ 32)
decode_varint32-Decodes_example = Varint32.decode_varint32-Decodes 0x1_0000_0005 (omega arith)

pb_read_exact_lem_example :
    ((Reader.pb_read_exact (λ s. (ok (chunk_of s), s)) (λ s n. drop n s) (1 ∷ 2 ∷ 3 ∷ []) 3).0
      ≡ exactly {E = ⊥} 3 (multichunk-HasChunks.view (1 ∷ 2 ∷ 3 ∷ [])))
    × (multichunk-HasChunks.view
          (Reader.pb_read_exact {E = ⊥}
            (λ s. (ok (chunk_of s), s))
            (λ s n. drop n s)
            (1 ∷ 2 ∷ 3 ∷ [])
            3).1
        ≡ skip 3 (multichunk-HasChunks.view (1 ∷ 2 ∷ 3 ∷ [])))
pb_read_exact_lem_example = Laws.pb_read_exact_lem multichunk-HasChunks (1 ∷ 2 ∷ 3 ∷ []) 3

skip_wire_value_lem_example :
    seen multichunk-IsReader (
      Decode.skip_wire_value multichunk 2
        (Decode.new multichunk ((varint_bytes 2 ++ (8 ∷ 9 ∷ [])) ++ (7 ∷ []))))
    ≡ (ok tt, at (7 ∷ []) none (0 + length (varint_bytes 2 ++ (8 ∷ 9 ∷ []))) false)
unfolding Decode.new
skip_wire_value_lem_example =
    Skip.skip_wire_value_lem multichunk-IsReader 2 (varint_bytes 2 ++ (8 ∷ 9 ∷ [])) (7 ∷ [])
      (Skip.len_value (8 ∷ 9 ∷ []) (omega arith))
      (Decode.new multichunk ((varint_bytes 2 ++ (8 ∷ 9 ∷ [])) ++ (7 ∷ []))) refl

read_while-ends_example :
    (Into.read_while multichunk
      (Into.on_decoder multichunk (Decode.advance multichunk 2))
      3
      3
      0
      (Decode.new multichunk (1 ∷ 2 ∷ 3 ∷ []), tt)).0
    ≢ out_of_fuel
unfolding Decode.new Decode.advance
read_while-ends_example =
    Ends.read_while-ends multichunk (Into.on_decoder multichunk (Decode.advance multichunk 2))
      (λ d s. omega arith) 3 3 0 (Decode.new multichunk (1 ∷ 2 ∷ 3 ∷ [])) tt (omega arith)
