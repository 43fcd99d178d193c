-- ===== src/Examples/Runs.antt =====
-- Inputs and results of the tests in micropb/src/encode.rs and decode.rs.
use micropb.Prelude.{ℕ, ◌≡◌, refl, List, [], ◌∷◌}
use micropb.Prelude.Int.{negsuc}
use micropb.Writer.{vec_writer}
use micropb.Encode

abbrev written : Encode.PbEncoder (List ℕ) → List ℕ
written e = e.writer

varint32_150 :
    written (Encode.encode_varint32 vec_writer 150 (record { writer = [] })).1 ≡ 0x96 ∷ 0x01 ∷ []
unfolding Encode.encode_varint32 Encode.encode_varint Encode.encode_groups Encode.encode_byte
    Encode.write
varint32_150 = refl

int32_minus_two :
    written (Encode.encode_int32 vec_writer (negsuc 1) (record { writer = [] })).1
    ≡ 0xfe ∷ 0xff ∷ 0xff ∷ 0xff ∷ 0xff ∷ 0xff ∷ 0xff ∷ 0xff ∷ 0xff ∷ 0x01 ∷ []
unfolding Encode.encode_int32 Encode.encode_varint Encode.encode_groups Encode.encode_byte
    Encode.write
int32_minus_two = refl
