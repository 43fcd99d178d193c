-- ===== src/Examples/Prefixes.antt =====
-- A record whose callback takes fewer bytes than its prefix says.
use micropb.Prelude.{◌+◌, ◌-◌, ◌≡◌, ◌==◌, ◌++◌, refl, arith, false, if◌then◌else◌}
use micropb.Prelude.{[], ◌∷◌, length, none}
use micropb.Monad.{ok, err}
use micropb.Encode.Bytes.{varint_bytes}
use micropb.Reader.Source.{source_reader}
use micropb.Decode
use micropb.Decode.{wrong_len}
use micropb.Decode.Expect.{at}
use micropb.Decode.Into
use micropb.Decode.Into.Loop

-- The prefix says two bytes and the callback takes one.
decode_len_record_lem_example :
    Into.decode_len_record
      (source_reader {E = ⊥})
      (λ len before. Into.on_decoder source_reader (Decode.get_byte source_reader))
      (at (varint_bytes 2 ++ (7 ∷ 8 ∷ [])) none 5 false, tt)
    ≡ (
      if (5 + length (varint_bytes 2) + 1 - (5 + length (varint_bytes 2))) == 2
          then ok 7
          else err wrong_len,
      (at (8 ∷ []) none (5 + length (varint_bytes 2) + 1) false, tt),
    )
unfolding Decode.get_byte Decode.read_chunk Decode.advance
decode_len_record_lem_example =
    Loop.decode_len_record_lem
      (λ len before. Into.on_decoder source_reader (Decode.get_byte source_reader)) 2 (omega arith)
      (7 ∷ 8 ∷ []) (8 ∷ []) none 5 (5 + length (varint_bytes 2) + 1) false tt tt 7 refl
