-- ===== src/Generated/Ends.antt =====
-- The end of the code that is generated for a value of a field, from those of the types behind the
-- paths.
use micropb.Prelude.{Bool}
use micropb.Prelude.{ℕ, ◌≤◌, arith}
use micropb.Prelude.{Option, none, some, if◌then◌else◌, not, ◌&&◌}
use micropb.Prelude.Int.{pos}
use micropb.Monad.{ok, M}
use micropb.Wire.{Tag, Presence}
use micropb.Reader.Source.{Source, source_reader}
use micropb.Decode.{PbDecoder, DecodeError, Decoding}
use micropb.Decode.Counts.{Counts, Counts-fewer, map_ok-Counts}
use micropb.Decode.Counts.Methods
use micropb.Decode.Counts.Methods.{IsDone}
use micropb.Decode.Into.{is_implicit}
use micropb.Decode.Into.Counts.{CountsInto, CountsInto-fewer, on_decoder-Counts, on_dest-Counts}
use micropb.Decode.Into.Counts.{chain}
use micropb.Decode.Into.Counts.{decode_string-Counts, decode_bytes-Counts}
use micropb.Decode.Into.Counts.Records.{Pushes, decode_len_record-Counts}
use micropb.Message.{decode_len_delimited}
use micropb.TypeSpec.{TypeSpec}
use micropb.TypeSpec as Integers
use micropb.TypeSpec.{message, enum, float, double, bool, int, string, bytes}
use micropb.Generated.Types.{Paths, RustType, decode_mut, decode_val, set_value}
use micropb.Generated.Types.{int_nonzero, float_nonzero}

pub record PathsEnd {P : Type 0} (E : Type 0) (paths : Paths P) : Type 1 where
  pub messages :
      (path : P) (len : ℕ)
      → CountsInto {E = E} 0 (((paths.message_at path).message_decode source_reader).decode len)
  pub customs :
      (path : P) (read_tag : Tag)
      → CountsInto {E = E} 0
          (((paths.custom_at path).field_decode source_reader).decode_field read_tag)
  pub vecs : (path : P) (max : Option ℕ) (T : Type 0) → Pushes (paths.vec_at path max T).pb_vec
  pub maps :
      (path : P) (max : Option ℕ) (K V : Type 0) (s : (paths.map_at path max K V).Carrier) (key : K)
      (val : V)
      → IsDone ((paths.map_at path max K V).pb_map.pb_insert s key val).0

module _ {E : Type 0} where
  -- At least one byte.
  some_bytes :
      {A : Type 0} {m : M (PbDecoder (Source E)) (DecodeError E) A} (n : ℕ)
      → 1 ≤ n
      → Counts n m
      → Counts 1 m
  some_bytes n h c = Counts-fewer n 1 h c

  call_decode-Counts :
      (c : Integers.Codec) → Counts 1 (Integers.call_decode (source_reader {E = E}) c)
  unfolding Integers.call_decode
  call_decode-Counts Integers.int32_codec = Methods.decode_int32-Counts
  call_decode-Counts Integers.int64_codec = Methods.decode_int64-Counts
  call_decode-Counts Integers.varint32_codec = map_ok-Counts 1 pos Methods.decode_varint32-Counts
  call_decode-Counts Integers.varint64_codec = map_ok-Counts 1 pos Methods.decode_varint64-Counts
  call_decode-Counts Integers.sint32_codec = Methods.decode_sint32-Counts
  call_decode-Counts Integers.sint64_codec = Methods.decode_sint64-Counts
  call_decode-Counts Integers.sfixed32_codec =
      some_bytes 4 (omega arith) Methods.decode_sfixed32-Counts
  call_decode-Counts Integers.sfixed64_codec =
      some_bytes 8 (omega arith) Methods.decode_sfixed64-Counts
  call_decode-Counts Integers.fixed32_codec =
      some_bytes 4 (omega arith) (map_ok-Counts 4 pos Methods.decode_fixed32-Counts)
  call_decode-Counts Integers.fixed64_codec =
      some_bytes 8 (omega arith) (map_ok-Counts 8 pos Methods.decode_fixed64-Counts)
  call_decode-Counts Integers.sfixed64_as_32_codec =
      some_bytes 4 (omega arith) Methods.decode_sfixed64_as_32-Counts
  call_decode-Counts Integers.fixed64_as_32_codec =
      some_bytes 4 (omega arith) (map_ok-Counts 4 pos Methods.decode_fixed64_as_32-Counts)

  integer-Counts :
      (t : Integers.PbInt) (size : Integers.IntSize)
      → Counts 1 (Integers.generate_decode_val (source_reader {E = E}) t size)
  unfolding Integers.generate_decode_val
  integer-Counts t size =
      map_ok-Counts 1 _ (call_decode-Counts (Integers.generate_decode_func t size))

module _ {P E : Type 0} (paths : Paths P) (k : PathsEnd E paths) where
  set_value-Counts :
      {V X : Type 0} (check : V → Bool) (cast : V → X) (presence : Presence)
      {m : Decoding (source_reader {E = E}) V}
      → Counts 1 m
      → CountsInto 0 (set_value paths source_reader check cast presence m)
  set_value-Counts check cast presence c = CountsInto-fewer 1 0 (omega arith) (
      chain 1 (on_decoder-Counts 1 c) λ val.
        on_dest-Counts
          (λ old. (ok tt, if is_implicit presence && not (check val) then old else cast val))
          (λ s. tt))

  pub decode_mut-Counts :
      (t : TypeSpec P) (presence : Presence)
      → CountsInto {E = E} 0 (decode_mut paths source_reader t presence)
  unfolding decode_mut RustType
  decode_mut-Counts (message path) presence =
      unfold decode_len_delimited in
      (CountsInto-fewer 1 0 (omega arith) (
        decode_len_record-Counts
          (λ len before. ((paths.message_at path).message_decode source_reader).decode len)
          (record { counts = λ len d s. (k.messages path len).counts d s })))
  decode_mut-Counts (enum path) presence =
      set_value-Counts int_nonzero (λ x. x) presence (map_ok-Counts 1 _ Methods.decode_int32-Counts)
  decode_mut-Counts float presence =
      set_value-Counts (float_nonzero 31) (λ x. x) presence
        (some_bytes 4 (omega arith) Methods.decode_float-Counts)
  decode_mut-Counts double presence =
      set_value-Counts (float_nonzero 63) (λ x. x) presence
        (some_bytes 8 (omega arith) Methods.decode_double-Counts)
  decode_mut-Counts bool presence =
      set_value-Counts (λ x. x) (λ x. x) presence Methods.decode_bool-Counts
  decode_mut-Counts (int t size) presence =
      set_value-Counts int_nonzero
        (Integers.as_int (Integers.is_signed t) (Integers.type_name size)) presence
        (call_decode-Counts (Integers.generate_decode_func t size))
  decode_mut-Counts (string path max) presence =
      decode_string-Counts (paths.string_at path max).pb_string presence
  decode_mut-Counts (bytes path max) presence =
      decode_bytes-Counts (paths.vec_at path max ℕ).pb_vec presence

  abbrev pub ValCounts : {A : Type 0} → Option (Decoding (source_reader {E = E}) A) → Type 0
  ValCounts none = Unit {0}
  ValCounts (some m) = Counts 1 m

  pub decode_val-Counts : (t : TypeSpec P) → ValCounts (decode_val paths source_reader t)
  unfolding decode_val RustType
  decode_val-Counts (message path) = tt
  decode_val-Counts (enum path) = map_ok-Counts 1 _ Methods.decode_int32-Counts
  decode_val-Counts float = some_bytes 4 (omega arith) Methods.decode_float-Counts
  decode_val-Counts double = some_bytes 8 (omega arith) Methods.decode_double-Counts
  decode_val-Counts bool = Methods.decode_bool-Counts
  decode_val-Counts (int t size) = integer-Counts t size
  decode_val-Counts (string path max) = tt
  decode_val-Counts (bytes path max) = tt
