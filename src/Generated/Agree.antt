-- ===== src/Generated/Agree.antt =====
-- The generated code does the same over any reader that keeps the promises of `PbRead` as over the
-- bytes to come, if the messages and custom types that it calls do.
use micropb.Prelude.{ℕ, Bool, true, not, ◌&&◌, Option, none, some}
use micropb.Prelude.{if◌then◌else◌}
use micropb.Monad.{ok}
use micropb.Wire.{Tag, Presence}
use micropb.Reader.{PbRead}
use micropb.Reader.Source.{source_reader}
use micropb.Reader.Laws.{IsReader}
use micropb.Decode.{Decoding}
use micropb.Decode.Refine
use micropb.Decode.Agree as Plain
use micropb.Decode.Into.{is_implicit}
use micropb.Decode.Into.Agree as Over
use micropb.TypeSpec.{TypeSpec, as_int, type_name}
use micropb.TypeSpec as Integers
use micropb.Prelude.Int.{pos}
use micropb.TypeSpec.{message, enum, float, double, bool, int, string, bytes}
use micropb.Message.{decode_len_delimited}
use micropb.Generated.Types.{Paths, RustType, decode_mut, decode_val, set_value}
use micropb.Generated.Types.{int_nonzero, float_nonzero}

-- For the types that stand behind paths.
pub record PathsAgree {P R E : Type 0} {rd : PbRead R E} (h : IsReader rd) (paths : Paths P)
    : Type 0 where
  pub messages :
      (path : P) (len : ℕ)
      → Over.Agree h
          (((paths.message_at path).message_decode rd).decode len)
          (((paths.message_at path).message_decode source_reader).decode len)
  pub customs :
      (path : P) (read_tag : Tag)
      → Over.Agree h
          (((paths.custom_at path).field_decode rd).decode_field read_tag)
          (((paths.custom_at path).field_decode source_reader).decode_field read_tag)

module _ {R E : Type 0} {rd : PbRead R E} (h : IsReader rd) where
  call_decode-Agree :
      (c : Integers.Codec)
      → Plain.Agree h (Integers.call_decode rd c) (Integers.call_decode source_reader c)
  unfolding Integers.call_decode
  call_decode-Agree Integers.int32_codec = Refine.decode_int32-Agree h
  call_decode-Agree Integers.int64_codec = Refine.decode_int64-Agree h
  call_decode-Agree Integers.varint32_codec =
      Plain.map_ok-Agree h pos (Refine.decode_varint32-Agree h)
  call_decode-Agree Integers.varint64_codec =
      Plain.map_ok-Agree h pos (Refine.decode_varint64-Agree h)
  call_decode-Agree Integers.sint32_codec = Refine.decode_sint32-Agree h
  call_decode-Agree Integers.sint64_codec = Refine.decode_sint64-Agree h
  call_decode-Agree Integers.sfixed32_codec = Refine.decode_sfixed32-Agree h
  call_decode-Agree Integers.sfixed64_codec = Refine.decode_sfixed64-Agree h
  call_decode-Agree Integers.fixed32_codec =
      Plain.map_ok-Agree h pos (Refine.decode_fixed32-Agree h)
  call_decode-Agree Integers.fixed64_codec =
      Plain.map_ok-Agree h pos (Refine.decode_fixed64-Agree h)
  call_decode-Agree Integers.sfixed64_as_32_codec = Refine.decode_sfixed64_as_32-Agree h
  call_decode-Agree Integers.fixed64_as_32_codec =
      Plain.map_ok-Agree h pos (Refine.decode_fixed64_as_32-Agree h)

  integer-Agree :
      (t : Integers.PbInt) (size : Integers.IntSize)
      → Plain.Agree h
          (Integers.generate_decode_val rd t size)
          (Integers.generate_decode_val source_reader t size)
  unfolding Integers.generate_decode_val
  integer-Agree t size =
      Plain.map_ok-Agree h _ (call_decode-Agree (Integers.generate_decode_func t size))

module _ {P R E : Type 0} {rd : PbRead R E} (h : IsReader rd) (paths : Paths P)
    (k : PathsAgree h paths) where
  set_value-Agree :
      {V X : Type 0} (check : V → Bool) (cast : V → X) (presence : Presence) {m : Decoding rd V}
      {s : Decoding source_reader V}
      → Plain.Agree h m s
      → Over.Agree h
          (set_value paths rd check cast presence m)
          (set_value paths source_reader check cast presence s)
  set_value-Agree check cast presence a = Over.>>=-Agree h (Over.on_decoder-Agree h a) λ val.
      Over.on_dest-Agree h
        λ old. (ok tt, if is_implicit presence && not (check val) then old else cast val)

  pub decode_mut-Agree :
      (t : TypeSpec P) (presence : Presence)
      → Over.Agree h (decode_mut paths rd t presence) (decode_mut paths source_reader t presence)
  unfolding decode_mut RustType
  decode_mut-Agree (message path) presence =
      unfold decode_len_delimited in
      Over.decode_len_record-Agree h (λ len before. k.messages path len)
  decode_mut-Agree (enum path) presence =
      set_value-Agree int_nonzero (λ x. x) presence
        (Plain.map_ok-Agree h (as_int true (type_name (paths.enum_size path)))
          (Refine.decode_int32-Agree h))
  decode_mut-Agree float presence =
      set_value-Agree (float_nonzero 31) (λ x. x) presence (Refine.decode_float-Agree h)
  decode_mut-Agree double presence =
      set_value-Agree (float_nonzero 63) (λ x. x) presence (Refine.decode_double-Agree h)
  decode_mut-Agree bool presence =
      set_value-Agree (λ x. x) (λ x. x) presence (Refine.decode_bool-Agree h)
  decode_mut-Agree (int t size) presence =
      set_value-Agree int_nonzero (as_int (Integers.is_signed t) (type_name size)) presence
        (call_decode-Agree h (Integers.generate_decode_func t size))
  decode_mut-Agree (string path max) presence =
      Over.decode_string-Agree h (paths.string_at path max).pb_string presence
  decode_mut-Agree (bytes path max) presence =
      Over.decode_bytes-Agree h (paths.vec_at path max ℕ).pb_vec presence

  -- Both have no `generate_decode_val`, or both have one and they agree.
  abbrev pub SameVal :
      {A : Type 0} → Option (Decoding rd A) → Option (Decoding (source_reader {E = E}) A) → Type 0
  SameVal none none = Unit {0}
  SameVal none (some s) = ⊥
  SameVal (some m) none = ⊥
  SameVal (some m) (some s) = Plain.Agree h m s

  pub decode_val-Agree :
      (t : TypeSpec P) → SameVal (decode_val paths rd t) (decode_val paths source_reader t)
  unfolding decode_val RustType
  decode_val-Agree (message path) = tt
  decode_val-Agree (enum path) =
      Plain.map_ok-Agree h (as_int true (type_name (paths.enum_size path)))
        (Refine.decode_int32-Agree h)
  decode_val-Agree float = Refine.decode_float-Agree h
  decode_val-Agree double = Refine.decode_double-Agree h
  decode_val-Agree bool = Refine.decode_bool-Agree h
  decode_val-Agree (int t size) = integer-Agree h t size
  decode_val-Agree (string path max) = tt
  decode_val-Agree (bytes path max) = tt
