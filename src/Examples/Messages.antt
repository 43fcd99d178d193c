-- ===== src/Examples/Messages.antt =====
-- The theorems on the parts of generated messages, at concrete inputs.
use micropb.Prelude.{
  ℕ, ◌+◌, ◌/◌, ◌<◌, ◌≡◌, ◌≢◌, refl, arith, true, false, List, [], ◌∷◌, ◌++◌, length,
}
use micropb.Prelude.{Option, none, some, inl, inr, All}
use micropb.Prelude.Int.{pos}
use micropb.Monad.{ok, err, out_of_fuel}
use micropb.Wire.{explicit, from_parts, varint}
use micropb.Encode.Output.{vec_appender}
use micropb.Encode.Bytes.{varint_bytes, groups}
use micropb.Size.{sizeof_packed}
use micropb.Reader.Source.{source_reader}
use micropb.Container.Alloc
use micropb.Utf8.{is_utf8}
use micropb.Decode
use micropb.Decode.Expect.{at}
use micropb.Decode.Skip.{varint_value}
use micropb.Decode.Into.Agree as Over
use micropb.TypeSpec.{TypeSpec, int, string, bool, double, int32, uint32, s32, type_name, is_signed}
use micropb.TypeSpec.{generate_encode_func}
use micropb.TypeSpec as Integers
use micropb.Generated.Hazzer
use micropb.Generated.Hazzer.Calls
use micropb.Generated.Hazzer.Laws.{IsHazzer}
use micropb.Generated.Types.{Paths, RustType, value_size, type_default, decode_val}
use micropb.Generated.Types.Carried.{Fits, Alike, value-Carries}
use micropb.Generated.Field.Values.{ValueCarries, AllLike, IsTag}
use micropb.Generated.Field.{field_part, repeated, packed_len, repeated_len_by}
use micropb.Generated.Field.Many.{many-Carries}
use micropb.Generated.Field.Sizes.{lens_lem}
use micropb.Examples.Generated.{empty_vec}
use micropb.Generated.Oneof.{OneofField, Variant, oneof_part, enum_oneof}
use micropb.Generated.Oneof.Carried.{LikeOneof, OneofFits, oneof-Carries}
use micropb.Generated.Parts.{With}
use micropb.Generated.Message
use micropb.Generated.Message.Records.{tag_bytes}
use micropb.Generated.Message.Carried.{PartCarries}
use micropb.Generated.Message.Unknown.{Mixed, unknown_fields_lem}
use micropb.Generated.Message.Unknown as Unknowns
use micropb.Generated.Message.Zero.{zero_field_lem}
use micropb.Generated.Message.Whole.{parts_of}
use micropb.Generated.Message.Ends.{decode-Counts, generated-decode_ends}
use micropb.Generated.Ends.{PathsEnd}
use micropb.Examples.Generated.{alloc_paths, alloc_paths-Agree, letters_members}
use micropb.Examples.Generated.{letters_default, letters-PartAgrees, SameMessage}
use micropb.Examples.Writers.{multichunk, multichunk-IsReader}

-- Field 5 of a message that knows fields 1 to 4.
abbrev field_5 : List ℕ
field_5 = tag_bytes 5 0 ++ varint_bytes 300

abbrev start : With (Message.Struct none (parts_of alloc_paths letters_members))
start = (0 ∷ [], letters_default)

field_5-Mixed : Mixed ⊥ (parts_of alloc_paths letters_members) (field_5 ++ []) [] start start
field_5-Mixed =
    Unknowns.unknown (omega arith) (omega arith) (omega arith) refl (varint_value 300 (omega arith))
      (Unknowns.no_more start)

abbrev decoder_of : List ℕ → Decode.PbDecoder (List ℕ)
decoder_of bytes = record { reader = bytes; idx = 0; ignore_repeated_cap_err = false }

unknown_fields_lem_example :
    (Over.shown multichunk-IsReader (
        Message.decode multichunk none
          (parts_of alloc_paths letters_members)
          (length (field_5 ++ []))
          (decoder_of ((field_5 ++ []) ++ (9 ∷ [])), start))
      ≡ (ok tt, (at (9 ∷ []) none (0 + length (field_5 ++ [])) false, start)))
    × (Over.shown multichunk-IsReader (
          Message.decode multichunk none
            (parts_of alloc_paths letters_members)
            0
            (decoder_of (9 ∷ []), start))
        ≡ (ok tt, (at (9 ∷ []) none 0 false, start)))
unknown_fields_lem_example =
    unknown_fields_lem multichunk-IsReader (parts_of alloc_paths letters_members) letters-PartAgrees
      (field_5 ++ []) [] (9 ∷ []) start start field_5-Mixed
      (decoder_of ((field_5 ++ []) ++ (9 ∷ []))) (decoder_of (9 ∷ [])) refl refl

-- The empty message of `alloc_paths` has no paths.
abbrev no_paths : Paths ⊥
no_paths = record {
  message_at = λ p. absurd p;
  enum_size = λ p. absurd p;
  enum_default = λ p. absurd p;
  string_at = λ p max. absurd p;
  vec_at = λ p max T. absurd p;
  map_at = λ p max K V. absurd p;
  custom_at = λ p. absurd p;
}

no_paths-End : PathsEnd ⊥ no_paths
no_paths-End = record {
  messages = λ p len. absurd p;
  customs = λ p read_tag. absurd p;
  vecs = λ p max T. absurd p;
  maps = λ p max K V s key val. absurd p;
}

alloc_paths-End : PathsEnd ⊥ alloc_paths
unfolding Alloc.vec
alloc_paths-End = record {
  messages = λ p len. decode-Counts no_paths no_paths-End [] len;
  customs = λ path read_tag. record { counts = λ d s. omega arith };
  vecs = λ path max T. record { push = λ s x. tt };
  maps = λ path max K V s key val. tt;
}

generated-decode_ends_example :
    (Message.decode multichunk none
      (parts_of alloc_paths letters_members)
      9
      (decoder_of (field_5 ++ (0x0a ∷ 0xff ∷ [])), start)).0
    ≢ out_of_fuel
generated-decode_ends_example =
    generated-decode_ends multichunk-IsReader alloc_paths alloc_paths-Agree alloc_paths-End
      letters_members 9 (decoder_of (field_5 ++ (0x0a ∷ 0xff ∷ []))) start

field_5-short : length (field_5 ++ []) < 9
unfolding varint_bytes groups from_parts varint
field_5-short = omega arith

zero_field_lem_example :
    Over.shown multichunk-IsReader (
      Message.decode multichunk none
        (parts_of alloc_paths letters_members)
        9
        (decoder_of (((field_5 ++ []) ++ tag_bytes 0 2) ++ (7 ∷ [])), start))
    ≡ (
      err Decode.zero_field,
      (at (7 ∷ []) none (0 + length ((field_5 ++ []) ++ tag_bytes 0 2)) false, start),
    )
zero_field_lem_example =
    zero_field_lem multichunk-IsReader (parts_of alloc_paths letters_members) letters-PartAgrees
      (field_5 ++ []) [] (7 ∷ []) 2 9 start start field_5-Mixed (omega arith) field_5-short
      (decoder_of (((field_5 ++ []) ++ tag_bytes 0 2) ++ (7 ∷ []))) refl

-- Eleven fields: set 9, set 3, clear 9.
abbrev some_calls : List Calls.Call
some_calls = Calls.set_call 9 ∷ Calls.set_call 3 ∷ Calls.clear_call 9 ∷ []

some_calls-low : All (λ c. Calls.field_of c < 11) some_calls
some_calls-low = (omega arith, (omega arith, (omega arith, tt)))

hazzer_calls_lem_example :
    Hazzer.has 3 (Calls.calls some_calls (Hazzer.new 11)) ≡ Calls.steps some_calls (λ i. false) 3
hazzer_calls_lem_example = Calls.hazzer_calls_lem 11 some_calls some_calls-low 3

calls-IsHazzer_example :
    IsHazzer 11 (Calls.calls some_calls (Hazzer.new 11))
    × ((i : ℕ) → i < 11 → i / 8 < length (Calls.calls some_calls (Hazzer.new 11)))
calls-IsHazzer_example = Calls.calls-IsHazzer 11 some_calls some_calls-low

-- A boolean in place of the `uint32` that the oneof held.
abbrev numbers_or_flag : List (OneofField (Unit {0}))
numbers_or_flag =
    (record { num = 3; tspec = bool }) ∷ (record { num = 4; tspec = int uint32 s32 }) ∷ []

unfoldable flag_set : Option (Variant alloc_paths numbers_or_flag)
unfolding RustType
flag_set = some (inl true)

unfoldable number_set : Option (Variant alloc_paths numbers_or_flag)
unfolding RustType
number_set = some (inr (inl (pos 7)))

abbrev Same : (t : TypeSpec (Unit {0})) → RustType alloc_paths t → RustType alloc_paths t → Type 0
Same = Alike alloc_paths SameMessage

flag-OneofFits :
    OneofFits vec_appender multichunk-IsReader alloc_paths Same numbers_or_flag flag_set number_set
unfolding flag_set number_set RustType Integers.wire_type type_default Fits
flag-OneofFits = (
  record { positive = omega arith; low = omega arith; kind = omega arith },
  value-Carries vec_appender multichunk-IsReader alloc_paths alloc_paths-Agree SameMessage bool
      explicit true false refl tt,
)

oneof-Carries_example :
    (r : Option (Variant alloc_paths numbers_or_flag)) × LikeOneof vec_appender multichunk-IsReader
      alloc_paths Same numbers_or_flag flag_set r
    × PartCarries vec_appender ⊥
        (oneof_part alloc_paths (enum_oneof numbers_or_flag))
        ([], flag_set)
        ([], number_set)
        ([], r)
oneof-Carries_example =
    oneof-Carries vec_appender multichunk-IsReader alloc_paths Same numbers_or_flag flag_set
      number_set [] [] (refl, (refl, tt)) flag-OneofFits

-- A `string` field of implicit presence.
unfoldable hi_text : RustType alloc_paths (string tt none)
unfolding RustType
hi_text = record { items = 0x68 ∷ 0x69 ∷ []; slots = []; spare = 0 }

hi-Fits :
    Fits vec_appender multichunk-IsReader alloc_paths alloc_paths-Agree SameMessage
      (string tt none)
      hi_text
      (type_default alloc_paths (string tt none))
unfolding Fits hi_text RustType Alloc.string is_utf8
hi-Fits = record {
  law = Alloc.string-IsStorage;
  low = omega arith;
  good = refl;
  room = Alloc.string_holds 2;
}

value-Carries_example :
    ValueCarries vec_appender multichunk-IsReader alloc_paths Same
      (string tt none)
      explicit
      hi_text
      (type_default alloc_paths (string tt none))
value-Carries_example =
    value-Carries vec_appender multichunk-IsReader alloc_paths alloc_paths-Agree SameMessage
      (string tt none) explicit hi_text (type_default alloc_paths (string tt none)) refl hi-Fits

-- Two strings.
unfoldable two_texts : Alloc.Vec (RustType alloc_paths (string tt none))
unfolding hi_text
two_texts = record { items = hi_text ∷ hi_text ∷ []; slots = []; spare = 0 }

texts-Carry :
    All
      (λ e.
        ValueCarries vec_appender multichunk-IsReader alloc_paths Same
          (string tt none)
          explicit
          e
          (type_default alloc_paths (string tt none)))
      (Alloc.vec.deref two_texts)
unfolding two_texts Alloc.vec
texts-Carry =
    let one =
      value-Carries vec_appender multichunk-IsReader alloc_paths alloc_paths-Agree SameMessage
        (string tt none) explicit hi_text (type_default alloc_paths (string tt none)) refl
        hi-Fits in
    (one, (one, tt))

not_packable : decode_val alloc_paths (source_reader {E = ⊥}) (string tt none) ≡ none
unfolding decode_val
not_packable = refl

text-IsTag : IsTag 6 (Integers.wire_type {P = Unit {0}} (string tt none))
unfolding Integers.wire_type
text-IsTag = record { positive = omega arith; low = omega arith; kind = omega arith }

many-Carries_example :
    (y : Alloc.Vec (RustType alloc_paths (string tt none))) × (added : List
      (RustType alloc_paths (string tt none)))
    × AllLike vec_appender multichunk-IsReader alloc_paths Same
        (string tt none)
        (Alloc.vec.deref two_texts)
        added
    × (Alloc.vec.deref y ≡ Alloc.vec.deref empty_vec ++ added)
    × PartCarries vec_appender ⊥
        (field_part alloc_paths
          (record { num = 6; ftype = repeated (string tt none) false tt none; hazzer_index = 0 }))
        ([], two_texts)
        ([], empty_vec)
        ([], y)
many-Carries_example =
    many-Carries vec_appender multichunk-IsReader alloc_paths Same (string tt none) tt none
      Alloc.vec-IsVec 6 0 text-IsTag not_packable [] [] two_texts empty_vec texts-Carry
      (Alloc.vec_holds _ _)

unfoldable some_doubles : List (RustType alloc_paths double)
unfolding RustType
some_doubles = 0 ∷ 0x3ff0_0000_0000_0000 ∷ []

lens_lem_example :
    (packed_len alloc_paths double some_doubles
      ≡ sizeof_packed some_doubles (value_size alloc_paths double))
    × (repeated_len_by 2
          (Integers.fixed_size {P = Unit {0}} double)
          some_doubles
          (value_size alloc_paths double)
        ≡ sizeof_packed some_doubles (λ x. 2 + value_size alloc_paths double x))
lens_lem_example = lens_lem alloc_paths double 2 some_doubles
