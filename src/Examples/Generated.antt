-- ===== src/Examples/Generated.antt =====
-- The code generated for a small message, at concrete inputs:
-- `optional int32 = 1 [Hazzer]; string = 2; oneof { bool = 3; uint32 = 4 }`.
use micropb.Prelude.{ℕ, ◌≡◌, refl, arith, true, false, List, [], ◌∷◌, none, some, inl, inr}
use micropb.Prelude.Int.{pos}
use micropb.Monad.{ok, pure}
use micropb.Writer.{vec_writer}
use micropb.Encode.Output.{vec_appender}
use micropb.Wire.{explicit}
use micropb.Reader.Source.{source_reader}
use micropb.Container.Alloc
use micropb.Utf8.{is_utf8}
use micropb.RoundTrip.{CarriesInto}
use micropb.TypeSpec.{TypeSpec, int, string, bool, int32, uint32, s32, type_name, is_signed}
use micropb.TypeSpec.{generate_encode_func}
use micropb.TypeSpec as Integers
use micropb.Generated.Hazzer
use micropb.Generated.Hazzer.Laws.{IsHazzer}
use micropb.Generated.Types.{Paths, RustType}
use micropb.Generated.Types.{implicit_presence_check, type_default}
use micropb.Generated.Types.Carried.{Fits, value-Carries}
use micropb.Generated.Agree.{PathsAgree}
use micropb.Generated.Parts.{With}
use micropb.Generated.Field.{single, optional, hazzer, field_wire_type}
use micropb.Generated.Oneof.{enum_oneof}
use micropb.Generated.Message
use micropb.Generated.Message.Carried.{decode-Agree}
use micropb.Generated.Message.Members.{Member, MemberReady, field, oneof, member_part}
use micropb.Generated.Message.Whole.{parts_of, LikeEach, generated-round_trip}
use micropb.Generated.Message.Whole.{DistinctBits, AllReady, any_owns}
use micropb.Generated.Message.Records.{Distinct}
use micropb.Generated.Message.Ready.{single-Ready, hazzer-Ready, oneof-Ready}
use micropb.Generated.Message.Whole.{All-PartAgrees}
use micropb.Generated.Message.Carried.{PartAgrees}
use micropb.Prelude.{All}
use micropb.Examples.Writers.{multichunk, multichunk-IsReader}

abbrev pub empty_vec : {T : Type 0} → Alloc.Vec T
empty_vec = record { items = []; slots = []; spare = 0 }

-- `String`, `Vec`, and a message, a map and a custom type of no use.
abbrev pub alloc_paths : Paths (Unit {0})
alloc_paths = record {
  message_at = λ p. Message.message_type none [] ([], tt);
  enum_size = λ p. s32;
  enum_default = λ p. pos 0;
  string_at = λ p max. record { Str = Alloc.Vec ℕ; pb_string = Alloc.string; default = empty_vec };
  vec_at = λ p max T. record { Carrier = Alloc.Vec T; pb_vec = Alloc.vec; default = empty_vec };
  map_at = λ p max K V. record {
    Carrier = List (K × V);
    pb_map = record { pb_insert = λ s key val. (ok tt, (key, val) ∷ s); pb_iter = λ s. s };
    default = [];
  };
  custom_at = λ p. record {
    Custom = Unit {0};
    default = tt;
    field_decode = λ rd. record { decode_field = λ read_tag s. (ok false, s) };
    encode_fields = λ wr x. pure tt;
    compute_fields_size = λ x. 0;
  };
}

pub alloc_paths-Agree : PathsAgree multichunk-IsReader alloc_paths
alloc_paths-Agree = record {
  messages = λ p len. decode-Agree multichunk-IsReader [] tt len;
  customs = λ p read_tag. record { same = λ d x. refl };
}

abbrev pub letters_members : List (Member (Unit {0}))
letters_members =
    field (record { num = 1; ftype = optional (int int32 s32) hazzer; hazzer_index = 0 })
    ∷ field (record { num = 2; ftype = single (string tt none); hazzer_index = 0 })
    ∷ oneof (
        enum_oneof
          ((record { num = 3; tspec = bool }) ∷ (record { num = 4; tspec = int uint32 s32 }) ∷ []))
    ∷ []

unfoldable pub letters_message : With (Message.Struct none (parts_of alloc_paths letters_members))
unfolding RustType
letters_message = (
  1 ∷ [],
  (
    pos 150,
    (record { items = 0x68 ∷ 0x69 ∷ []; slots = []; spare = 0 }, (some (inr (inl (pos 7))), tt)),
  ),
)

unfoldable pub letters_default : Message.Struct none (parts_of alloc_paths letters_members)
unfolding RustType
letters_default = (pos 0, (empty_vec, (none, tt)))

abbrev pub SameMessage :
    (p : Unit {0}) → (alloc_paths.message_at p).Msg → (alloc_paths.message_at p).Msg → Type 0
SameMessage p x y = x ≡ y

letters-Distinct : Distinct (parts_of alloc_paths letters_members)
letters-Distinct = (
  ((λ n e. ground (arith, e)), ((λ n e. ground (arith, e)), tt)),
  (((λ n e. ground (arith, e)), tt), (tt, tt)),
)

letters-DistinctBits : DistinctBits letters_members
letters-DistinctBits = ((λ j e. refl), ((λ j e. refl), ((λ j e. refl), tt)))

abbrev Ready :
    (m : Member (Unit {0}))
    → With (member_part alloc_paths m).State
    → (member_part alloc_paths m).State
    → Type 0
Ready = MemberReady vec_appender multichunk-IsReader alloc_paths alloc_paths-Agree SameMessage 1

letters-AllReady :
    AllReady vec_appender multichunk-IsReader alloc_paths alloc_paths-Agree SameMessage 1
      letters_members letters_message letters_default
unfolding letters_message letters_default RustType Fits type_name is_signed generate_encode_func
    implicit_presence_check field_wire_type Integers.wire_type Alloc.string is_utf8 type_default
letters-AllReady = (
  hazzer-Ready vec_appender multichunk-IsReader alloc_paths alloc_paths-Agree SameMessage 1 1 0
      (int int32 s32) (1 ∷ []) (pos 150) (pos 0)
      (record { positive = omega arith; low = omega arith; kind = omega arith }) (omega arith)
      (λ e. (omega arith, omega arith)),
  (
    single-Ready vec_appender multichunk-IsReader alloc_paths alloc_paths-Agree SameMessage 1 2 0
        (string tt none) (1 ∷ []) (record { items = 0x68 ∷ 0x69 ∷ []; slots = []; spare = 0 })
        empty_vec (record { positive = omega arith; low = omega arith; kind = omega arith }) refl
        (λ e. record {
          law = Alloc.string-IsStorage;
          low = omega arith;
          good = refl;
          room = Alloc.string_holds 2;
        }),
    (
      oneof-Ready vec_appender multichunk-IsReader alloc_paths alloc_paths-Agree SameMessage 1
          ((record { num = 3; tspec = bool }) ∷ (record { num = 4; tspec = int uint32 s32 }) ∷ [])
          (1 ∷ []) (some (inr (inl (pos 7)))) none (refl, (refl, tt))
          (
            record { positive = omega arith; low = omega arith; kind = omega arith },
            value-Carries vec_appender multichunk-IsReader alloc_paths alloc_paths-Agree SameMessage
                (int uint32 s32) explicit (pos 7) (pos 0) refl (omega arith, omega arith),
          ),
      tt,
    ),
  ),
)

one_byte-IsHazzer : IsHazzer 1 (0 ∷ [])
unfolding Hazzer.hazzer_bytes
one_byte-IsHazzer = record { size = refl; each = (omega arith, tt) }

unset : (j : ℕ) → any_owns letters_members j ≡ true → Hazzer.has j (0 ∷ []) ≡ false
unfolding Hazzer.has
unset j e = let zero_index : j ≡ 0 = ground (arith, e) in rw zero_index refl

generated-round_trip_example :
    (result : With (Message.Struct none (parts_of alloc_paths letters_members))) × LikeEach
      vec_appender multichunk-IsReader alloc_paths alloc_paths-Agree SameMessage letters_members
      letters_message result
    × CarriesInto vec_appender multichunk-IsReader
        (Message.encode vec_writer none (parts_of alloc_paths letters_members) letters_message)
        (Message.decode multichunk none
          (parts_of alloc_paths letters_members)
          (Message.compute_size none (parts_of alloc_paths letters_members) letters_message))
        (Message.decode source_reader none
          (parts_of alloc_paths letters_members)
          (Message.compute_size none (parts_of alloc_paths letters_members) letters_message))
        (Message.compute_size none (parts_of alloc_paths letters_members) letters_message)
        (0 ∷ [], letters_default)
        result
generated-round_trip_example =
    generated-round_trip vec_appender multichunk-IsReader alloc_paths alloc_paths-Agree SameMessage
      1 letters_members letters_message letters_default (0 ∷ []) letters-Distinct
      letters-DistinctBits one_byte-IsHazzer unset letters-AllReady

pub letters-PartAgrees : All (PartAgrees multichunk-IsReader) (parts_of alloc_paths letters_members)
letters-PartAgrees =
    All-PartAgrees multichunk-IsReader alloc_paths alloc_paths-Agree letters_members
