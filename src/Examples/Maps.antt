-- ===== src/Examples/Maps.antt =====
-- A map as a list of pairs, and a map field of it, at concrete inputs.
use mathlib.Core.List.{Permᴰ}
use mathlib.Core.List.Permᴰ
use micropb.Prelude.{ℕ, ◌<◌, ◌≡◌, refl, sym, true, false, none, [], ◌∷◌, ◌++◌, arith, All, List}
use micropb.Prelude.Int.{pos, negsuc}
use micropb.Wire.{wire_type_len, explicit}
use micropb.Writer.{vec_writer}
use micropb.Encode.Output.{vec_appender}
use micropb.Size.{sizeof_map_elem, sizeof_int32, sizeof_varint32}
use micropb.Reader.Source.{source_reader}
use micropb.RoundTrip.{CarriesInto}
use micropb.Container.Maps.{IsMap, DistinctKeys, insert_all}
use micropb.TypeSpec.{
  TypeSpec, int, bool, int32, s32, type_name, is_signed, generate_encode_func, generate_sizeof,
}
use micropb.TypeSpec as Integers
use micropb.Generated.Types.{RustType, encode_value, decode_mut, value_size, type_default}
use micropb.Generated.Types.Carried.{Fits, Alike, value-Carries}
use micropb.Generated.Field.{field_part, map_field}
use micropb.Generated.Field.Values.{IsTag}
use micropb.Generated.Field.Maps.{PairCarries, map-Carries}
use micropb.Generated.Message.Carried.{PartCarries}
use micropb.Examples.Generated.{alloc_paths, alloc_paths-Agree, SameMessage}
use micropb.Examples.Writers.{multichunk, multichunk-IsReader}

pairs_map-IsMap : {K V : Type 0} → IsMap (alloc_paths.map_at tt none K V).pb_map
pairs_map-IsMap = record {
  capacity = none;
  inserts = λ s key val new room. (refl, Permᴰ.refl ((key, val) ∷ s));
}

two_inserted :
    insert_all (alloc_paths.map_at tt none ℕ ℕ).pb_map pairs_map-IsMap ((3, 1) ∷ (5, 2) ∷ []) []
    ≡ (5, 2) ∷ (3, 1) ∷ []
two_inserted = refl

-- `map<int32, bool>`
abbrev key_type : TypeSpec (Unit {0})
key_type = int int32 s32

number-CarriesInto :
    (i : RustType alloc_paths key_type)
    → Fits vec_appender multichunk-IsReader alloc_paths alloc_paths-Agree SameMessage key_type i
        (type_default alloc_paths key_type)
    → CarriesInto vec_appender multichunk-IsReader
        (encode_value alloc_paths vec_writer key_type i)
        (decode_mut alloc_paths multichunk key_type explicit)
        (decode_mut alloc_paths (source_reader {E = ⊥}) key_type explicit)
        (value_size alloc_paths key_type i)
        (type_default alloc_paths key_type)
        i
unfolding Alike
number-CarriesInto i f =
    let v =
      value-Carries vec_appender multichunk-IsReader alloc_paths alloc_paths-Agree SameMessage
        key_type explicit i (type_default alloc_paths key_type) refl f in
    rw (sym v.like) at v.carried

flag-CarriesInto :
    (b : RustType alloc_paths bool)
    → CarriesInto vec_appender multichunk-IsReader
        (encode_value alloc_paths vec_writer bool b)
        (decode_mut alloc_paths multichunk bool explicit)
        (decode_mut alloc_paths (source_reader {E = ⊥}) bool explicit)
        (value_size alloc_paths bool b)
        (type_default alloc_paths bool)
        b
unfolding Alike Fits
flag-CarriesInto b =
    let v =
      value-Carries vec_appender multichunk-IsReader alloc_paths alloc_paths-Agree SameMessage bool
        explicit b (type_default alloc_paths bool) refl tt in
    rw (sym v.like) at v.carried

unfoldable two_pairs : List (RustType alloc_paths key_type × RustType alloc_paths bool)
unfolding RustType
two_pairs = (pos 3, true) ∷ (negsuc 4, false) ∷ []

field_7-IsTag : IsTag 7 wire_type_len
field_7-IsTag = record { positive = omega arith; low = omega arith; kind = omega arith }

key-kind : Integers.wire_type key_type < 8
unfolding Integers.wire_type
key-kind = omega arith

flag-kind : Integers.wire_type {P = Unit {0}} bool < 8
unfolding Integers.wire_type
flag-kind = omega arith

two_pairs-PairCarries :
    All
      (PairCarries vec_appender multichunk-IsReader alloc_paths key_type bool tt none
        pairs_map-IsMap 7 0 field_7-IsTag key-kind flag-kind)
      two_pairs
unfolding two_pairs RustType Fits value_size sizeof_map_elem generate_sizeof sizeof_int32
    sizeof_varint32 type_name is_signed generate_encode_func
two_pairs-PairCarries = (
  record {
    key_carried = number-CarriesInto (pos 3) (omega arith, omega arith);
    val_carried = flag-CarriesInto true;
    low = omega arith;
  },
  (
    record {
      key_carried = number-CarriesInto (negsuc 4) (omega arith, omega arith);
      val_carried = flag-CarriesInto false;
      low = omega arith;
    },
    tt,
  ),
)

two_pairs-DistinctKeys : DistinctKeys two_pairs
unfolding two_pairs RustType
two_pairs-DistinctKeys = ((λ e. absurd cc, tt), (tt, tt))

map-Carries_example :
    (y : List (RustType alloc_paths key_type × RustType alloc_paths bool)) × Permᴰ y
      (two_pairs ++ [])
    × PartCarries vec_appender ⊥
        (field_part alloc_paths
          (record { num = 7; ftype = map_field key_type bool tt none; hazzer_index = 0 }))
        ([], two_pairs)
        ([], [])
        ([], y)
unfolding two_pairs pairs_map-IsMap
map-Carries_example =
    map-Carries vec_appender multichunk-IsReader alloc_paths key_type bool tt none pairs_map-IsMap 7
      0 field_7-IsTag key-kind flag-kind [] [] two_pairs [] two_pairs-PairCarries
      two_pairs-DistinctKeys (tt, (tt, tt)) refl
