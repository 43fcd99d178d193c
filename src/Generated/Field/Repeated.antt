-- ===== src/Generated/Field/Repeated.antt =====
-- Repeated fields: packed, and with a tag for each element.
use mathlib.Core.List.{flat_map}
use micropb.Prelude.{ℕ, ◌+◌, ◌^◌, ◌<◌, ◌≡◌, refl, sym, ◌∙◌, arith, Bool, true, false}
use micropb.Prelude.{List, [], ◌∷◌, ◌++◌, length, length-append, append-nil, All}
use micropb.Prelude.{Option, some, ◌==◌, Bool-cases, inl, inr, eq→==, ==→eq}
use micropb.Wire.{from_parts, wire_type, wire_type_len}
use micropb.Wire.Tags.{tag_parts}
use micropb.Writer.{PbWrite}
use micropb.Encode.Output.{IsAppender, pure-Writes}
use micropb.Encode.Values.{each-Writes}
use micropb.Size.{sizeof_packed}
use micropb.Size.Laws.{sizeof_packed_lem}
use micropb.Reader.{PbRead}
use micropb.Reader.Source.{source_reader}
use micropb.Reader.Laws.{IsReader}
use micropb.Container.{PbVec, IsVec}
use micropb.Decode.{Decoding}
use micropb.Monad.{◌>>=◌}
use micropb.Decode.Into.{on_decoder}
use micropb.Decode.Into.Expect.{Fills}
use micropb.Decode.Into.Packed.{takes, takes_first, takes_rest, push_all, push_all_lem}
use micropb.RoundTrip.{CarriesEach}
use micropb.RoundTrip.Packed.{packed-CarriesInto}
use micropb.TypeSpec.{TypeSpec, fixed_size}
use micropb.TypeSpec as Integers
use micropb.TypeSpec.{message, enum, float, double, bool, int, string, bytes}
use micropb.TypeSpec.{
  int32, int64, uint32, uint64, sint32, sint64, sfixed32, sfixed64, fixed32, fixed64,
}
use micropb.Generated.Types.{Paths, RustType, value_size, encode_value, decode_val}
use micropb.Generated.Field.{Field, repeated, field_part, push_value}
use micropb.Generated.Field.{decode_branch, repeated_branch, encode_field, field_size}
use micropb.Generated.Field.{field_wire_type}
use micropb.Generated.Field.Values.{IsTag, tag_len_lem, tagged-Writes, one-Records, on_value-Fills}
use micropb.Generated.Field.Sizes.{fixed_size_lem, packed_len_lem, repeated_len_lem}
use micropb.Generated.Message.Records.{Records, no_more, then_more, tag_bytes}
use micropb.Generated.Message.Carried.{PartCarries}

-- The types that can be packed are not length-delimited.
packable_wire_type :
    {P R E : Type 0} (paths : Paths P) (rd : PbRead R E) (t : TypeSpec P)
    (d : Decoding rd (RustType paths t))
    → decode_val paths rd t ≡ some d
    → (Integers.wire_type t == wire_type_len) ≡ false
unfolding decode_val Integers.wire_type
packable_wire_type paths rd (message path) d e = absurd cc
packable_wire_type paths rd (string path max) d e = absurd cc
packable_wire_type paths rd (bytes path max) d e = absurd cc
packable_wire_type paths rd (enum path) d e = refl
packable_wire_type paths rd float d e = refl
packable_wire_type paths rd double d e = refl
packable_wire_type paths rd bool d e = refl
packable_wire_type paths rd (int int32 size) d e = refl
packable_wire_type paths rd (int int64 size) d e = refl
packable_wire_type paths rd (int uint32 size) d e = refl
packable_wire_type paths rd (int uint64 size) d e = refl
packable_wire_type paths rd (int sint32 size) d e = refl
packable_wire_type paths rd (int sint64 size) d e = refl
packable_wire_type paths rd (int sfixed32 size) d e = refl
packable_wire_type paths rd (int sfixed64 size) d e = refl
packable_wire_type paths rd (int fixed32 size) d e = refl
packable_wire_type paths rd (int fixed64 size) d e = refl

none_added : {A : Type 0} (old added : List A) → (length added == 0) ≡ true → old ≡ old ++ added
none_added old [] e = sym (append-nil old)
none_added old (x ∷ added) e = absurd (omega (arith, ==→eq (length (x ∷ added)) 0 e))

module _ {P W F R E : Type 0} {wr : PbWrite W F} {rd : PbRead R E} (a : IsAppender wr)
    (h : IsReader rd) (paths : Paths P) (t : TypeSpec P) (path : P) (max : Option ℕ)
    (law : IsVec (paths.vec_at path max (RustType paths t)).pb_vec)
    (decoder : Decoding rd (RustType paths t))
    (plain : Decoding (source_reader {E = E}) (RustType paths t))
    (is_plain : decode_val paths source_reader t ≡ some plain) (Good : RustType paths t → Type 0)
    (c : CarriesEach a h Good (encode_value paths wr t) decoder plain (value_size paths t)) where
  abbrev elements : PbVec (paths.vec_at path max (RustType paths t)).Carrier (RustType paths t)
  elements = (paths.vec_at path max (RustType paths t)).pb_vec

  abbrev repeated_field : ℕ → ℕ → Bool → Field P
  repeated_field n i packed = record {
    num = n;
    ftype = repeated t packed path max;
    hazzer_index = i;
  }

  module _ (n i : ℕ) (msg_has has : List ℕ)
      (x old : (paths.vec_at path max (RustType paths t)).Carrier) where
    packed_full :
        IsTag n wire_type_len
        → (length (elements.deref x) == 0) ≡ false
        → All Good (elements.deref x)
        → sizeof_packed (elements.deref x) (value_size paths t) < 2 ^ 32
        → takes elements law (length (elements.deref x)) old ≡ true
        → (y : (paths.vec_at path max (RustType paths t)).Carrier) × (elements.deref y
            ≡ elements.deref old ++ elements.deref x)
          × PartCarries a E
              (field_part paths (repeated_field n i true))
              (msg_has, x)
              (has, old)
              (has, y)
    unfolding encode_field field_size decode_branch repeated_branch field_wire_type
    packed_full k some_there good low room =
        let (y, shown, p) = packed-CarriesInto a h law c (elements.deref x) old good low room in
        let len =
          packed_len_lem (value_size paths t) (fixed_size t) (fixed_size_lem paths t)
            (elements.deref x) in
        let is_len : (wire_type (from_parts n wire_type_len) == wire_type_len) ≡ true =
          rw (tag_parts n wire_type_len k.low k.kind).1 refl in
        (
          y,
          shown,
          record {
            bytes = tag_bytes n wire_type_len ++ p.bytes;
            writes = rw (some_there, len) (tagged-Writes a n wire_type_len k p.writes);
            sized =
                rw (some_there, len)
                  (omega (
                    arith,
                    tag_len_lem n wire_type_len k,
                    p.sized,
                    length-append (tag_bytes n wire_type_len) p.bytes,
                  ));
            records =
                one-Records (field_part paths (repeated_field n i true)) n wire_type_len k
                  (eq→== n n refl) (rw (is_plain, is_len) (on_value-Fills has p.fills));
          },
        )

    packed_empty :
        (length (elements.deref x) == 0) ≡ true
        → PartCarries a E
            (field_part paths (repeated_field n i true))
            (msg_has, x)
            (has, old)
            (has, old)
    unfolding encode_field field_size
    packed_empty gone = record {
      bytes = [];
      writes = rw gone (pure-Writes a);
      sized = rw gone refl;
      records = no_more (has, old);
    }

    -- A packed field whose elements are each carried, of a size below 2 ^ 32 and for a vector that has
    -- room for them, is read back by one record, or by none if there are no elements.
    pub packed-Carries :
        IsTag n wire_type_len
        → All Good (elements.deref x)
        → sizeof_packed (elements.deref x) (value_size paths t) < 2 ^ 32
        → takes elements law (length (elements.deref x)) old ≡ true
        → (y : (paths.vec_at path max (RustType paths t)).Carrier) × (elements.deref y
            ≡ elements.deref old ++ elements.deref x)
          × PartCarries a E
              (field_part paths (repeated_field n i true))
              (msg_has, x)
              (has, old)
              (has, y)
    packed-Carries k good low room = elim (Bool-cases (length (elements.deref x) == 0)) [
      | inl gone ↦ (old, none_added (elements.deref old) (elements.deref x) gone, packed_empty gone)
      | inr some_there ↦ packed_full k some_there good low room
    ]

  pushed-Fills :
      (x : RustType paths t) (s : (paths.vec_at path max (RustType paths t)).Carrier)
      → Good x
      → takes elements law 1 s ≡ true
      → Fills {E = E}
          (on_decoder source_reader plain >>= λ e. push_value paths source_reader elements e)
          (c.wire x)
          s
          tt
          (elements.pb_push s x).1
  pushed-Fills x s good room = record {
    reads = λ rest fault idx ignore.
        rw ((c.decodes x good).reads rest fault idx ignore, (law.pushes s x room).0) refl;
  }

  module _ (n i : ℕ) (k : IsTag n (Integers.wire_type t)) (has : List ℕ) where
    one_element-Fills :
        (x : RustType paths t) (s : (paths.vec_at path max (RustType paths t)).Carrier)
        → Good x
        → takes elements law 1 s ≡ true
        → Fills {E = E}
            (decode_branch paths source_reader i
              (repeated t false path max)
              (from_parts n (Integers.wire_type t)))
            (c.wire x)
            (has, s)
            tt
            (has, (elements.pb_push s x).1)
    unfolding decode_branch repeated_branch
    one_element-Fills x s good room =
        let not_len : (wire_type (from_parts n (Integers.wire_type t)) == wire_type_len) ≡ false =
          rw (tag_parts n (Integers.wire_type t) k.low k.kind).1
            (packable_wire_type paths source_reader t plain is_plain) in
        rw (is_plain, not_len) (on_value-Fills has (pushed-Fills x s good room))

    elements-Records :
        (elems : List (RustType paths t)) (s : (paths.vec_at path max (RustType paths t)).Carrier)
        → All Good elems
        → takes elements law (length elems) s ≡ true
        → Records E
            (field_part paths (repeated_field n i false))
            (flat_map (λ x. tag_bytes n (Integers.wire_type t) ++ c.wire x) elems)
            (has, s)
            (has, push_all elements law elems s)
    unfolding flat_map
    elements-Records [] s good room = no_more (has, s)
    elements-Records (x ∷ elems) s good room =
        let same : 1 + length elems ≡ length (x ∷ elems) = omega arith in
        let first = rw (sym same) at room in
        then_more k.positive k.low k.kind (eq→== n n refl)
          (one_element-Fills x s good.0 (takes_first elements law (length elems) s first))
          (elements-Records elems (elements.pb_push s x).1 good.1
            (takes_rest elements law x (length elems) s first))

    -- An unpacked field whose elements are each carried, for a vector that has room for them, is read
    -- back by one record for each element, appended in order to what the vector holds.
    pub unpacked-Carries :
        (msg_has : List ℕ) (x old : (paths.vec_at path max (RustType paths t)).Carrier)
        → All Good (elements.deref x)
        → takes elements law (length (elements.deref x)) old ≡ true
        → (y : (paths.vec_at path max (RustType paths t)).Carrier) × (elements.deref y
            ≡ elements.deref old ++ elements.deref x)
          × PartCarries a E
              (field_part paths (repeated_field n i false))
              (msg_has, x)
              (has, old)
              (has, y)
    unfolding encode_field field_size field_wire_type
    unpacked-Carries msg_has x old good room =
        let w = Integers.wire_type t in
        let wire : RustType paths t → List ℕ = λ e. tag_bytes n w ++ c.wire e in
        (
          push_all elements law (elements.deref x) old,
          push_all_lem elements law (elements.deref x) old room,
          record {
            bytes = flat_map wire (elements.deref x);
            writes =
                each-Writes a Good _ wire (λ e g. tagged-Writes a n w k (c.writes e g))
                  (elements.deref x) good;
            sized =
                repeated_len_lem (value_size paths t) _ (fixed_size t) (fixed_size_lem paths t)
                  (elements.deref x)
                ∙ sizeof_packed_lem Good _ wire
                    (λ e g. omega (
                      arith,
                      tag_len_lem n w k,
                      c.sized e g,
                      length-append (tag_bytes n w) (c.wire e),
                    ))
                    (elements.deref x) good;
            records = elements-Records (elements.deref x) old good room;
          },
        )
