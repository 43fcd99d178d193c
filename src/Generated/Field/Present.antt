-- ===== src/Generated/Field/Present.antt =====
-- Fields with one value: a field is read back as present when it was present when written.
use micropb.Prelude.{ℕ, ◌<◌, ◌≡◌, refl, ◌∙◌, arith, true, false, List, [], ◌++◌}
use micropb.Prelude.{length-append, append-nil, Option, none, some, ◌==◌, if◌then◌else◌}
use micropb.Prelude.{Bool-cases, inl, inr, eq→==}
use micropb.Wire.{implicit, explicit}
use micropb.Writer.{PbWrite}
use micropb.Encode.Output.{IsAppender, pure-Writes}
use micropb.Reader.{PbRead}
use micropb.Reader.Laws.{IsReader}
use micropb.Decode.Into.Expect.{>>-Fills, update-Fills}
use micropb.TypeSpec.{TypeSpec}
use micropb.Generated.Hazzer
use micropb.Generated.Hazzer.Laws.{IsHazzer, has-set, set-IsHazzer}
use micropb.Generated.Types.{Paths, RustType, type_default}
use micropb.Generated.Types.{implicit_presence_check}
use micropb.Generated.Parts.{With}
use micropb.Generated.Field.{Field, single, optional, hazzer, option, field_part, accessor}
use micropb.Generated.Field.{decode_branch, encode_field, field_size, field_wire_type}
use micropb.Generated.Field.Values.{
  IsTag, tag_len_lem, tagged-Writes, one-Records, on_value-Fills, on_some-Fills,
}
use micropb.Generated.Field.Values.{ValueCarries, LikeOption}
use micropb.Generated.Message.Records.{no_more, tag_bytes}
use micropb.Generated.Message.Carried.{PartCarries}

module _ {P W F R E : Type 0} {wr : PbWrite W F} {rd : PbRead R E} (a : IsAppender wr)
    (h : IsReader rd) (paths : Paths P)
    (Like : (t : TypeSpec P) → RustType paths t → RustType paths t → Type 0) where
  -- The value of a field of implicit presence, if it counts as present.
  abbrev pub implicit_value : (t : TypeSpec P) → RustType paths t → Option (RustType paths t)
  implicit_value t x = if implicit_presence_check paths t x then some x else none

  single_present :
      (n i : ℕ) (t : TypeSpec P) (msg_has has : List ℕ) (x old : RustType paths t)
      → IsTag n (field_wire_type (single t))
      → implicit_presence_check paths t x ≡ true
      → (v : ValueCarries a h paths Like t implicit x old)
      → PartCarries a E
          (field_part paths (record { num = n; ftype = single t; hazzer_index = i }))
          (msg_has, x)
          (has, old)
          (has, v.read_back)
  unfolding encode_field field_size decode_branch
  single_present n i t msg_has has x old k there v =
      let w = field_wire_type (single t) in
      record {
        bytes = tag_bytes n w ++ v.carried.bytes;
        writes = rw there (tagged-Writes a n w k v.carried.writes);
        sized = rw there (
            omega (
              arith,
              tag_len_lem n w k,
              v.carried.sized,
              length-append (tag_bytes n w) v.carried.bytes,
            ));
        records = one-Records _ n w k (eq→== n n refl) (on_value-Fills has v.carried.fills);
      }

  single_absent :
      (n i : ℕ) (t : TypeSpec P) (msg_has has : List ℕ) (x old : RustType paths t)
      → implicit_presence_check paths t x ≡ false
      → PartCarries a E
          (field_part paths (record { num = n; ftype = single t; hazzer_index = i }))
          (msg_has, x)
          (has, old)
          (has, old)
  unfolding encode_field field_size
  single_absent n i t msg_has has x old none_there = record {
    bytes = [];
    writes = rw none_there (pure-Writes a);
    sized = rw none_there refl;
    records = no_more (has, old);
  }

  pub single-Carries :
      ((t : TypeSpec P) (x y : RustType paths t)
        → Like t x y
        → implicit_presence_check paths t y ≡ implicit_presence_check paths t x)
      → (n i : ℕ) (t : TypeSpec P) (msg_has has : List ℕ) (x old : RustType paths t)
      → IsTag n (field_wire_type (single t))
      → implicit_presence_check paths t old ≡ false
      → (implicit_presence_check paths t x ≡ true → ValueCarries a h paths Like t implicit x old)
      → (y : RustType paths t) × LikeOption a h paths Like t
          (implicit_value t x)
          (implicit_value t y)
        × PartCarries a E
            (field_part paths (record { num = n; ftype = single t; hazzer_index = i }))
            (msg_has, x)
            (has, old)
            (has, y)
  single-Carries same n i t msg_has has x old k empty each =
      elim (Bool-cases (implicit_presence_check paths t x)) [
        | inl there ↦
            let v = each there in
            let still : implicit_presence_check paths t v.read_back ≡ true =
              same t x v.read_back v.like ∙ there in
            (
              v.read_back,
              rw (there, still) v.like,
              single_present n i t msg_has has x old k there v,
            )
        | inr gone ↦ (old, rw (gone, empty) tt, single_absent n i t msg_has has x old gone)
      ]

  module _ (n i count : ℕ) (t : TypeSpec P) where
    abbrev hazzer_field : Field P
    hazzer_field = record { num = n; ftype = optional t hazzer; hazzer_index = i }

    hazzer_present :
        (msg_has has : List ℕ) (x old : RustType paths t)
        → IsTag n (field_wire_type (optional t hazzer))
        → Hazzer.has i msg_has ≡ true
        → (v : ValueCarries a h paths Like t explicit x old)
        → PartCarries a E
            (field_part paths hazzer_field)
            (msg_has, x)
            (has, old)
            (Hazzer.set i has, v.read_back)
    unfolding encode_field field_size decode_branch accessor
    hazzer_present msg_has has x old k there v =
        let w = field_wire_type (optional t hazzer) in
        let mark : With (RustType paths t) → With (RustType paths t) =
          λ s. (Hazzer.set i s.0, s.1) in
        record {
          bytes = tag_bytes n w ++ v.carried.bytes;
          writes = rw there (tagged-Writes a n w k v.carried.writes);
          sized = rw there (
              omega (
                arith,
                tag_len_lem n w k,
                v.carried.sized,
                length-append (tag_bytes n w) v.carried.bytes,
              ));
          records = one-Records (field_part paths hazzer_field) n w k (eq→== n n refl) (
              rw (append-nil v.carried.bytes) at (
                >>-Fills (on_value-Fills has v.carried.fills)
                  (update-Fills mark (has, v.read_back))));
        }

    hazzer_absent :
        (msg_has has : List ℕ) (x old : RustType paths t)
        → Hazzer.has i msg_has ≡ false
        → PartCarries a E (field_part paths hazzer_field) (msg_has, x) (has, old) (has, old)
    unfolding encode_field field_size accessor
    hazzer_absent msg_has has x old gone = record {
      bytes = [];
      writes = rw gone (pure-Writes a);
      sized = rw gone refl;
      records = no_more (has, old);
    }

    -- The bits of the other fields are as they were.
    abbrev pub OthersKept : List ℕ → List ℕ → Type 0
    OthersKept has after = (j : ℕ) → (i == j) ≡ false → Hazzer.has j after ≡ Hazzer.has j has

    pub hazzer-Carries :
        (msg_has has : List ℕ) (x old : RustType paths t)
        → IsTag n (field_wire_type (optional t hazzer))
        → i < count
        → IsHazzer count has
        → Hazzer.has i has ≡ false
        → (Hazzer.has i msg_has ≡ true → ValueCarries a h paths Like t explicit x old)
        → (after : List ℕ) × (y : RustType paths t) × LikeOption a h paths Like t
            (accessor paths i t hazzer (msg_has, x))
            (accessor paths i t hazzer (after, y))
          × IsHazzer count after
          × OthersKept has after
          × PartCarries a E (field_part paths hazzer_field) (msg_has, x) (has, old) (after, y)
    unfolding accessor
    hazzer-Carries msg_has has x old k low good empty each =
        elim (Bool-cases (Hazzer.has i msg_has)) [
          | inl there ↦
              let v = each there in
              let now : Hazzer.has i (Hazzer.set i has) ≡ true =
                has-set count i i has good low ∙ rw (eq→== i i refl) refl in
              (
                Hazzer.set i has,
                v.read_back,
                rw (there, now) v.like,
                set-IsHazzer count i has good,
                (λ j other. has-set count i j has good low ∙ rw other refl),
                hazzer_present msg_has has x old k there v,
              )
          | inr gone ↦ (
            has,
            old,
            rw (gone, empty) tt,
            good,
            (λ j other. refl),
            hazzer_absent msg_has has x old gone,
          )
        ]

  module _ (n i : ℕ) (t : TypeSpec P) where
    abbrev option_field : Field P
    option_field = record { num = n; ftype = optional t option; hazzer_index = i }

    option_present :
        (msg_has has : List ℕ) (x : RustType paths t)
        → IsTag n (field_wire_type (optional t option))
        → (v : ValueCarries a h paths Like t explicit x (type_default paths t))
        → PartCarries a E
            (field_part paths option_field)
            (msg_has, some x)
            (has, none)
            (has, some v.read_back)
    unfolding encode_field field_size decode_branch accessor
    option_present msg_has has x k v =
        let w = field_wire_type (optional t option) in
        record {
          bytes = tag_bytes n w ++ v.carried.bytes;
          writes = tagged-Writes a n w k v.carried.writes;
          sized = omega (
            arith,
            tag_len_lem n w k,
            v.carried.sized,
            length-append (tag_bytes n w) v.carried.bytes,
          );
          records =
              one-Records (field_part paths option_field) n w k (eq→== n n refl)
                (on_value-Fills has (on_some-Fills v.carried.fills));
        }

    option_absent :
        (msg_has has : List ℕ)
        → PartCarries a E (field_part paths option_field) (msg_has, none) (has, none) (has, none)
    unfolding encode_field field_size accessor
    option_absent msg_has has = record {
      bytes = [];
      writes = pure-Writes a;
      sized = refl;
      records = no_more (has, none);
    }

    pub option-Carries :
        (msg_has has : List ℕ) (o : Option (RustType paths t))
        → IsTag n (field_wire_type (optional t option))
        → ((x : RustType paths t)
            → o ≡ some x
            → ValueCarries a h paths Like t explicit x (type_default paths t))
        → (r : Option (RustType paths t)) × LikeOption a h paths Like t o r
          × PartCarries a E (field_part paths option_field) (msg_has, o) (has, none) (has, r)
    option-Carries msg_has has none k each = (none, tt, option_absent msg_has has)
    option-Carries msg_has has (some x) k each =
        let v = each x refl in (some v.read_back, v.like, option_present msg_has has x k v)
