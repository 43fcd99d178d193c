-- ===== src/Generated/Oneof.antt =====
-- What the generated code does with a oneof: `Oneof` and `OneofField` of
-- micropb-gen/src/generator/oneof.rs. The enum's variants are a sum in the order of the fields.
-- `Box` is left out, and so are delegate oneofs.
pub mod Carried
pub mod Agree
use micropb.Prelude.{ℕ, ◌+◌, Bool, true, false, ◌||◌, List, [], ◌∷◌, Option, none, some, ◌==◌}
use micropb.Prelude.{◌⊎◌, inl, inr, if◌then◌else◌}
use micropb.Monad.{M, ◌>>◌, pure}
use micropb.Wire.{Tag, field_num, explicit}
use micropb.Writer.{PbWrite}
use micropb.Encode.{PbEncoder}
use micropb.Reader.{PbRead}
use micropb.Decode.Into.{Into, get_or}
use micropb.TypeSpec.{TypeSpec}
use micropb.TypeSpec as Integers
use micropb.Generated.Types.{Paths, RustType, type_default, value_size, encode_value, decode_mut}
use micropb.Generated.Parts.{With, Part, on_value, or_custom_field, tagged, tag_len}

pub record OneofField (P : Type 0) : Type 0 where
  pub num : ℕ
  pub tspec : TypeSpec P

pub data OneofType (P : Type 0) : Type 0 where
  enum_oneof : List (OneofField P) → OneofType P
  custom_oneof : P → List ℕ → OneofType P

abbrev pub as_first : {A B : Type 0} → Option (A ⊎ B) → Option A
as_first none = none
as_first (some (inl x)) = some x
as_first (some (inr y)) = none

abbrev pub as_other : {A B : Type 0} → Option (A ⊎ B) → Option B
as_other none = none
as_other (some (inl x)) = none
as_other (some (inr y)) = some y

abbrev pub put_other : {A B : Type 0} → Option (A ⊎ B) → Option B → Option (A ⊎ B)
put_other old none = old
put_other old (some y) = some (inr y)

abbrev pub any_num : List ℕ → ℕ → Bool
any_num [] n = false
any_num (m ∷ nums) n = (n == m) || any_num nums n

module _ {P : Type 0} (paths : Paths P) where
  abbrev pub Variant : List (OneofField P) → Type 0
  Variant [] = ⊥
  Variant (f ∷ fields) = RustType paths f.tspec ⊎ Variant fields

  abbrev pub any_field : List (OneofField P) → ℕ → Bool
  any_field [] n = false
  any_field (f ∷ fields) n = (n == f.num) || any_field fields n

  module _ {R E : Type 0} (rd : PbRead R E) where
    -- The `loop` keeps the value of the same variant and otherwise puts the variant's default in
    -- the place of what is there, which its second round finds.
    abbrev pub on_variant :
        {A B : Type 0} → A → Into rd A (Unit {0}) → Into rd (Option (A ⊎ B)) (Unit {0})
    on_variant default m p =
        let out = m (p.0, get_or default (as_first p.1)) in (out.0, (out.1.0, some (inl out.1.1)))

    abbrev pub on_other :
        {A B : Type 0} → Into rd (Option B) (Unit {0}) → Into rd (Option (A ⊎ B)) (Unit {0})
    on_other m p = let out = m (p.0, as_other p.1) in (out.0, (out.1.0, put_other p.1 out.1.1))

    -- The branches are entered only for the numbers of `any_field`.
    unfoldable pub variant_branches :
        (fields : List (OneofField P)) → ℕ → Into rd (Option (Variant fields)) (Unit {0})
    variant_branches [] n = pure tt
    variant_branches (f ∷ fields) n =
        let others = on_other (variant_branches fields n) in
        if n == f.num
        then on_variant (type_default paths f.tspec) (decode_mut paths rd f.tspec explicit)
        else others

  module _ {W E : Type 0} (wr : PbWrite W E) where
    unfoldable pub encode_variant :
        (fields : List (OneofField P)) → Variant fields → M (PbEncoder W) E (Unit {0})
    encode_variant [] v = absurd v
    encode_variant (f ∷ fields) (inl x) =
        tagged wr f.num (Integers.wire_type f.tspec) (encode_value paths wr f.tspec x)
    encode_variant (f ∷ fields) (inr y) = encode_variant fields y

    abbrev pub encode_oneof :
        (fields : List (OneofField P)) → Option (Variant fields) → M (PbEncoder W) E (Unit {0})
    encode_oneof fields none = pure tt
    encode_oneof fields (some v) = encode_variant fields v

  unfoldable pub variant_size : (fields : List (OneofField P)) → Variant fields → ℕ
  variant_size [] v = absurd v
  variant_size (f ∷ fields) (inl x) =
      tag_len f.num (Integers.wire_type f.tspec) + value_size paths f.tspec x
  variant_size (f ∷ fields) (inr y) = variant_size fields y

  abbrev pub oneof_size : (fields : List (OneofField P)) → Option (Variant fields) → ℕ
  oneof_size fields none = 0
  oneof_size fields (some v) = variant_size fields v

  abbrev pub oneof_part : OneofType P → Part
  oneof_part (enum_oneof fields) = record {
    State = Option (Variant fields);
    matches = any_field fields;
    decode_branch = λ rd read_tag. on_value rd (variant_branches rd fields (field_num read_tag));
    encode = λ wr s. encode_oneof wr fields s.1;
    size = λ s. oneof_size fields s.1;
  }
  oneof_part (custom_oneof path nums) = record {
    State = (paths.custom_at path).Custom;
    matches = any_num nums;
    decode_branch = λ rd read_tag.
        on_value rd
          (or_custom_field rd (((paths.custom_at path).field_decode rd).decode_field read_tag));
    encode = λ wr s. (paths.custom_at path).encode_fields wr s.1;
    size = λ s. (paths.custom_at path).compute_fields_size s.1;
  }
