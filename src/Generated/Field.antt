-- ===== src/Generated/Field.antt =====
-- What the generated code does with a field of a message: `FieldType` and `Field` of
-- micropb-gen/src/generator/field.rs. `Box` is left out, and so are delegate fields.
pub mod Values
pub mod Present
pub mod Sizes
pub mod Repeated
pub mod Many
pub mod Maps
pub mod Agree
use micropb.Prelude.{ℕ, ◌+◌, ◌*◌, Bool, true, false, List, [], ◌∷◌, Option, none, some}
use micropb.Prelude.{length, ◌==◌, if◌then◌else◌}
use micropb.Monad.{ok, M, ◌>>=◌, ◌>>◌, pure}
use micropb.Wire.{Tag, wire_type, wire_type_len, wire_type_varint, implicit, explicit}
use micropb.Writer.{PbWrite}
use micropb.Encode.{PbEncoder, encode_each, encode_packed, encode_map_elem}
use micropb.Size.{sizeof_packed, sizeof_len_record, sizeof_map_elem}
use micropb.Reader.{PbRead}
use micropb.Container.{PbVec}
use micropb.Decode.{Decoding}
use micropb.Decode.Into.{Into, on_decoder, on_dest, update, pushed, decode_packed, decode_map_elem}
use micropb.TypeSpec.{TypeSpec, fixed_size}
use micropb.TypeSpec as Integers
use micropb.Generated.Hazzer
use micropb.Generated.Types.{Paths, RustType, type_default, implicit_presence_check}
use micropb.Generated.Types.{value_size, encode_value, decode_val, decode_mut}
use micropb.Generated.Parts.{With, Part, on_value, on_some, on_local, or_custom_field}
use micropb.Generated.Parts.{tagged, tag_len}

-- micropb-gen/src/config.rs.
pub data OptionalRepr : Type 0 where
  hazzer option : OptionalRepr

pub data FieldType (P : Type 0) : Type 0 where
  map_field : TypeSpec P → TypeSpec P → P → Option ℕ → FieldType P
  single : TypeSpec P → FieldType P
  optional : TypeSpec P → OptionalRepr → FieldType P
  repeated : TypeSpec P → Bool → P → Option ℕ → FieldType P
  custom : P → FieldType P

-- `hazzer_index` counts the fields before this one that are in the `_Hazzer`.
pub record Field (P : Type 0) : Type 0 where
  pub num : ℕ
  pub ftype : FieldType P
  pub hazzer_index : ℕ

abbrev pub packed_len_by : {T : Type 0} → Option ℕ → List T → (T → ℕ) → ℕ
packed_len_by (some fixed) elems sizer = length elems * fixed
packed_len_by none elems sizer = sizeof_packed elems sizer

-- The size of the elements with a tag of `tag_len` bytes each.
abbrev pub repeated_len_by : {T : Type 0} → ℕ → Option ℕ → List T → (T → ℕ) → ℕ
repeated_len_by tag_len (some fixed) elems sizer = length elems * (tag_len + fixed)
repeated_len_by tag_len none elems sizer = sizeof_packed elems (λ x. tag_len + sizer x)

unfoldable pub field_wire_type : {P : Type 0} → FieldType P → ℕ
field_wire_type (single t) = Integers.wire_type t
field_wire_type (optional t repr) = Integers.wire_type t
field_wire_type (repeated t false path max) = Integers.wire_type t
field_wire_type (repeated t true path max) = wire_type_len
field_wire_type (map_field key val path max) = wire_type_len
field_wire_type (custom path) = wire_type_varint

module _ {P : Type 0} (paths : Paths P) where
  -- The type of the struct's field.
  abbrev pub FieldState : FieldType P → Type 0
  FieldState (map_field key val path max) =
      (paths.map_at path max (RustType paths key) (RustType paths val)).Carrier
  FieldState (single t) = RustType paths t
  FieldState (optional t hazzer) = RustType paths t
  FieldState (optional t option) = Option (RustType paths t)
  FieldState (repeated t packed path max) = (paths.vec_at path max (RustType paths t)).Carrier
  FieldState (custom path) = (paths.custom_at path).Custom

  -- The length of a packed record.
  abbrev pub packed_len : (t : TypeSpec P) → List (RustType paths t) → ℕ
  packed_len t elems = packed_len_by (fixed_size t) elems (value_size paths t)

  -- The accessor of an optional field.
  unfoldable pub accessor :
      ℕ
      → (t : TypeSpec P) (repr : OptionalRepr) → With (FieldState (optional t repr))
      → Option (RustType paths t)
  accessor i t hazzer s = if Hazzer.has i s.0 then some s.1 else none
  accessor i t option s = s.1

  module _ {R E : Type 0} (rd : PbRead R E) where
    -- `if let (Err(_), false) = (.., decoder.ignore_repeated_cap_err) { return Err(Capacity) }`.
    abbrev pub push_value : {S T : Type 0} → PbVec S T → T → Into rd S (Unit {0})
    push_value vec val p =
        (pushed p.0.ignore_repeated_cap_err (vec.pb_push p.1 val).0, (p.0, (vec.pb_push p.1 val).1))

    -- By whether the type has a `generate_decode_val`.
    unfoldable pub repeated_branch :
        {S : Type 0} (t : TypeSpec P)
        → PbVec S (RustType paths t)
        → Option (Decoding rd (RustType paths t))
        → Tag
        → Into rd S (Unit {0})
    repeated_branch t vec (some val) read_tag =
        if wire_type read_tag == wire_type_len
        then decode_packed rd vec val
        else (on_decoder rd val >>= λ x. push_value vec x)
    repeated_branch t vec none read_tag =
        on_local rd (type_default paths t) (decode_mut paths rd t explicit) (push_value vec)

    unfoldable pub insert_pair :
        (path : P) (max : Option ℕ) (key val : TypeSpec P)
        → Option (RustType paths key × RustType paths val)
        → Into rd (FieldState (map_field key val path max)) (Unit {0})
    insert_pair path max key val none p = (ok tt, p)
    insert_pair path max key val (some pair) p =
        let map = (paths.map_at path max (RustType paths key) (RustType paths val)).pb_map in
        let out = map.pb_insert p.1 pair.0 pair.1 in
        (pushed p.0.ignore_repeated_cap_err out.0, (p.0, out.1))

    unfoldable pub decode_branch :
        ℕ → (ftype : FieldType P) → Tag → Into rd (With (FieldState ftype)) (Unit {0})
    decode_branch i (map_field key val path max) read_tag = on_value rd (
        on_decoder rd (
          decode_map_elem rd (type_default paths key) (type_default paths val)
            (decode_mut paths rd key explicit) (decode_mut paths rd val explicit))
        >>= insert_pair path max key val)
    decode_branch i (single t) read_tag = on_value rd (decode_mut paths rd t implicit)
    decode_branch i (optional t hazzer) read_tag =
        on_value rd (decode_mut paths rd t explicit) >> update rd (λ s. (Hazzer.set i s.0, s.1))
    decode_branch i (optional t option) read_tag =
        on_value rd (on_some rd (type_default paths t) (decode_mut paths rd t explicit))
    decode_branch i (repeated t packed path max) read_tag = on_value rd (
        repeated_branch t (paths.vec_at path max (RustType paths t)).pb_vec (decode_val paths rd t)
          read_tag)
    decode_branch i (custom path) read_tag =
        on_value rd
          (or_custom_field rd (((paths.custom_at path).field_decode rd).decode_field read_tag))

  module _ {W E : Type 0} (wr : PbWrite W E) where
    abbrev pub encode_tagged :
        ℕ → (ftype : FieldType P) (t : TypeSpec P) → RustType paths t → M (PbEncoder W) E (Unit {0})
    encode_tagged num ftype t x = tagged wr num (field_wire_type ftype) (encode_value paths wr t x)

    abbrev pub encode_present :
        ℕ
        → (ftype : FieldType P) (t : TypeSpec P) → Option (RustType paths t)
        → M (PbEncoder W) E (Unit {0})
    encode_present num ftype t none = pure tt
    encode_present num ftype t (some x) = encode_tagged num ftype t x

    abbrev pub encode_map :
        ℕ
        → (key val : TypeSpec P) → List (RustType paths key × RustType paths val)
        → M (PbEncoder W) E (Unit {0})
    encode_map num key val pairs = encode_each wr pairs λ pair. tagged wr num wire_type_len (
        encode_map_elem wr
          (sizeof_map_elem pair.0 pair.1 (value_size paths key) (value_size paths val)) pair.0
          (Integers.wire_type key) pair.1 (Integers.wire_type val) (encode_value paths wr key)
          (encode_value paths wr val))

    unfoldable pub encode_field :
        ℕ → ℕ → (ftype : FieldType P) → With (FieldState ftype) → M (PbEncoder W) E (Unit {0})
    encode_field num i (map_field key val path max) s =
        encode_map num key val
          ((paths.map_at path max (RustType paths key) (RustType paths val)).pb_map.pb_iter s.1)
    encode_field num i (single t) s =
        if implicit_presence_check paths t s.1 then encode_tagged num (single t) t s.1 else pure tt
    encode_field num i (optional t repr) s =
        encode_present num (optional t repr) t (accessor i t repr s)
    encode_field num i (repeated t false path max) s =
        encode_each wr ((paths.vec_at path max (RustType paths t)).pb_vec.deref s.1)
          (encode_tagged num (repeated t false path max) t)
    encode_field num i (repeated t true path max) s =
        let elems = (paths.vec_at path max (RustType paths t)).pb_vec.deref s.1 in
        if length elems == 0
        then pure tt
        else tagged wr num wire_type_len
            (encode_packed wr (packed_len t elems) elems (encode_value paths wr t))
    encode_field num i (custom path) s = (paths.custom_at path).encode_fields wr s.1

  abbrev pub present_size :
      ℕ → (ftype : FieldType P) (t : TypeSpec P) → Option (RustType paths t) → ℕ
  present_size num ftype t none = 0
  present_size num ftype t (some x) = tag_len num (field_wire_type ftype) + value_size paths t x

  unfoldable pub field_size : ℕ → ℕ → (ftype : FieldType P) → With (FieldState ftype) → ℕ
  field_size num i (map_field key val path max) s =
      sizeof_packed
        ((paths.map_at path max (RustType paths key) (RustType paths val)).pb_map.pb_iter s.1)
        (λ pair.
          sizeof_len_record
            (sizeof_map_elem pair.0 pair.1 (value_size paths key) (value_size paths val))
          + tag_len num wire_type_len)
  field_size num i (single t) s =
      if implicit_presence_check paths t s.1
      then tag_len num (field_wire_type (single t)) + value_size paths t s.1
      else 0
  field_size num i (optional t repr) s = present_size num (optional t repr) t (accessor i t repr s)
  field_size num i (repeated t false path max) s =
      repeated_len_by (tag_len num (field_wire_type (repeated t false path max))) (fixed_size t)
        ((paths.vec_at path max (RustType paths t)).pb_vec.deref s.1) (value_size paths t)
  field_size num i (repeated t true path max) s =
      let elems = (paths.vec_at path max (RustType paths t)).pb_vec.deref s.1 in
      if length elems == 0
      then 0
      else tag_len num wire_type_len + sizeof_len_record (packed_len t elems)
  field_size num i (custom path) s = (paths.custom_at path).compute_fields_size s.1

  abbrev pub field_part : Field P → Part
  field_part f = record {
    State = FieldState f.ftype;
    matches = λ n. n == f.num;
    decode_branch = λ rd. decode_branch rd f.hazzer_index f.ftype;
    encode = λ wr. encode_field wr f.num f.hazzer_index f.ftype;
    size = field_size f.num f.hazzer_index f.ftype;
  }
