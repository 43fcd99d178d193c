-- ===== src/Config.antt =====
-- micropb-gen/src/config.rs: the options, how they are merged, and how the generator finds the ones of
-- a type or field by its path (micropb-gen/src/lib.rs and micropb-gen/src/generator.rs).
pub mod Paths
pub mod Containers
pub mod Settings
pub mod Below
pub mod Found
use micropb.Prelude.{ℕ, Bool, not, Option, none, some, List}
use micropb.TypeSpec.{IntSize}
use micropb.Generated.Field.{OptionalRepr}

-- A Rust `String`, by its bytes.
abbrev pub Text : Type 0
Text = List ℕ

-- `Type` and `Delegate`.
pub data CustomField : Type 0 where
  custom_type delegate : Text → CustomField

pub record Config : Type 0 where
  pub max_len : Option ℕ
  pub max_bytes : Option ℕ
  pub int_size : Option IntSize
  pub field_attributes : Option Text
  pub boxed : Option Bool
  pub vec_type : Option Text
  pub string_type : Option Text
  pub map_type : Option Text
  pub optional_repr : Option OptionalRepr
  pub custom_field : Option CustomField
  pub rename_field : Option Text
  pub enum_int_size : Option IntSize
  pub type_attributes : Option Text
  pub no_debug_impl : Option Bool
  pub no_default_impl : Option Bool
  pub no_partial_eq_impl : Option Bool
  pub no_clone_impl : Option Bool
  pub unknown_handler : Option Text
  pub skip : Option Bool

-- `Config::new`.
abbrev pub new : Config
new = record {
  max_len = none;
  max_bytes = none;
  int_size = none;
  field_attributes = none;
  boxed = none;
  vec_type = none;
  string_type = none;
  map_type = none;
  optional_repr = none;
  custom_field = none;
  rename_field = none;
  enum_int_size = none;
  type_attributes = none;
  no_debug_impl = none;
  no_default_impl = none;
  no_partial_eq_impl = none;
  no_clone_impl = none;
  unknown_handler = none;
  skip = none;
}

-- An option that is set in the other configuration replaces the one that was there.
abbrev pub or_kept : {A : Type 0} → Option A → Option A → Option A
or_kept mine none = mine
or_kept mine (some v) = some v

unfoldable pub merge : Config → Config → Config
merge self other = record {
  max_len = or_kept self.max_len other.max_len;
  max_bytes = or_kept self.max_bytes other.max_bytes;
  int_size = or_kept self.int_size other.int_size;
  field_attributes = or_kept self.field_attributes other.field_attributes;
  boxed = or_kept self.boxed other.boxed;
  vec_type = or_kept self.vec_type other.vec_type;
  string_type = or_kept self.string_type other.string_type;
  map_type = or_kept self.map_type other.map_type;
  optional_repr = or_kept self.optional_repr other.optional_repr;
  custom_field = or_kept self.custom_field other.custom_field;
  rename_field = other.rename_field;
  enum_int_size = or_kept self.enum_int_size other.enum_int_size;
  type_attributes = or_kept self.type_attributes other.type_attributes;
  no_debug_impl = or_kept self.no_debug_impl other.no_debug_impl;
  no_default_impl = or_kept self.no_default_impl other.no_default_impl;
  no_partial_eq_impl = or_kept self.no_partial_eq_impl other.no_partial_eq_impl;
  no_clone_impl = or_kept self.no_clone_impl other.no_clone_impl;
  unknown_handler = or_kept self.unknown_handler other.unknown_handler;
  skip = or_kept self.skip other.skip;
}
