-- ===== src/Config/Settings.antt =====
-- The options that are passed on to the paths below, and what a sequence of configurations makes of
-- one.
use micropb.Prelude.{ℕ, Bool, ◌≡◌, refl, Option, none, some, List, [], ◌∷◌}
use micropb.TypeSpec.{IntSize}
use micropb.Generated.Field.{OptionalRepr}
use micropb.Config.{Config, CustomField, Text, or_kept, merge}

-- All options but `rename_field`.
pub data Setting : Type 0 where
  len_setting bytes_setting int_setting field_attributes_setting boxed_setting vec_setting
        string_setting map_setting repr_setting custom_setting enum_setting type_attributes_setting
        debug_setting default_setting partial_eq_setting clone_setting unknown_setting
        skip_setting :
      Setting

abbrev pub Value : Setting → Type 0
Value len_setting = ℕ
Value bytes_setting = ℕ
Value int_setting = IntSize
Value field_attributes_setting = Text
Value boxed_setting = Bool
Value vec_setting = Text
Value string_setting = Text
Value map_setting = Text
Value repr_setting = OptionalRepr
Value custom_setting = CustomField
Value enum_setting = IntSize
Value type_attributes_setting = Text
Value debug_setting = Bool
Value default_setting = Bool
Value partial_eq_setting = Bool
Value clone_setting = Bool
Value unknown_setting = Text
Value skip_setting = Bool

unfoldable pub get : (o : Setting) → Config → Option (Value o)
get len_setting c = c.max_len
get bytes_setting c = c.max_bytes
get int_setting c = c.int_size
get field_attributes_setting c = c.field_attributes
get boxed_setting c = c.boxed
get vec_setting c = c.vec_type
get string_setting c = c.string_type
get map_setting c = c.map_type
get repr_setting c = c.optional_repr
get custom_setting c = c.custom_field
get enum_setting c = c.enum_int_size
get type_attributes_setting c = c.type_attributes
get debug_setting c = c.no_debug_impl
get default_setting c = c.no_default_impl
get partial_eq_setting c = c.no_partial_eq_impl
get clone_setting c = c.no_clone_impl
get unknown_setting c = c.unknown_handler
get skip_setting c = c.skip

-- A later value counts, if there is one.
abbrev pub newest : {A : Type 0} → Option A → Option A → Option A
newest before none = before
newest before (some v) = some v

or_kept-newest : {A : Type 0} (x y : Option A) → or_kept x y ≡ newest x y
or_kept-newest x none = refl
or_kept-newest x (some v) = refl

pub get-merge : (o : Setting) (c d : Config) → get o (merge c d) ≡ newest (get o c) (get o d)
unfolding get merge
get-merge len_setting c d = or_kept-newest c.max_len d.max_len
get-merge bytes_setting c d = or_kept-newest c.max_bytes d.max_bytes
get-merge int_setting c d = or_kept-newest c.int_size d.int_size
get-merge field_attributes_setting c d = or_kept-newest c.field_attributes d.field_attributes
get-merge boxed_setting c d = or_kept-newest c.boxed d.boxed
get-merge vec_setting c d = or_kept-newest c.vec_type d.vec_type
get-merge string_setting c d = or_kept-newest c.string_type d.string_type
get-merge map_setting c d = or_kept-newest c.map_type d.map_type
get-merge repr_setting c d = or_kept-newest c.optional_repr d.optional_repr
get-merge custom_setting c d = or_kept-newest c.custom_field d.custom_field
get-merge enum_setting c d = or_kept-newest c.enum_int_size d.enum_int_size
get-merge type_attributes_setting c d = or_kept-newest c.type_attributes d.type_attributes
get-merge debug_setting c d = or_kept-newest c.no_debug_impl d.no_debug_impl
get-merge default_setting c d = or_kept-newest c.no_default_impl d.no_default_impl
get-merge partial_eq_setting c d = or_kept-newest c.no_partial_eq_impl d.no_partial_eq_impl
get-merge clone_setting c d = or_kept-newest c.no_clone_impl d.no_clone_impl
get-merge unknown_setting c d = or_kept-newest c.unknown_handler d.unknown_handler
get-merge skip_setting c d = or_kept-newest c.skip d.skip

-- The last one that is set, or what there was before.
abbrev pub last_set : (o : Setting) → Option (Value o) → List Config → Option (Value o)
last_set o before [] = before
last_set o before (c ∷ cs) = last_set o (newest before (get o c)) cs
