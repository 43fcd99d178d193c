-- ===== src/Generated/Field/Sizes.antt =====
-- The generated code multiplies where all values of a type have one size.
use micropb.Prelude.{ℕ, ◌+◌, ◌*◌, ◌≡◌, refl, ap, arith, List, [], ◌∷◌, length}
use micropb.Prelude.{Option, none, some}
use micropb.Size.{sizeof_packed}
use micropb.TypeSpec.{TypeSpec, fixed_size, generate_sizeof}
use micropb.TypeSpec.{message, enum, float, double, bool, int, string, bytes}
use micropb.TypeSpec.{
  int32, int64, uint32, uint64, sint32, sint64, sfixed32, sfixed64, fixed32, fixed64,
}
use micropb.Generated.Types.{Paths, RustType, value_size}
use micropb.Generated.Field.{packed_len, packed_len_by, repeated_len_by}

module _ {P : Type 0} (paths : Paths P) where
  -- `fixed_size` is the size of every value of the type.
  pub fixed_size_lem :
      (t : TypeSpec P) (n : ℕ)
      → fixed_size t ≡ some n
      → (x : RustType paths t) → value_size paths t x ≡ n
  unfolding fixed_size value_size generate_sizeof RustType
  fixed_size_lem (message path) n e x = absurd cc
  fixed_size_lem (enum path) n e x = absurd cc
  fixed_size_lem (string path max) n e x = absurd cc
  fixed_size_lem (bytes path max) n e x = absurd cc
  fixed_size_lem float n e x = cc
  fixed_size_lem double n e x = cc
  fixed_size_lem bool n e x = cc
  fixed_size_lem (int int32 size) n e x = absurd cc
  fixed_size_lem (int int64 size) n e x = absurd cc
  fixed_size_lem (int uint32 size) n e x = absurd cc
  fixed_size_lem (int uint64 size) n e x = absurd cc
  fixed_size_lem (int sint32 size) n e x = absurd cc
  fixed_size_lem (int sint64 size) n e x = absurd cc
  fixed_size_lem (int sfixed32 size) n e x = cc
  fixed_size_lem (int sfixed64 size) n e x = cc
  fixed_size_lem (int fixed32 size) n e x = cc
  fixed_size_lem (int fixed64 size) n e x = cc

module _ {T : Type 0} (sizer : T → ℕ) where
  same_sizes :
      (n : ℕ)
      → ((x : T) → sizer x ≡ n)
      → (elems : List T) → length elems * n ≡ sizeof_packed elems sizer
  unfolding sizeof_packed
  same_sizes n e [] = omega arith
  same_sizes n e (x ∷ elems) = omega (arith, e x, same_sizes n e elems)

  pub packed_len_lem :
      (fixed : Option ℕ)
      → ((n : ℕ) → fixed ≡ some n → (x : T) → sizer x ≡ n)
      → (elems : List T) → packed_len_by fixed elems sizer ≡ sizeof_packed elems sizer
  packed_len_lem none e elems = refl
  packed_len_lem (some n) e elems = same_sizes n (e n refl) elems

pub repeated_len_lem :
    {T : Type 0} (sizer : T → ℕ) (tag_len : ℕ) (fixed : Option ℕ)
    → ((n : ℕ) → fixed ≡ some n → (x : T) → sizer x ≡ n)
    → (elems : List T)
    → repeated_len_by tag_len fixed elems sizer ≡ sizeof_packed elems (λ x. tag_len + sizer x)
repeated_len_lem sizer tag_len none e elems = refl
repeated_len_lem sizer tag_len (some n) e elems =
    same_sizes (λ x. tag_len + sizer x) (tag_len + n) (λ x. ap (λ m. tag_len + m) (e n refl x))
      elems

-- For every field type, the length of a packed record and the size of an unpacked field, which the
-- generated code multiplies out for types of a fixed size, are the sums of the sizes of the
-- elements, with a tag each in the unpacked field.
pub lens_lem :
    {P : Type 0} (paths : Paths P) (t : TypeSpec P) (tag_len : ℕ) (elems : List (RustType paths t))
    → (packed_len paths t elems ≡ sizeof_packed elems (value_size paths t))
      × (repeated_len_by tag_len (fixed_size t) elems (value_size paths t)
          ≡ sizeof_packed elems (λ x. tag_len + value_size paths t x))
lens_lem paths t tag_len elems = (
  packed_len_lem (value_size paths t) (fixed_size t) (fixed_size_lem paths t) elems,
  repeated_len_lem (value_size paths t) tag_len (fixed_size t) (fixed_size_lem paths t) elems,
)
