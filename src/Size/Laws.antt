-- ===== src/Size/Laws.antt =====
-- The sizes are the lengths of what the encoder writes.
use micropb.Prelude.{All, ℕ, ◌-◌, ◌%◌, ◌^◌, ◌<◌, ◌≡◌, sym, ◌∙◌, refl, ◌∙◌, arith}
use micropb.Prelude.{List, [], ◌∷◌, ◌++◌, length, length-append}
use micropb.Prelude.Int.{ℤ, pos, negsuc, InRange, to_unsigned, to_unsigned-lt_64}
use mathlib.Core.List.{flat_map}
use micropb.Wire.{Tag, varint}
use micropb.Encode.Bytes.{groups, varint_bytes}
use micropb.Encode.Zigzag.{
  zigzag_value, zigzag_32, zigzag_64, zigzag_value-lt_32, zigzag_value-lt_64,
}
use micropb.Size.{sizeof_varint32, sizeof_varint64, sizeof_int32, sizeof_int64, sizeof_sint32}
use micropb.Size.{sizeof_sint64, sizeof_tag, sizeof_packed, sizeof_len_record}

pub sizeof_varint32_lem : (v : ℕ) → v < 2 ^ 32 → sizeof_varint32 v ≡ length (varint_bytes v)
unfolding sizeof_varint32 varint_bytes groups
sizeof_varint32_lem v h = ground arith

pub sizeof_varint64_lem : (v : ℕ) → v < 2 ^ 64 → sizeof_varint64 v ≡ length (varint_bytes v)
unfolding sizeof_varint64 varint_bytes groups
sizeof_varint64_lem v h = ground arith

pub sizeof_int32_lem :
    (i : ℤ) → InRange 32 i → sizeof_int32 i ≡ length (varint_bytes (to_unsigned 64 i))
unfolding sizeof_int32
sizeof_int32_lem (pos n) h = sizeof_varint32_lem n (omega arith)
sizeof_int32_lem (negsuc n) h =
    let ten : sizeof_varint64 (2 ^ 64 - 1 - n) ≡ 10 = unfold sizeof_varint64 in ground arith in
    sym ten ∙ sizeof_varint64_lem (2 ^ 64 - 1 - n) (omega arith)

pub sizeof_int64_lem :
    (i : ℤ) → InRange 64 i → sizeof_int64 i ≡ length (varint_bytes (to_unsigned 64 i))
unfolding sizeof_int64
sizeof_int64_lem i h = sizeof_varint64_lem (to_unsigned 64 i) (to_unsigned-lt_64 i h)

pub sizeof_sint32_lem :
    (i : ℤ) → InRange 32 i → sizeof_sint32 i ≡ length (varint_bytes (zigzag_value i))
unfolding sizeof_sint32
sizeof_sint32_lem i h =
    rw (zigzag_32 i h) (sizeof_varint32_lem (zigzag_value i) (zigzag_value-lt_32 i h))

pub sizeof_sint64_lem :
    (i : ℤ) → InRange 64 i → sizeof_sint64 i ≡ length (varint_bytes (zigzag_value i))
unfolding sizeof_sint64
sizeof_sint64_lem i h =
    rw (zigzag_64 i h) (sizeof_varint64_lem (zigzag_value i) (zigzag_value-lt_64 i h))

pub sizeof_tag_lem : (t : Tag) → varint t < 2 ^ 32 → sizeof_tag t ≡ length (varint_bytes (varint t))
unfolding sizeof_tag
sizeof_tag_lem t h = sizeof_varint32_lem (varint t) h

-- A sizer that is right for each element is right for a packed field.
pub sizeof_packed_lem :
    {T : Type 0} (P : T → Type 0) (sizer : T → ℕ) (wire : T → List ℕ)
    → ((x : T) → P x → sizer x ≡ length (wire x))
    → (elems : List T) → All P elems
    → sizeof_packed elems sizer ≡ length (flat_map wire elems)
unfolding sizeof_packed flat_map
sizeof_packed_lem P sizer wire h [] k = refl
sizeof_packed_lem P sizer wire h (x ∷ elems) k = rw (
  h x k.0,
  sizeof_packed_lem P sizer wire h elems k.1,
  length-append (wire x) (flat_map wire elems),
)

-- A record's size is its payload's and the prefix's.
pub sizeof_len_record_lem :
    (bytes : List ℕ)
    → sizeof_len_record (length bytes) ≡ length (varint_bytes (length bytes % 2 ^ 32) ++ bytes)
unfolding sizeof_len_record
sizeof_len_record_lem bytes = omega (
  arith,
  sizeof_varint32_lem (length bytes % 2 ^ 32) (omega arith),
  length-append (varint_bytes (length bytes % 2 ^ 32)) bytes,
)
