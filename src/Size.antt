-- ===== src/Size.antt =====
-- micropb/src/size.rs: the sizes of values on the wire.
pub mod Laws
use micropb.Prelude.{ℕ, ◌+◌, ◌%◌, ◌^◌, List, [], ◌∷◌, if◌then◌else◌, leb}
use micropb.Prelude.Int.{ℤ, pos, negsuc, to_unsigned}
use micropb.Wire.{Tag, varint}
use micropb.Encode.{zigzag}

unfoldable pub sizeof_varint32 : ℕ → ℕ
sizeof_varint32 v =
    if leb v 0x7f
    then 1
    else if leb v 0x3fff
    then 2
    else if leb v 0x1f_ffff
    then 3
    else if leb v 0xfff_ffff
    then 4
    else 5

unfoldable pub sizeof_varint64 : ℕ → ℕ
unfolding sizeof_varint32
sizeof_varint64 v =
    if leb v 0xffff_ffff
    then sizeof_varint32 (v % 2 ^ 32)
    else if leb v 0x7_ffff_ffff
    then 5
    else if leb v 0x3ff_ffff_ffff
    then 6
    else if leb v 0x1_ffff_ffff_ffff
    then 7
    else if leb v 0xff_ffff_ffff_ffff
    then 8
    else if leb v 0x7fff_ffff_ffff_ffff
    then 9
    else 10

unfoldable pub sizeof_int32 : ℤ → ℕ
sizeof_int32 (pos n) = sizeof_varint32 n
sizeof_int32 (negsuc n) = 10

unfoldable pub sizeof_int64 : ℤ → ℕ
sizeof_int64 i = sizeof_varint64 (to_unsigned 64 i)

unfoldable pub sizeof_sint32 : ℤ → ℕ
sizeof_sint32 i = sizeof_varint32 (zigzag 32 31 i)

unfoldable pub sizeof_sint64 : ℤ → ℕ
sizeof_sint64 i = sizeof_varint64 (zigzag 64 63 i)

unfoldable pub sizeof_tag : Tag → ℕ
sizeof_tag t = sizeof_varint32 (varint t)

unfoldable pub sizeof_packed : {T : Type 0} → List T → (T → ℕ) → ℕ
sizeof_packed [] sizer = 0
sizeof_packed (x ∷ elems) sizer = sizer x + sizeof_packed elems sizer

unfoldable pub sizeof_len_record : ℕ → ℕ
sizeof_len_record len = len + sizeof_varint32 (len % 2 ^ 32)

unfoldable pub sizeof_map_elem : {K V : Type 0} → K → V → (K → ℕ) → (V → ℕ) → ℕ
sizeof_map_elem key val key_sizer val_sizer = 2 + key_sizer key + val_sizer val
