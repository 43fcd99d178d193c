-- ===== src/Wire.antt =====
-- micropb/src/lib.rs: the wire types, tags and field presence.
pub mod Tags
use micropb.Prelude.{ℕ, ◌*◌, ◌/◌, ◌%◌, ◌^◌, bit_and, bit_or}

abbrev pub wire_type_varint : ℕ
wire_type_varint = 0

abbrev pub wire_type_i64 : ℕ
wire_type_i64 = 1

abbrev pub wire_type_len : ℕ
wire_type_len = 2

abbrev pub wire_type_i32 : ℕ
wire_type_i32 = 5

-- `struct Tag(u32)`.
pub data Tag : Type 0 where
  tag : ℕ → Tag

-- `(field_num << 3) | wire_type`, on a `u32`: the three top bits of the field number are lost.
unfoldable pub from_parts : ℕ → ℕ → Tag
from_parts field_num wire_type = tag (bit_or (field_num * 2 ^ 3 % 2 ^ 32) wire_type)

unfoldable pub wire_type : Tag → ℕ
wire_type (tag t) = bit_and t 7

unfoldable pub field_num : Tag → ℕ
field_num (tag t) = t / 2 ^ 3

unfoldable pub varint : Tag → ℕ
varint (tag t) = t

pub data Presence : Type 0 where
  implicit explicit : Presence
