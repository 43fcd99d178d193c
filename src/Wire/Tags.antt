-- ===== src/Wire/Tags.antt =====
-- A tag and its two parts.
use micropb.Prelude.{ℕ, ◌+◌, ◌*◌, ◌/◌, ◌%◌, ◌^◌, ◌<◌, ◌≡◌, ap, ◌∙◌, arith, bit_and, bit_or}
use micropb.Prelude.Bits.{bit_or_below, bit_and_ones}
use micropb.Wire.{tag, from_parts, wire_type, field_num, varint}

pub varint-from_parts : (n w : ℕ) → n < 2 ^ 29 → w < 8 → varint (from_parts n w) ≡ n * 8 + w
unfolding varint from_parts
varint-from_parts n w h k =
    let whole : n * 2 ^ 3 % 2 ^ 32 ≡ n * 2 ^ 3 = omega arith in rw whole (bit_or_below 3 n w k)

-- For a field number below 2 ^ 29 and a wire type below 8, `field_num` and `wire_type` of the tag
-- that `from_parts` makes are these two.
pub tag_parts :
    (n w : ℕ)
    → n < 2 ^ 29
    → w < 8
    → (field_num (from_parts n w) ≡ n) × (wire_type (from_parts n w) ≡ w)
unfolding field_num wire_type from_parts varint
tag_parts n w h k =
    let whole : bit_or (n * 2 ^ 3 % 2 ^ 32) w ≡ n * 8 + w = varint-from_parts n w h k in
    (rw whole (omega arith), rw whole (bit_and_ones 3 (n * 8 + w) ∙ omega arith))

-- Every 32-bit tag is made of its parts.
pub from_parts-parts :
    (t : ℕ) → t < 2 ^ 32 → from_parts (field_num (tag t)) (wire_type (tag t)) ≡ tag t
unfolding field_num wire_type from_parts
from_parts-parts t h =
    let low : bit_and t 7 ≡ t % 8 = bit_and_ones 3 t in
    let whole : t / 2 ^ 3 * 2 ^ 3 % 2 ^ 32 ≡ t / 2 ^ 3 * 2 ^ 3 = omega arith in
    rw (low, whole) (ap tag (bit_or_below 3 (t / 2 ^ 3) (t % 8) (omega arith) ∙ omega arith))
