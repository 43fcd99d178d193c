-- ===== src/Generated/Hazzer.antt =====
-- The `_Hazzer` of a generated message, from `generate_hazzer_decl` of
-- micropb-gen/src/generator/message.rs: one bit for each optional field that has its presence there.
pub mod Bytes
pub mod Laws
pub mod Calls
use micropb.Prelude.{ℕ, zero, suc, ◌+◌, ◌-◌, ◌/◌, ◌%◌, ◌^◌, bit_and, bit_or}
use micropb.Prelude.{Bool, not, List, [], ◌∷◌, replicate, ◌==◌}

-- `count.div_ceil(8)`.
unfoldable pub hazzer_bytes : ℕ → ℕ
hazzer_bytes count = (count + 7) / 8

-- `Default` of the array.
unfoldable pub new : ℕ → List ℕ
new count = replicate (hazzer_bytes count) 0

-- `self.0[idx]`. The index of a generated method is inside the array, which `Laws` shows.
abbrev pub byte_at : ℕ → List ℕ → ℕ
byte_at i [] = 0
byte_at zero (b ∷ bs) = b
byte_at (suc i) (b ∷ bs) = byte_at i bs

abbrev pub change_at : ℕ → (ℕ → ℕ) → List ℕ → List ℕ
change_at i f [] = []
change_at zero f (b ∷ bs) = f b ∷ bs
change_at (suc i) f (b ∷ bs) = b ∷ change_at i f bs

-- What the methods of the `i`-th field do to the byte that has its bit.
abbrev pub mask : ℕ → ℕ
mask i = 2 ^ (i % 8)

abbrev pub bit : ℕ → ℕ → Bool
bit m b = not (bit_and b m == 0)

abbrev pub with_bit : ℕ → ℕ → ℕ
with_bit m b = bit_or b m

-- `*elem &= !mask`.
abbrev pub without_bit : ℕ → ℕ → ℕ
without_bit m b = bit_and b (255 - m)

unfoldable pub has : ℕ → List ℕ → Bool
has i bytes = bit (mask i) (byte_at (i / 8) bytes)

unfoldable pub set : ℕ → List ℕ → List ℕ
set i bytes = change_at (i / 8) (with_bit (mask i)) bytes

unfoldable pub clear : ℕ → List ℕ → List ℕ
clear i bytes = change_at (i / 8) (without_bit (mask i)) bytes

unfoldable pub init : ℕ → List ℕ → List ℕ
init i bytes = set i bytes
