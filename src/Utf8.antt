-- ===== src/Utf8.antt =====
-- `core::str::from_utf8`, which micropb/src/decode.rs calls: whether bytes are well-formed UTF-8, by
-- the table of the Unicode standard.
use micropb.Prelude.{ℕ, zero, suc, Bool, true, false, ◌&&◌, List, [], ◌∷◌, if◌then◌else◌, leb, ◌==◌}

abbrev within : ℕ → ℕ → ℕ → Bool
within lo hi b = leb lo b && leb b hi

-- What a first byte asks for: how many bytes follow and the bounds of the next one. A byte that
-- starts no character gives bounds that no byte keeps.
abbrev lead : ℕ → ℕ × ℕ × ℕ
lead b =
    if leb b 0x7f
    then (0, 0, 0)
    else if within 0xc2 0xdf b
    then (1, 0x80, 0xbf)
    else if b == 0xe0
    then (2, 0xa0, 0xbf)
    else if b == 0xed
    then (2, 0x80, 0x9f)
    else if within 0xe1 0xef b
    then (2, 0x80, 0xbf)
    else if b == 0xf0
    then (3, 0x90, 0xbf)
    else if within 0xf1 0xf3 b
    then (3, 0x80, 0xbf)
    else if b == 0xf4
    then (3, 0x80, 0x8f)
    else (1, 1, 0)

-- Reads on inside a character that `due` more bytes belong to.
abbrev utf8_tail : ℕ → ℕ → ℕ → List ℕ → Bool
utf8_tail zero lo hi [] = true
utf8_tail zero lo hi (b ∷ bs) = utf8_tail (lead b).0 (lead b).1 (lead b).2 bs
utf8_tail (suc due) lo hi [] = false
utf8_tail (suc due) lo hi (b ∷ bs) = within lo hi b && utf8_tail due 0x80 0xbf bs

unfoldable pub is_utf8 : List ℕ → Bool
is_utf8 bytes = utf8_tail 0 0 0 bytes
