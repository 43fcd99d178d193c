-- ===== src/Examples/Escapes.antt =====
-- Default values of `bytes` fields in their C-escaped form, on the texts of the generator's own tests,
-- and the theorems on them at concrete inputs.
use mathlib.Core.List.{flat_map}
use micropb.Prelude.{ℕ, ◌<◌, ◌≡◌, refl, arith, true, false, List, [], ◌∷◌, length, All}
use micropb.Monad.{ok, err}
use micropb.Unescape.{octal_overflow, incomplete_hex, unescape_c_escape_string, path_suffix}
use micropb.Unescape.{unescape_loop, escape, octal_loop, behind_dot}
use micropb.Unescape.Escaped.{c_escape, unescape-c_escape}
use micropb.Unescape.Round.{Ends, unescape-Ends}

-- `\012\156`
abbrev octal_text : List ℕ
octal_text = 0x5c ∷ 0x30 ∷ 0x31 ∷ 0x32 ∷ 0x5c ∷ 0x31 ∷ 0x35 ∷ 0x36 ∷ []

octal_text_value : unescape_c_escape_string true octal_text ≡ ok (0x0a ∷ 0x6e ∷ [])
unfolding unescape_c_escape_string unescape_loop escape octal_loop
octal_text_value = refl

-- `\x01\x02`
hex_text_value :
    unescape_c_escape_string true (0x5c ∷ 0x78 ∷ 0x30 ∷ 0x31 ∷ 0x5c ∷ 0x78 ∷ 0x30 ∷ 0x32 ∷ [])
    ≡ ok (1 ∷ 2 ∷ [])
unfolding unescape_c_escape_string unescape_loop escape octal_loop
hex_text_value = refl

-- `\x1`
hex_text_refused : unescape_c_escape_string true (0x5c ∷ 0x78 ∷ 0x31 ∷ []) ≡ err incomplete_hex
unfolding unescape_c_escape_string unescape_loop escape
hex_text_refused = refl

-- `\777` overflows a byte.
large_octal : unescape_c_escape_string true (0x5c ∷ 0x37 ∷ 0x37 ∷ 0x37 ∷ []) ≡ err octal_overflow
unfolding unescape_c_escape_string unescape_loop escape octal_loop
large_octal = refl

large_octal_wraps : unescape_c_escape_string false (0x5c ∷ 0x37 ∷ 0x37 ∷ 0x37 ∷ []) ≡ ok (0xff ∷ [])
unfolding unescape_c_escape_string unescape_loop escape octal_loop
large_octal_wraps = refl

-- `test` and `a.b.c`
suffix_alone : path_suffix (0x74 ∷ 0x65 ∷ 0x73 ∷ 0x74 ∷ []) ≡ 0x74 ∷ 0x65 ∷ 0x73 ∷ 0x74 ∷ []
unfolding path_suffix behind_dot
suffix_alone = refl

suffix_of_path : path_suffix (0x61 ∷ 0x2e ∷ 0x62 ∷ 0x2e ∷ 0x63 ∷ []) ≡ 0x63 ∷ []
unfolding path_suffix behind_dot
suffix_of_path = refl

abbrev some_bytes : List ℕ
some_bytes = 0x0a ∷ 0xfe ∷ 0x41 ∷ []

unescape-c_escape_example :
    unescape_c_escape_string true (flat_map c_escape some_bytes) ≡ ok some_bytes
unescape-c_escape_example =
    unescape-c_escape true some_bytes (omega arith, (omega arith, (omega arith, tt)))

octal_text-bytes : All (λ b. b < 256) octal_text
octal_text-bytes = (
  omega arith,
  (
    omega arith,
    (omega arith, (omega arith, (omega arith, (omega arith, (omega arith, (omega arith, tt)))))),
  ),
)

unescape-Ends_example : Ends (length octal_text) (unescape_c_escape_string true octal_text)
unescape-Ends_example = unescape-Ends true octal_text octal_text-bytes
