-- ===== src/Unescape.antt =====
-- micropb-gen/src/utils.rs: the default value of a `bytes` field, which the descriptor gives as a
-- C-escaped text, and the last part of a path.
pub mod Round
pub mod Escaped
use micropb.Prelude.{
  ℕ, zero, suc, ◌+◌, ◌-◌, ◌*◌, ◌%◌, Bool, true, false, ◌&&◌, ◌||◌, Option, none, some,
}
use micropb.Prelude.{List, [], ◌∷◌, ◌++◌, length, if◌then◌else◌, ◌==◌, leb, ltb}
use micropb.Monad.{Result, ok, err, out_of_fuel}

-- The ends by `panic!`, and the one by an overflow, which a build with overflow checks has.
pub data Panic : Type 0 where
  ends_with_backslash incomplete_hex invalid_hex invalid_escape octal_overflow : Panic

abbrev pub backslash : ℕ
backslash = 0x5c

-- The letters that stand for one byte.
abbrev pub letter : ℕ → Option ℕ
letter c =
    if c == 0x61
    then some 0x07
    else if c == 0x62
    then some 0x08
    else if c == 0x66
    then some 0x0c
    else if c == 0x6e
    then some 0x0a
    else if c == 0x72
    then some 0x0d
    else if c == 0x74
    then some 0x09
    else if c == 0x76
    then some 0x0b
    else if c == 0x5c
    then some 0x5c
    else if c == 0x3f
    then some 0x3f
    else if c == 0x27
    then some 0x27
    else if c == 0x22
    then some 0x22
    else none

abbrev pub is_octal : ℕ → Bool
is_octal c = leb 0x30 c && leb c 0x37

-- What a round gives: the byte that it pushes and the text behind it.
abbrev pub Pushed : Type 0
Pushed = Result Panic (ℕ × List ℕ)

-- `octal * 8 + digit` on a `u8`.
abbrev pub octal_next : Bool → ℕ → ℕ → Result Panic ℕ
octal_next overflow_checks octal digit =
    if ltb (octal * 8 + digit) 256
    then ok (octal * 8 + digit)
    else if overflow_checks
    then err octal_overflow
    else ok ((octal * 8 + digit) % 256)

abbrev pub and_then : {A B : Type 0} → Result Panic A → (A → Result Panic B) → Result Panic B
and_then (ok x) f = f x
and_then (err e) f = err e
and_then out_of_fuel f = out_of_fuel

-- The loop `for _ in 0..3`.
unfoldable pub octal_loop : Bool → ℕ → ℕ → List ℕ → Pushed
octal_loop checks zero octal src = ok (octal, src)
octal_loop checks (suc rounds) octal [] = ok (octal, [])
octal_loop checks (suc rounds) octal (c ∷ src) =
    let more =
      and_then (octal_next checks octal (c - 0x30)) (λ o. octal_loop checks rounds o src) in
    if is_octal c then more else ok (octal, c ∷ src)

abbrev pub hex_digit : ℕ → Option ℕ
hex_digit c =
    if leb 0x30 c && leb c 0x39
    then some (c - 0x30)
    else if leb 0x61 c && leb c 0x66
    then some (c - 0x57)
    else if leb 0x41 c && leb c 0x46
    then some (c - 0x37)
    else none

abbrev pub two_digits : Option ℕ → Option ℕ → Option ℕ
two_digits (some x) (some y) = some (x * 16 + y)
two_digits (some x) none = none
two_digits none y = none

-- `u8::from_str_radix(.., 16)` on two characters, which takes a `+` for a sign. Two bytes that cut a
-- character in two are refused by the slice, also by a panic.
abbrev pub hex_byte : ℕ → ℕ → Option ℕ
hex_byte c d = if c == 0x2b then hex_digit d else two_digits (hex_digit c) (hex_digit d)

abbrev pub hex_value : Option ℕ → List ℕ → Pushed
hex_value none src = err invalid_hex
hex_value (some b) src = ok (b, src)

abbrev pub hex_escape : List ℕ → Pushed
hex_escape [] = err incomplete_hex
hex_escape (c ∷ []) = err incomplete_hex
hex_escape (c ∷ d ∷ src) = hex_value (hex_byte c d) src

abbrev pub other_escape : Bool → ℕ → List ℕ → Option ℕ → Pushed
other_escape checks c src (some b) = ok (b, src)
other_escape checks c src none =
    if is_octal c
    then octal_loop checks 3 0 (c ∷ src)
    else if (c == 0x78) || (c == 0x58)
    then hex_escape src
    else err invalid_escape

-- The `match` behind a backslash.
unfoldable pub escape : Bool → List ℕ → Pushed
escape checks [] = err ends_with_backslash
escape checks (c ∷ src) = other_escape checks c src (letter c)

-- The loop `while p < len`, on what is left of the text. Each round takes a byte or more, so as many
-- rounds as the text has bytes are enough.
unfoldable pub unescape_loop : Bool → ℕ → List ℕ → Result Panic (List ℕ)
unescape_loop checks fuel [] = ok []
unescape_loop checks zero (c ∷ src) = out_of_fuel
unescape_loop checks (suc fuel) (c ∷ src) =
    let pushed = if c == backslash then escape checks src else ok (c, src) in
    and_then pushed λ (b, rest). and_then (unescape_loop checks fuel rest) λ dst. ok (b ∷ dst)

unfoldable pub unescape_c_escape_string : Bool → List ℕ → Result Panic (List ℕ)
unescape_c_escape_string checks s = unescape_loop checks (length s) s

-- `path.rsplit_once('.')`: the text behind the last dot, if there is one.
unfoldable pub behind_dot : List ℕ → Option (List ℕ)
behind_dot [] = none
behind_dot (c ∷ path) = elim (behind_dot path) [
  | some suffix ↦ some suffix
  | none ↦ if c == 0x2e then some path else none
]

unfoldable pub path_suffix : List ℕ → List ℕ
path_suffix path = elim (behind_dot path) [ some suffix ↦ suffix | none ↦ path ]
