-- ===== src/Unescape/Round.antt =====
-- Every text of bytes is unescaped to bytes or refused.
use micropb.Prelude.{ℕ, zero, suc, ◌+◌, ◌-◌, ◌*◌, ◌%◌, ◌<◌, ◌≤◌, arith, Bool, true, false}
use micropb.Prelude.{
  List, [], ◌∷◌, length, All, if◌then◌else◌, ◌==◌, ltb, ltb→lt, Bool-cases, inl, inr,
}
use micropb.Prelude.{Option, none, some, ◌||◌}
use micropb.Monad.{Result, ok, err, out_of_fuel}
use micropb.Unescape.{Panic, Pushed, letter, is_octal, octal_next, and_then, octal_loop, hex_digit}
use micropb.Unescape.{two_digits, hex_byte, hex_value, hex_escape, other_escape, escape}
use micropb.Unescape.{unescape_loop, unescape_c_escape_string, backslash}

abbrev pub IsByte : ℕ → Type 0
IsByte b = b < 256

-- A round pushes a byte, and leaves a text of bytes that is no longer than `n`.
abbrev Leaves : ℕ → Pushed → Type 0
Leaves n (ok pushed) = IsByte pushed.0 × All IsByte pushed.1 × (length pushed.1 ≤ n)
Leaves n (err e) = Unit {0}
Leaves n out_of_fuel = ⊥

abbrev IsDigit : Option ℕ → Type 0
IsDigit none = Unit {0}
IsDigit (some x) = x < 16

abbrev IsByteOption : Option ℕ → Type 0
IsByteOption none = Unit {0}
IsByteOption (some x) = x < 256

letter-IsByte : (c : ℕ) → IsByteOption (letter c)
letter-IsByte c = ground arith

hex_digit-IsDigit : (c : ℕ) → IsDigit (hex_digit c)
hex_digit-IsDigit c = ground arith

two_digits-IsByte : (x y : Option ℕ) → IsDigit x → IsDigit y → IsByteOption (two_digits x y)
two_digits-IsByte none none h k = tt
two_digits-IsByte none (some y) h k = tt
two_digits-IsByte (some x) none h k = tt
two_digits-IsByte (some x) (some y) h k = omega arith

one_digit-IsByte : (x : Option ℕ) → IsDigit x → IsByteOption x
one_digit-IsByte none h = tt
one_digit-IsByte (some x) h = omega arith

hex_byte-IsByte : (c d : ℕ) → IsByteOption (hex_byte c d)
hex_byte-IsByte c d = elim (Bool-cases (c == 0x2b)) [
  | inl sign ↦ rw sign (one_digit-IsByte (hex_digit d) (hex_digit-IsDigit d))
  | inr digit ↦
      rw digit
        (two_digits-IsByte (hex_digit c) (hex_digit d) (hex_digit-IsDigit c) (hex_digit-IsDigit d))
]

longer : (m n : ℕ) → m ≤ n → (p : Pushed) → Leaves m p → Leaves n p
longer m n h (ok pushed) l = (l.0, l.1, omega (arith, l.2))
longer m n h (err e) l = tt
longer m n h out_of_fuel l = l

hex_value-Leaves :
    (b : Option ℕ) (src : List ℕ)
    → IsByteOption b
    → All IsByte src
    → Leaves (length src) (hex_value b src)
hex_value-Leaves none src h k = tt
hex_value-Leaves (some b) src h k = (h, k, omega arith)

hex_escape-Leaves : (src : List ℕ) → All IsByte src → Leaves (length src) (hex_escape src)
hex_escape-Leaves [] h = tt
hex_escape-Leaves (c ∷ []) h = tt
hex_escape-Leaves (c ∷ d ∷ src) h =
    longer (length src) (length (c ∷ d ∷ src)) (omega arith) (hex_value (hex_byte c d) src)
      (hex_value-Leaves (hex_byte c d) src (hex_byte-IsByte c d) h.1.1)

abbrev IsByteResult : Result Panic ℕ → Type 0
IsByteResult (ok x) = x < 256
IsByteResult (err e) = Unit {0}
IsByteResult out_of_fuel = ⊥

octal_next-IsByte : (checks : Bool) (octal digit : ℕ) → IsByteResult (octal_next checks octal digit)
octal_next-IsByte true octal digit = elim (Bool-cases (ltb (octal * 8 + digit) 256)) [
  | inl small ↦ rw small (ltb→lt _ _ small)
  | inr large ↦ rw large tt
]
octal_next-IsByte false octal digit = elim (Bool-cases (ltb (octal * 8 + digit) 256)) [
  | inl small ↦ rw small (ltb→lt _ _ small)
  | inr large ↦ let low : (octal * 8 + digit) % 256 < 256 = omega arith in rw large low
]

and_then-Leaves :
    (n : ℕ) (r : Result Panic ℕ) (f : ℕ → Pushed)
    → IsByteResult r
    → ((x : ℕ) → x < 256 → Leaves n (f x))
    → Leaves n (and_then r f)
and_then-Leaves n (ok x) f h k = k x h
and_then-Leaves n (err e) f h k = tt
and_then-Leaves n out_of_fuel f h k = absurd h

octal_loop-Leaves :
    (checks : Bool) (rounds octal : ℕ) (src : List ℕ)
    → octal < 256
    → All IsByte src
    → Leaves (length src) (octal_loop checks rounds octal src)
unfolding octal_loop
octal_loop-Leaves checks zero octal src h k = (h, k, omega arith)
octal_loop-Leaves checks (suc rounds) octal [] h k = (h, tt, omega arith)
octal_loop-Leaves checks (suc rounds) octal (c ∷ src) h k = elim (Bool-cases (is_octal c)) [
  | inl digit ↦ rw digit (
      and_then-Leaves (length (c ∷ src)) (octal_next checks octal (c - 0x30)) _
        (octal_next-IsByte checks octal (c - 0x30))
        (λ x low.
          longer (length src) (length (c ∷ src)) (omega arith) (octal_loop checks rounds x src)
            (octal_loop-Leaves checks rounds x src low k.1)))
  | inr other ↦ rw other (h, k, omega arith)
]

other_escape-Leaves :
    (checks : Bool) (c : ℕ) (src : List ℕ) (b : Option ℕ)
    → IsByteOption b
    → IsByte c
    → All IsByte src
    → Leaves (suc (length src)) (other_escape checks c src b)
other_escape-Leaves checks c src (some b) l h k = (l, k, omega arith)
other_escape-Leaves checks c src none l h k = elim (Bool-cases (is_octal c)) [
  | inl digit ↦ rw digit (octal_loop-Leaves checks 3 0 (c ∷ src) (omega arith) (h, k))
  | inr other ↦ rw other (elim (Bool-cases ((c == 0x78) || (c == 0x58))) [
    | inl hex ↦ rw hex (
        longer (length src) (suc (length src)) (omega arith) (hex_escape src)
          (hex_escape-Leaves src k))
    | inr no_escape ↦ rw no_escape tt
  ])
]

escape-Leaves :
    (checks : Bool) (src : List ℕ) → All IsByte src → Leaves (length src) (escape checks src)
unfolding escape
escape-Leaves checks [] h = tt
escape-Leaves checks (c ∷ src) h =
    other_escape-Leaves checks c src (letter c) (letter-IsByte c) h.0 h.1

pushed-Leaves :
    (checks : Bool) (c : ℕ) (src : List ℕ)
    → IsByte c
    → All IsByte src
    → Leaves (length src) (if c == backslash then escape checks src else ok (c, src))
pushed-Leaves checks c src h k = elim (Bool-cases (c == backslash)) [
  | inl escaped ↦ rw escaped (escape-Leaves checks src k)
  | inr plain ↦ rw plain (h, k, omega arith)
]

-- The whole text: bytes, no more than the text has, or a panic.
abbrev pub Ends : ℕ → Result Panic (List ℕ) → Type 0
Ends n (ok dst) = All IsByte dst × (length dst ≤ n)
Ends n (err e) = Unit {0}
Ends n out_of_fuel = ⊥

more-Ends :
    (n b : ℕ) (r : Result Panic (List ℕ))
    → IsByte b
    → Ends n r
    → Ends (suc n) (and_then r (λ dst. ok (b ∷ dst)))
more-Ends n b (ok dst) h e = ((h, e.0), omega (arith, e.1))
more-Ends n b (err x) h e = tt
more-Ends n b out_of_fuel h e = e

round-Ends :
    (n : ℕ) (p : Pushed) (f : List ℕ → Result Panic (List ℕ))
    → Leaves n p
    → ((rest : List ℕ) → All IsByte rest → length rest ≤ n → Ends n (f rest))
    → Ends (suc n) (and_then p λ (b, rest). and_then (f rest) λ dst. ok (b ∷ dst))
round-Ends n (ok pushed) f l k = more-Ends n pushed.0 (f pushed.1) l.0 (k pushed.1 l.1 l.2)
round-Ends n (err e) f l k = tt
round-Ends n out_of_fuel f l k = absurd l

loop-Ends :
    (checks : Bool) (fuel n : ℕ) (s : List ℕ)
    → n ≤ fuel
    → length s ≤ n
    → All IsByte s
    → Ends n (unescape_loop checks fuel s)
unfolding unescape_loop
loop-Ends checks fuel n [] h m k = (tt, omega arith)
loop-Ends checks zero n (c ∷ src) h m k = absurd (omega arith)
loop-Ends checks (suc fuel) zero (c ∷ src) h m k = absurd (omega arith)
loop-Ends checks (suc fuel) (suc n) (c ∷ src) h m k =
    round-Ends n (if c == backslash then escape checks src else ok (c, src))
      (unescape_loop checks fuel)
      (longer (length src) n (omega arith)
        (if c == backslash then escape checks src else ok (c, src))
        (pushed-Leaves checks c src k.0 k.1))
      (λ rest bytes short. loop-Ends checks fuel n rest (omega arith) short bytes)

-- `unescape_c_escape_string` of any text of bytes ends, with bytes that are no more than the text
-- has or with a panic.
pub unescape-Ends :
    (checks : Bool) (s : List ℕ)
    → All IsByte s
    → Ends (length s) (unescape_c_escape_string checks s)
unfolding unescape_c_escape_string
unescape-Ends checks s h = loop-Ends checks (length s) (length s) s (omega arith) (omega arith) h
