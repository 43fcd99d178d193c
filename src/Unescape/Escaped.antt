-- ===== src/Unescape/Escaped.antt =====
-- What the C escape of bytes is unescaped to.
use mathlib.Core.List.{flat_map}
use micropb.Prelude.{
  ℕ, zero, suc, ◌+◌, ◌-◌, ◌*◌, ◌/◌, ◌%◌, ◌<◌, ◌≤◌, ◌≡◌, refl, ap, arith, Bool, true, false,
}
use micropb.Prelude.{
  List, [], ◌∷◌, ◌++◌, length, length-append, All, if◌then◌else◌, ◌==◌, leb, ltb, ◌||◌,
}
use micropb.Prelude.{none, some, lt→ltb, ==→eq, ◌∙◌}
use micropb.Monad.{ok}
use micropb.Unescape.{letter, is_octal, and_then, octal_loop, escape}
use micropb.Unescape.{unescape_loop, unescape_c_escape_string, backslash}

-- The escape that the compiler of the schemas writes: letters for the common ones, three octal
-- digits for the other bytes that are not printable ASCII.
abbrev octal_digits : ℕ → List ℕ
octal_digits b = backslash ∷ (0x30 + b / 64) ∷ (0x30 + b / 8 % 8) ∷ (0x30 + b % 8) ∷ []

abbrev pub c_escape : ℕ → List ℕ
c_escape b =
    if b == 0x0a
    then backslash ∷ 0x6e ∷ []
    else if b == 0x0d
    then backslash ∷ 0x72 ∷ []
    else if b == 0x09
    then backslash ∷ 0x74 ∷ []
    else if b == 0x22
    then backslash ∷ 0x22 ∷ []
    else if b == 0x27
    then backslash ∷ 0x27 ∷ []
    else if b == 0x5c
    then backslash ∷ 0x5c ∷ []
    else if ltb b 0x20 || leb 0x7f b
    then octal_digits b
    else b ∷ []

-- A text that one round of the loop takes for the byte `b`.
record Takes (checks : Bool) (text : List ℕ) (b : ℕ) : Type 0 where
  some_text : 0 < length text
  round :
      (fuel : ℕ) (rest : List ℕ)
      → unescape_loop checks (suc fuel) (text ++ rest)
        ≡ and_then (unescape_loop checks fuel rest) (λ dst. ok (b ∷ dst))

plain-Takes : (checks : Bool) (b : ℕ) → (b == backslash) ≡ false → Takes checks (b ∷ []) b
unfolding unescape_loop
plain-Takes checks b e = record { some_text = omega arith; round = λ fuel rest. rw e refl }

letter-Takes : (checks : Bool) (c b : ℕ) → letter c ≡ some b → Takes checks (backslash ∷ c ∷ []) b
unfolding unescape_loop escape
letter-Takes checks c b e = record { some_text = omega arith; round = λ fuel rest. rw e refl }

octal_step :
    (checks : Bool) (rounds octal digit : ℕ) (src : List ℕ)
    → digit < 8
    → octal * 8 + digit < 256
    → octal_loop checks (suc rounds) octal ((0x30 + digit) ∷ src)
      ≡ octal_loop checks rounds (octal * 8 + digit) src
unfolding octal_loop
octal_step checks rounds octal digit src h k =
    let is_digit : is_octal (0x30 + digit) ≡ true = ground arith in
    let value : 0x30 + digit - 0x30 ≡ digit = omega arith in
    let small : ltb (octal * 8 + digit) 256 ≡ true = lt→ltb _ _ k in
    rw is_digit (rw value (rw small refl))

no_letter : (d : ℕ) → d < 8 → letter (0x30 + d) ≡ none
no_letter d h = ground arith

octal_done :
    (checks : Bool) (octal : ℕ) (src : List ℕ) → octal_loop checks 0 octal src ≡ ok (octal, src)
unfolding octal_loop
octal_done checks octal src = refl

octal_digits-value :
    (checks : Bool) (b : ℕ) (rest : List ℕ)
    → b < 256
    → octal_loop checks 3 0 ((0x30 + b / 64) ∷ (0x30 + b / 8 % 8) ∷ (0x30 + b % 8) ∷ rest)
      ≡ ok (b, rest)
octal_digits-value checks b rest h =
    let high : 0 * 8 + b / 64 ≡ b / 64 = omega arith in
    let whole : b / 64 * 8 + b / 8 % 8 ≡ b / 8 = omega arith in
    let all : b / 8 * 8 + b % 8 ≡ b = omega arith in
    octal_step checks 2 0 (b / 64) ((0x30 + b / 8 % 8) ∷ (0x30 + b % 8) ∷ rest) (omega arith)
      (omega arith)
    ∙ rw high (
        octal_step checks 1 (b / 64) (b / 8 % 8) ((0x30 + b % 8) ∷ rest) (omega arith) (omega arith)
        ∙ rw whole (
            octal_step checks 0 (b / 8) (b % 8) rest (omega arith) (omega arith)
            ∙ rw all (octal_done checks b rest)))

octal-Takes : (checks : Bool) (b : ℕ) → b < 256 → Takes checks (octal_digits b) b
unfolding unescape_loop escape
octal-Takes checks b h = record {
  some_text = omega arith;
  round = λ fuel rest.
      let digit : is_octal (0x30 + b / 64) ≡ true = ground arith in
      rw (no_letter (b / 64) (omega arith))
        (rw digit (rw (octal_digits-value checks b rest h) refl));
}

by_test :
    (checks test : Bool) (x y : List ℕ) (b : ℕ)
    → (test ≡ true → Takes checks x b)
    → (test ≡ false → Takes checks y b)
    → Takes checks (if test then x else y) b
by_test checks true x y b h k = h refl
by_test checks false x y b h k = k refl

c_escape-Takes : (checks : Bool) (b : ℕ) → b < 256 → Takes checks (c_escape b) b
c_escape-Takes checks b h =
    by_test checks (b == 0x0a) _ _ b
      (λ e. letter-Takes checks 0x6e b (ap some (omega (arith, ==→eq b 0x0a e))))
      λ n1.
        by_test checks (b == 0x0d) _ _ b
          (λ e. letter-Takes checks 0x72 b (ap some (omega (arith, ==→eq b 0x0d e))))
          λ n2.
            by_test checks (b == 0x09) _ _ b
              (λ e. letter-Takes checks 0x74 b (ap some (omega (arith, ==→eq b 0x09 e))))
              λ n3.
                by_test checks (b == 0x22) _ _ b
                  (λ e. letter-Takes checks 0x22 b (ap some (omega (arith, ==→eq b 0x22 e))))
                  λ n4.
                    by_test checks (b == 0x27) _ _ b
                      (λ e. letter-Takes checks 0x27 b (ap some (omega (arith, ==→eq b 0x27 e))))
                      λ n5.
                        by_test checks (b == 0x5c) _ _ b
                          (λ e.
                            letter-Takes checks 0x5c b (ap some (omega (arith, ==→eq b 0x5c e))))
                          λ n6.
                            by_test checks (ltb b 0x20 || leb 0x7f b) _ _ b
                              (λ e. octal-Takes checks b h) λ n7. plain-Takes checks b n6

escaped_loop :
    (checks : Bool) (fuel : ℕ) (bytes : List ℕ)
    → All (λ b. b < 256) bytes
    → length (flat_map c_escape bytes) ≤ fuel
    → unescape_loop checks fuel (flat_map c_escape bytes) ≡ ok bytes
unfolding flat_map
escaped_loop checks fuel [] h k = unfold unescape_loop in refl
escaped_loop checks zero (b ∷ bytes) h k =
    let one = c_escape-Takes checks b h.0 in
    absurd (omega (arith, k, one.some_text, length-append (c_escape b) (flat_map c_escape bytes)))
escaped_loop checks (suc fuel) (b ∷ bytes) h k =
    let one = c_escape-Takes checks b h.0 in
    one.round fuel (flat_map c_escape bytes)
    ∙ rw
        (escaped_loop checks fuel bytes h.1
          (omega (arith, k, one.some_text, length-append (c_escape b) (flat_map c_escape bytes))))
        refl

-- `unescape_c_escape_string` of the escaped form of any bytes, a letter for the common ones and
-- three octal digits for the others that are not printable, is these bytes, in builds with overflow
-- checks and without.
pub unescape-c_escape :
    (checks : Bool) (bytes : List ℕ)
    → All (λ b. b < 256) bytes
    → unescape_c_escape_string checks (flat_map c_escape bytes) ≡ ok bytes
unfolding unescape_c_escape_string
unescape-c_escape checks bytes h =
    escaped_loop checks (length (flat_map c_escape bytes)) bytes h (omega arith)
