-- ===== src/Decode/Groups.antt =====
-- Facts about one group of a varint, as both loops of the decoder read it.
use native.Mathlib.Nat.{div-add-mod}
use native.Mathlib.Numerals.{towards_suc}
use micropb.Prelude.{ℕ, ◌+◌, ◌*◌, ◌/◌, ◌%◌, ◌^◌, ◌<◌, ◌≡◌, ap, ◌∙◌}
use micropb.Prelude.{arith, List, ◌∷◌, bit_and, ◌==◌}
use micropb.Prelude.{true, false}
use micropb.Prelude.Bits.{low_seven, top_bit}
use micropb.Monad.{M, ◌>>=◌}
use micropb.Reader.Source.{Source, source_reader}
use micropb.Decode.{PbDecoder, DecodeError, get_byte}
use micropb.Decode.Expect.{Decodes, get_byte-Decodes, >>=-Decodes}

pub shift_seven : (s : ℕ) → 2 ^ (s + 7) ≡ 128 * 2 ^ s
shift_seven s = simp towards_suc (omega arith)

-- The lowest group and the rest, both shifted.
pub lowest_group : (v s : ℕ) → v * 2 ^ s ≡ v % 128 * 2 ^ s + v / 128 * 2 ^ (s + 7)
lowest_group v s = omega (
  arith,
  ap (λ (t : ℕ). t * 2 ^ s) (div-add-mod v 128),
  ap (λ (t : ℕ). v / 128 * t) (shift_seven s),
)

pub next_below : (acc g s : ℕ) → acc < 2 ^ s → g < 128 → acc + g * 2 ^ s < 2 ^ (s + 7)
next_below acc g s below small = grind (arith, shift_seven s)

pub last_test : (b : ℕ) → b < 128 → (bit_and b 0x80 == 0) ≡ true
last_test b h = ground (arith, top_bit b)

pub more_test : (g : ℕ) → g < 128 → (bit_and (g + 128) 0x80 == 0) ≡ false
more_test g h = ground (arith, top_bit (g + 128))

pub low_of_last : (b : ℕ) → b < 128 → bit_and b 0x7f ≡ b
low_of_last b h = low_seven b (omega arith) ∙ omega arith

pub low_of_more : (g : ℕ) → g < 128 → bit_and (g + 128) 0x7f ≡ g
low_of_more g h = low_seven (g + 128) (omega arith) ∙ omega arith

module _ {E : Type 0} where
  -- A byte is read and the loop ends, or goes on, by its top bit.
  pub get_more :
      {A : Type 0} (b : ℕ) (bs : List ℕ) (f : ℕ → M (PbDecoder (Source E)) (DecodeError E) A)
      (x : A)
      → Decodes (f b) bs x
      → Decodes (get_byte source_reader >>= f) (b ∷ bs) x
  get_more b bs f x h = >>=-Decodes f (get_byte-Decodes b) h
