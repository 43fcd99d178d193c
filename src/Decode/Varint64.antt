-- ===== src/Decode/Varint64.antt =====
-- `decode_varint64` reads back every 64-bit number.

use micropb.Prelude.{ℕ, zero, suc, ◌+◌, ◌*◌, ◌/◌, ◌%◌, ◌^◌, ◌<◌, ◌≡◌, ap, ◌∙◌}
use micropb.Prelude.{arith, List, [], ◌∷◌, bit_and, bit_or, ltb}
use micropb.Prelude.{Bool-cases, inl, inr, ltb→lt}
use micropb.Prelude.Bits.{bit_or_above, low_seven_wider}
use micropb.Reader.Source.{source_reader}
use micropb.Encode.Bytes.{groups, varint_bytes}
use micropb.Decode.{varint64_loop}
use micropb.Decode.{decode_varint64}
use micropb.Decode.Expect.{Decodes, pure-Decodes}
use micropb.Decode.Groups.{lowest_group, next_below, last_test, more_test, low_of_last, low_of_more}
use micropb.Decode.Groups.{get_more}

module _ {E : Type 0} where
  varint64_last :
      (rounds acc bitpos v : ℕ)
      → v < 128
      → acc < 2 ^ bitpos
      → acc + v * 2 ^ bitpos < 2 ^ 64
      → Decodes {E = E}
          (varint64_loop source_reader (suc rounds) acc bitpos)
          (v ∷ [])
          (acc + v * 2 ^ bitpos)
  unfolding varint64_loop
  varint64_last rounds acc bitpos v small below fits =
      let value : bit_or acc (v * 2 ^ bitpos % 2 ^ 64) ≡ acc + v * 2 ^ bitpos =
        ap (bit_or acc) (omega arith) ∙ bit_or_above bitpos acc v below in
      get_more v [] _ _ (rw (last_test v small, low_of_last v small, value) (pure-Decodes _))

  varint64_more :
      (rounds acc bitpos g : ℕ) (bs : List ℕ) (x : ℕ)
      → g < 128
      → acc < 2 ^ bitpos
      → acc + g * 2 ^ bitpos < 2 ^ 64
      → Decodes {E = E}
          (varint64_loop source_reader rounds (acc + g * 2 ^ bitpos) (bitpos + 7))
          bs
          x
      → Decodes {E = E} (varint64_loop source_reader (suc rounds) acc bitpos) ((g + 128) ∷ bs) x
  unfolding varint64_loop
  varint64_more rounds acc bitpos g bs x small below fits h =
      let value : bit_or acc (g * 2 ^ bitpos % 2 ^ 64) ≡ acc + g * 2 ^ bitpos =
        ap (bit_or acc) (omega arith) ∙ bit_or_above bitpos acc g below in
      get_more (g + 128) bs _ x (rw (more_test g small, low_of_more g small, value) h)

  varint64-groups :
      (k rounds acc bitpos v : ℕ)
      → k < rounds
      → v < 128 ^ suc k
      → acc < 2 ^ bitpos
      → acc + v * 2 ^ bitpos < 2 ^ 64
      → Decodes {E = E}
          (varint64_loop source_reader rounds acc bitpos)
          (groups k v)
          (acc + v * 2 ^ bitpos)
  unfolding groups
  varint64-groups k zero acc bitpos v le h below fits = absurd (omega arith)
  varint64-groups zero (suc rounds) acc bitpos v le h below fits =
      varint64_last rounds acc bitpos v (omega arith) below fits
  varint64-groups (suc k) (suc rounds) acc bitpos v le h below fits =
      elim (Bool-cases (ltb v 128)) [
        | inl small ↦ rw small (varint64_last rounds acc bitpos v (ltb→lt v 128 small) below fits)
        | inr large ↦
            let split = lowest_group v bitpos in
            let wider : acc + v % 128 * 2 ^ bitpos < 2 ^ (bitpos + 7) =
              next_below acc (v % 128) bitpos below (omega arith) in
            let value : acc + v % 128 * 2 ^ bitpos + v / 128 * 2 ^ (bitpos + 7)
                ≡ acc + v * 2 ^ bitpos =
              omega arith in
            rw large (
              varint64_more rounds acc bitpos (v % 128) _ _ (omega arith) below (omega arith) (
                rw (← value) (
                  varint64-groups k rounds (acc + v % 128 * 2 ^ bitpos) (bitpos + 7) (v / 128)
                    (omega arith) (omega arith) wider (omega arith))))
      ]

  -- The varint of a 64-bit number reads as that number.
  pub decode_varint64-Decodes :
      (v : ℕ) → v < 2 ^ 64 → Decodes {E = E} (decode_varint64 source_reader) (varint_bytes v) v
  unfolding decode_varint64 varint_bytes groups
  decode_varint64-Decodes v h = elim (Bool-cases (ltb v 128)) [
    | inl small ↦
        rw small (get_more v [] _ v (rw (last_test v (ltb→lt v 128 small)) (pure-Decodes v)))
    | inr large ↦
        let low : bit_and (v % 128 + 128) 0xffff_ffff_ffff_ff7f ≡ v % 128 =
          low_seven_wider (v % 128 + 128) (omega arith) ∙ omega arith in
        let value : v % 128 + v / 128 * 2 ^ 7 ≡ v = omega arith in
        rw large (
          get_more (v % 128 + 128) _ _ v (
            rw (more_test (v % 128) (omega arith), low)
              (rw value at (
                varint64-groups 8 9 (v % 128) 7 (v / 128) (omega arith) (omega arith) (omega arith)
                  (omega arith)))))
  ]
