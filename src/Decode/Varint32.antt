-- ===== src/Decode/Varint32.antt =====
-- `decode_varint32` reads the low 32 bits of every 64-bit number.

use micropb.Prelude.{ℕ, zero, suc, ◌+◌, ◌*◌, ◌/◌, ◌%◌, ◌^◌, ◌≤◌, ◌<◌, ◌≡◌, ap, ◌∙◌}
use micropb.Prelude.{arith, List, [], ◌∷◌, bit_and, bit_or, ltb, if◌then◌else◌}
use micropb.Prelude.{true, Bool-cases, inl, inr, ltb→lt, le→ltb_false, lt→ltb}
use micropb.Prelude.Bits.{bit_or_above, low_seven_wide}
use micropb.Reader.Source.{source_reader}
use micropb.Encode.Bytes.{groups, varint_bytes}
use micropb.Decode.{varint32_loop, decode_varint32}
use micropb.Decode.Expect.{Decodes, pure-Decodes}
use micropb.Decode.Groups.{lowest_group, next_below, last_test, more_test, low_of_last, low_of_more}
use micropb.Decode.Groups.{get_more}

-- `varint |= (u as u32) << bitpos` within the first four bytes and at the fifth.
or_early :
    (acc u bitpos : ℕ)
    → u < 128
    → acc < 2 ^ bitpos
    → 2 ^ (bitpos + 7) ≤ 2 ^ 28
    → bit_or acc (u * 2 ^ bitpos % 2 ^ 32) ≡ acc + u * 2 ^ bitpos
or_early acc u bitpos small below fits =
    ap (bit_or acc) (omega (arith, next_below acc u bitpos below small))
    ∙ bit_or_above bitpos acc u below

or_fifth :
    (acc u : ℕ) → acc < 2 ^ 28 → bit_or acc (u * 2 ^ 28 % 2 ^ 32) ≡ (acc + u * 2 ^ 28) % 2 ^ 32
or_fifth acc u below =
    let cut : u * 2 ^ 28 % 2 ^ 32 ≡ u % 16 * 2 ^ 28 = omega arith in
    ap (bit_or acc) cut ∙ bit_or_above 28 acc (u % 16) below ∙ omega arith

abbrev taken : ℕ → ℕ → ℕ → ℕ → ℕ
taken i acc bitpos u = if ltb i 5 then bit_or acc (u * 2 ^ bitpos % 2 ^ 32) else acc

-- The loop at byte `i` reads any groups, and keeps the low 32 bits.
abbrev ReadsLow : Type 0 → ℕ → ℕ → Type 0
ReadsLow E i bitpos =
    (k rounds acc v : ℕ)
    → k < rounds
    → v < 128 ^ suc k
    → acc < 2 ^ bitpos
    → Decodes {E = E} (varint32_loop source_reader rounds i acc bitpos) (groups k v)
        ((acc + v * 2 ^ bitpos) % 2 ^ 32)

module _ {E : Type 0} where
  varint32_last :
      (rounds i acc bitpos v : ℕ)
      → v < 128
      → Decodes {E = E}
          (varint32_loop source_reader (suc rounds) i acc bitpos)
          (v ∷ [])
          (taken i acc bitpos v)
  unfolding varint32_loop
  varint32_last rounds i acc bitpos v small =
      get_more v [] _ (taken i acc bitpos v)
        (rw (last_test v small, low_of_last v small) (pure-Decodes _))

  varint32_more :
      (rounds i acc bitpos g : ℕ) (bs : List ℕ) (x : ℕ)
      → g < 128
      → Decodes {E = E}
          (varint32_loop source_reader rounds
            (i + 1)
            (taken i acc bitpos g)
            (if ltb i 5 then bitpos + 7 else bitpos))
          bs
          x
      → Decodes {E = E} (varint32_loop source_reader (suc rounds) i acc bitpos) ((g + 128) ∷ bs) x
  unfolding varint32_loop
  varint32_more rounds i acc bitpos g bs x small h =
      get_more (g + 128) bs _ x (rw (more_test g small, low_of_more g small) h)

  late :
      (k rounds i acc bitpos v : ℕ)
      → 5 ≤ i
      → k < rounds
      → v < 128 ^ suc k
      → Decodes {E = E} (varint32_loop source_reader rounds i acc bitpos) (groups k v) acc
  unfolding groups
  late k zero i acc bitpos v past le h = absurd (omega arith)
  late zero (suc rounds) i acc bitpos v past le h =
      rw (le→ltb_false i 5 past) at (varint32_last rounds i acc bitpos v (omega arith))
  late (suc k) (suc rounds) i acc bitpos v past le h = elim (Bool-cases (ltb v 128)) [
    | inl small ↦
        rw small
          (rw (le→ltb_false i 5 past) at (varint32_last rounds i acc bitpos v (ltb→lt v 128 small)))
    | inr large ↦ rw large (
        varint32_more rounds i acc bitpos (v % 128) _ acc (omega arith) (
          rw (le→ltb_false i 5 past)
            (late k rounds (i + 1) acc bitpos (v / 128) (omega arith) (omega arith) (omega arith))))
  ]

  fifth : ReadsLow E 4 28
  unfolding groups
  fifth k zero acc v le h below = absurd (omega arith)
  fifth zero (suc rounds) acc v le h below =
      rw (or_fifth acc v below) at (varint32_last rounds 4 acc 28 v (omega arith))
  fifth (suc k) (suc rounds) acc v le h below = elim (Bool-cases (ltb v 128)) [
    | inl small ↦
        rw small
          (rw (or_fifth acc v below) at (varint32_last rounds 4 acc 28 v (ltb→lt v 128 small)))
    | inr large ↦
        let value : bit_or acc (v % 128 * 2 ^ 28 % 2 ^ 32) ≡ (acc + v * 2 ^ 28) % 2 ^ 32 =
          or_fifth acc (v % 128) below ∙ omega arith in
        rw large (
          varint32_more rounds 4 acc 28 (v % 128) _ _ (omega arith)
            (rw value (late k rounds 5 _ 35 (v / 128) (omega arith) (omega arith) (omega arith))))
  ]

  -- From the next byte back to this one, within the first four.
  earlier :
      (i bitpos : ℕ)
      → i < 4
      → 2 ^ (bitpos + 7) ≤ 2 ^ 28
      → ReadsLow E (i + 1) (bitpos + 7)
      → ReadsLow E i bitpos
  unfolding groups
  earlier i bitpos early fits next k zero acc v le h below = absurd (omega arith)
  earlier i bitpos early fits next zero (suc rounds) acc v le h below =
      let open_ : ltb i 5 ≡ true = lt→ltb i 5 (omega arith) in
      let value : bit_or acc (v * 2 ^ bitpos % 2 ^ 32) ≡ (acc + v * 2 ^ bitpos) % 2 ^ 32 =
        or_early acc v bitpos (omega arith) below fits
        ∙ omega (arith, next_below acc v bitpos below (omega arith)) in
      rw (open_, value) at (varint32_last rounds i acc bitpos v (omega arith))
  earlier i bitpos early fits next (suc k) (suc rounds) acc v le h below =
      let open_ : ltb i 5 ≡ true = lt→ltb i 5 (omega arith) in
      elim (Bool-cases (ltb v 128)) [
        | inl small ↦
            let less : v < 128 = ltb→lt v 128 small in
            let value : bit_or acc (v * 2 ^ bitpos % 2 ^ 32) ≡ (acc + v * 2 ^ bitpos) % 2 ^ 32 =
              or_early acc v bitpos less below fits
              ∙ omega (arith, next_below acc v bitpos below less) in
            rw small (rw (open_, value) at (varint32_last rounds i acc bitpos v less))
        | inr large ↦
            let wider : acc + v % 128 * 2 ^ bitpos < 2 ^ (bitpos + 7) =
              next_below acc (v % 128) bitpos below (omega arith) in
            let value : bit_or acc (v % 128 * 2 ^ bitpos % 2 ^ 32) ≡ acc + v % 128 * 2 ^ bitpos =
              or_early acc (v % 128) bitpos (omega arith) below fits in
            let total : acc + v % 128 * 2 ^ bitpos + v / 128 * 2 ^ (bitpos + 7)
                ≡ acc + v * 2 ^ bitpos =
              omega (arith, lowest_group v bitpos) in
            rw (large, ← total)
              (varint32_more rounds i acc bitpos (v % 128) _ _ (omega arith) (
                rw (open_, value)
                  (next k rounds (acc + v % 128 * 2 ^ bitpos) (v / 128) (omega arith) (omega arith)
                    wider)))
      ]

  -- `decode_varint32` reads the varint of any number below 2 ^ 64 as its low 32 bits and takes all
  -- of its bytes.
  pub decode_varint32-Decodes :
      (v : ℕ)
      → v < 2 ^ 64
      → Decodes {E = E} (decode_varint32 source_reader) (varint_bytes v) (v % 2 ^ 32)
  unfolding decode_varint32 varint_bytes groups
  decode_varint32-Decodes v h = elim (Bool-cases (ltb v 128)) [
    | inl small ↦
        let less : v < 128 = ltb→lt v 128 small in
        let same : v % 2 ^ 32 ≡ v = omega arith in
        rw (small, same) (get_more v [] _ v (rw (last_test v less) (pure-Decodes v)))
    | inr large ↦
        let low : bit_and (v % 128 + 128) 0xffff_ff7f ≡ v % 128 =
          low_seven_wide (v % 128 + 128) (omega arith) ∙ omega arith in
        let value : v % 128 + v / 128 * 2 ^ 7 ≡ v = omega arith in
        let third = earlier 3 21 (omega arith) (omega arith) fifth in
        let second = earlier 2 14 (omega arith) (omega arith) third in
        let first = earlier 1 7 (omega arith) (omega arith) second in
        rw large (
          get_more (v % 128 + 128) _ _ _ (
            rw (more_test (v % 128) (omega arith), low)
              (rw value at
                (first 8 9 (v % 128) (v / 128) (omega arith) (omega arith) (omega arith)))))
  ]
