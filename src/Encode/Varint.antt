-- ===== src/Encode/Varint.antt =====
-- The varint loop of the encoder writes the groups of seven bits.
use mathlib.Core.WellFounded.{Acc}
use mathlib.Core.Logic.{dif_pos, dif_neg}
use native.Mathlib.Decide.{dec_lt}
use micropb.Prelude.{ℕ, zero, suc, ◌+◌, ◌-◌, ◌/◌, ◌%◌, ◌^◌, ◌<◌, ◌≡◌, refl, ap, ◌∙◌, arith}
use micropb.Prelude.{
  Bool, true, false, Bool-cases, inl, inr, leb, leb→le, List, [], ◌∷◌, ◌++◌, append-nil, bit_and,
  bit_or, ltb, if◌then◌else◌,
}
use micropb.Prelude.Order.{lt_wf}
use micropb.Prelude.Bits.{low_seven, bit_or_above}
use native.Mathlib.Nat.{pow-suc}
use native.Mathlib.Bridge.{le_prop}
use micropb.Writer.{PbWrite}
use micropb.Encode.{encode_byte, encode_groups, encode_varint, next_group-lt}
use micropb.Encode.Bytes.{groups, varint_bytes}
use micropb.Encode.Output.{IsAppender, Writes, write-Writes, >>-Writes, pure-Writes}

low_group : (v : ℕ) → bit_and (v % 256) 0x7f ≡ v % 128
low_group v = low_seven (v % 256) (omega arith) ∙ omega arith

inner_byte : (v : ℕ) → bit_or (bit_and (v % 256) 0x7f) 0x80 ≡ v % 128 + 128
inner_byte v =
    ap (λ (t : ℕ). bit_or t 0x80) (low_group v) ∙ bit_or_above 7 (v % 128) 1 (omega arith)

-- The groups with the last one changed, as the loop does for a negative `int32`.
groups_with : (ℕ → ℕ) → ℕ → ℕ → List ℕ
groups_with last zero v = last v ∷ []
groups_with last (suc k) v =
    let more = groups_with last k (v / 128) in
    if ltb v 128 then last v ∷ [] else ((v % 128 + 128) ∷ more)

groups_with-eq-groups : (k v : ℕ) → groups_with (λ b. b) k v ≡ groups k v
unfolding groups groups_with
groups_with-eq-groups zero v = refl
groups_with-eq-groups (suc k) v = ground (arith, groups_with-eq-groups k (v / 128))

module _ (last : ℕ → ℕ) where
  groups_with_small : (k v : ℕ) → v < 128 → groups_with last k v ≡ last v ∷ []
  unfolding groups_with
  groups_with_small zero v h = refl
  groups_with_small (suc k) v h = ground arith

  groups_with_large :
      (k v : ℕ)
      → v < 128 ^ suc k
      → 0 < v / 128
      → (j : ℕ) × (k ≡ suc j)
        × (groups_with last k v ≡ (v % 128 + 128) ∷ groups_with last j (v / 128))
  unfolding groups_with
  groups_with_large zero v b h = absurd (omega arith)
  groups_with_large (suc k) v b h = (k, refl, ground arith)

abbrev last_byte : Bool → ℕ → ℕ
last_byte negative_int32 b = if negative_int32 then bit_or b 0xf0 else b

-- The last byte of a negative `int32` and the five bytes behind the loop are those of the 64-bit
-- two's complement.
negative_bytes :
    (n : ℕ)
    → n < 2 ^ 31
    → groups_with (last_byte true) 4 (2 ^ 32 - 1 - n) ++ (0xff ∷ 0xff ∷ 0xff ∷ 0xff ∷ 0x01 ∷ [])
      ≡ varint_bytes (2 ^ 64 - 1 - n)
unfolding groups_with varint_bytes groups
negative_bytes n h = ground (arith, bit_or_above 4 ((2 ^ 32 - 1 - n) / 128 / 128 / 128 / 128) 15)

module _ {W E : Type 0} {wr : PbWrite W E} (a : IsAppender wr) where
  pub byte-Writes : (b : ℕ) → Writes a (encode_byte wr b) (b ∷ [])
  unfolding encode_byte
  byte-Writes b = write-Writes a (b ∷ [])

  -- The loop ends, and writes the groups.
  groups-Writes :
      (neg : Bool) (k v : ℕ) (w : Acc ◌<◌ v)
      → v < 128 ^ suc k
      → Writes a (encode_groups wr v w neg) (groups_with (last_byte neg) k v)
  unfolding encode_groups
  groups-Writes neg k v (Acc.intro _ smaller) h = elim (dec_lt 0 (v / 128)) [
    | yes more ↦
        let (j, e, same) = groups_with_large (last_byte neg) k v h more in
        let wide : v < 128 ^ suc (suc j) = rw e at h in
        let small : v / 128 < 128 ^ suc j = omega (arith, pow-suc 128 (suc j)) in
        rw (dif_pos _ le_prop more _ _, same, inner_byte v)
          (>>-Writes a (byte-Writes (v % 128 + 128))
            (groups-Writes neg j (v / 128) (smaller _ (next_group-lt v more)) small))
    | no done ↦
        let small : v < 128 = omega arith in
        let same : bit_and (v % 256) 0x7f ≡ v = low_group v ∙ omega arith in
        rw (dif_neg _ done _ _, groups_with_small (last_byte neg) k v small, same)
          (byte-Writes (last_byte neg v))
  ]

  -- A number below `2 ^ 64` is written as its groups.
  pub varint-Writes : (v : ℕ) → v < 2 ^ 64 → Writes a (encode_varint wr v false) (varint_bytes v)
  unfolding encode_varint varint_bytes
  varint-Writes v h = elim (Bool-cases (leb v 0x7f)) [
    | inl small ↦
        let fits : v < 128 = omega (arith, leb→le v 0x7f small) in
        let same : v % 256 ≡ v = omega arith in
        rw (small, same, ← groups_with-eq-groups 9 v, groups_with_small (λ b. b) 9 v fits)
          (byte-Writes v)
    | inr large ↦
        rw (large, ← append-nil (groups 9 v), ← groups_with-eq-groups 9 v)
          (>>-Writes a (groups-Writes false 9 v (lt_wf.apply v) (omega arith)) (pure-Writes a))
  ]

  pub negative-Writes :
      (n : ℕ)
      → n < 2 ^ 31
      → Writes a (encode_varint wr (2 ^ 32 - 1 - n) true) (varint_bytes (2 ^ 64 - 1 - n))
  unfolding encode_varint
  negative-Writes n h =
      let large : leb (2 ^ 32 - 1 - n) 0x7f ≡ false = ground arith in
      rw (large, ← negative_bytes n h)
        (>>-Writes a (groups-Writes true 4 (2 ^ 32 - 1 - n) (lt_wf.apply _) (omega arith))
          (write-Writes a _))
