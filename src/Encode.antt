-- ===== src/Encode.antt =====
-- `struct PbEncoder` of micropb/src/encode.rs, over any writer. A byte is a number below 256, an
-- `f32` or `f64` is its bit pattern, a `str` is its UTF-8 bytes.
pub mod Output
pub mod Bytes
pub mod Varint
pub mod Zigzag
pub mod Values
use mathlib.Core.Logic.{dite}
use mathlib.Core.WellFounded.{Acc}
use native.Mathlib.Decide.{dec_lt}
use micropb.Prelude.{ℕ, zero, suc, ◌+◌, ◌/◌, ◌%◌, ◌^◌, ◌<◌, bit_and, bit_or, arith}
use micropb.Prelude.{Bool, true, false, List, [], ◌∷◌, ◌++◌, length, take, replicate}
use micropb.Prelude.{if◌then◌else◌, leb}
use micropb.Prelude.Order.{lt_wf}
use micropb.Prelude.Int.{ℤ, is_neg, to_unsigned, shl_one, shr, xor}
use micropb.Monad.{Result, M, ◌>>=◌, ◌>>◌, go_on, pure}
use micropb.Wire.{Tag, from_parts, varint}
use micropb.Writer.{PbWrite}

pub record PbEncoder (W : Type 0) : Type 0 where
  pub writer : W

-- `u.to_le_bytes()` of an `n`-byte number.
unfoldable pub le_bytes : ℕ → ℕ → List ℕ
le_bytes zero u = []
le_bytes (suc n) u = (u % 256) ∷ le_bytes n (u / 256)

-- `((i << 1) ^ (i >> (w - 1))) as u<w>`.
abbrev pub zigzag : ℕ → ℕ → ℤ → ℕ
zigzag w s i = to_unsigned w (xor w (shl_one w i) (shr i s))

pub next_group-lt : (v : ℕ) → 0 < v / 128 → v / 128 < v
next_group-lt v h = omega arith

module _ {W E : Type 0} (wr : PbWrite W E) where
  -- `PbEncoder::new`, `into_writer`.
  unfoldable pub new : W → PbEncoder W
  new w = record { writer = w }

  unfoldable pub into_writer : PbEncoder W → W
  into_writer e = e.writer

  unfoldable pub as_writer : PbEncoder W → W
  as_writer e = e.writer

  unfoldable pub write : List ℕ → M (PbEncoder W) E (Unit {0})
  write bytes e = let (r, w) = wr.pb_write e.writer bytes in (r, record { writer = w })

  unfoldable pub encode_byte : ℕ → M (PbEncoder W) E (Unit {0})
  encode_byte b = write (b ∷ [])

  -- The `while` loop: `varint >> 7` falls until it is 0. The last byte of a negative `int32` also
  -- sets the four top bits.
  unfoldable pub encode_groups : (v : ℕ) → Acc ◌<◌ v → Bool → M (PbEncoder W) E (Unit {0})
  unfolding dec_lt
  encode_groups v (Acc.intro _ smaller) negative_int32 =
      let b = bit_and (v % 256) 0x7f in
      dite (dec_lt 0 (v / 128))
        (λ more.
          encode_byte (bit_or b 0x80)
          >> encode_groups (v / 128) (smaller _ (next_group-lt v more)) negative_int32)
        (λ _. encode_byte (if negative_int32 then bit_or b 0xf0 else b))

  unfoldable pub encode_varint : ℕ → Bool → M (PbEncoder W) E (Unit {0})
  unfolding lt_wf
  encode_varint v negative_int32 = if leb v 0x7f then encode_byte (v % 256) else do
    encode_groups v (lt_wf.apply v) negative_int32
    if negative_int32 then write (0xff ∷ 0xff ∷ 0xff ∷ 0xff ∷ 0x01 ∷ []) else pure tt

  unfoldable pub encode_varint32 : ℕ → M (PbEncoder W) E (Unit {0})
  encode_varint32 u = encode_varint u false

  unfoldable pub encode_varint64 : ℕ → M (PbEncoder W) E (Unit {0})
  encode_varint64 u = encode_varint u false

  unfoldable pub encode_int32 : ℤ → M (PbEncoder W) E (Unit {0})
  encode_int32 i = encode_varint (to_unsigned 32 i) (is_neg i)

  unfoldable pub encode_int64 : ℤ → M (PbEncoder W) E (Unit {0})
  encode_int64 i = encode_varint64 (to_unsigned 64 i)

  unfoldable pub encode_sint32 : ℤ → M (PbEncoder W) E (Unit {0})
  encode_sint32 i = encode_varint32 (zigzag 32 31 i)

  unfoldable pub encode_sint64 : ℤ → M (PbEncoder W) E (Unit {0})
  encode_sint64 i = encode_varint64 (zigzag 64 63 i)

  unfoldable pub encode_bool : Bool → M (PbEncoder W) E (Unit {0})
  encode_bool b = encode_byte (if b then 1 else 0)

  unfoldable pub encode_fixed32 : ℕ → M (PbEncoder W) E (Unit {0})
  encode_fixed32 u = write (le_bytes 4 u)

  unfoldable pub encode_fixed64 : ℕ → M (PbEncoder W) E (Unit {0})
  encode_fixed64 u = write (le_bytes 8 u)

  -- `[0; 8]` with its first four bytes overwritten.
  unfoldable pub encode_fixed64_as_32 : ℕ → M (PbEncoder W) E (Unit {0})
  encode_fixed64_as_32 u = write (le_bytes 4 u ++ replicate 4 0)

  unfoldable pub encode_sfixed32 : ℤ → M (PbEncoder W) E (Unit {0})
  encode_sfixed32 i = encode_fixed32 (to_unsigned 32 i)

  unfoldable pub encode_sfixed64 : ℤ → M (PbEncoder W) E (Unit {0})
  encode_sfixed64 i = encode_fixed64 (to_unsigned 64 i)

  unfoldable pub encode_sfixed64_as_32 : ℤ → M (PbEncoder W) E (Unit {0})
  encode_sfixed64_as_32 i =
      write (le_bytes 4 (to_unsigned 32 i) ++ replicate 4 (if is_neg i then 0xff else 0))

  unfoldable pub encode_float : ℕ → M (PbEncoder W) E (Unit {0})
  encode_float f = write (le_bytes 4 f)

  unfoldable pub encode_double : ℕ → M (PbEncoder W) E (Unit {0})
  encode_double f = write (le_bytes 8 f)

  unfoldable pub encode_tag : Tag → M (PbEncoder W) E (Unit {0})
  encode_tag t = encode_varint32 (varint t)

  -- `bytes.len() as u32` keeps the low 32 bits of the length.
  unfoldable pub encode_bytes : List ℕ → M (PbEncoder W) E (Unit {0})
  encode_bytes bytes = do encode_varint32 (length bytes % 2 ^ 32); write bytes

  unfoldable pub encode_string : List ℕ → M (PbEncoder W) E (Unit {0})
  encode_string string = encode_bytes string

  -- `for &e in elems { encoder(self, e)?; }`
  unfoldable pub encode_each :
      {T : Type 0} → List T → (T → M (PbEncoder W) E (Unit {0})) → M (PbEncoder W) E (Unit {0})
  encode_each [] encoder = pure tt
  encode_each (x ∷ elems) encoder = encoder x >> encode_each elems encoder

  unfoldable pub encode_packed :
      {T : Type 0} → ℕ → List T → (T → M (PbEncoder W) E (Unit {0})) → M (PbEncoder W) E (Unit {0})
  encode_packed len elems encoder = do encode_varint32 (len % 2 ^ 32); encode_each elems encoder

  unfoldable pub encode_map_elem :
      {K V : Type 0}
      → ℕ
      → K
      → ℕ
      → V
      → ℕ
      → (K → M (PbEncoder W) E (Unit {0}))
      → (V → M (PbEncoder W) E (Unit {0}))
      → M (PbEncoder W) E (Unit {0})
  encode_map_elem len key key_wtype val val_wtype key_encoder val_encoder = do
    encode_varint32 (len % 2 ^ 32)
    encode_tag (from_parts 1 key_wtype)
    key_encoder key
    encode_tag (from_parts 2 val_wtype)
    val_encoder val
