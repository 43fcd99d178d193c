-- ===== src/Decode.antt =====
-- `struct PbDecoder` of micropb/src/decode.rs, over any reader.
pub mod Ahead
pub mod Counts
pub mod Agree
pub mod Primitives
pub mod Refine
pub mod Expect
pub mod Groups
pub mod Varint64
pub mod Varint32
pub mod Zigzag
pub mod Values
pub mod Into
pub mod Skip
use Prim.Native.Nat.{min}
use micropb.Prelude.{ℕ, zero, suc, ◌+◌, ◌-◌, ◌*◌, ◌/◌, ◌%◌, ◌^◌, bit_and, bit_or}
use micropb.Prelude.{Bool, false, not, List, [], ◌∷◌, length}
use micropb.Prelude.{if◌then◌else◌, ltb, ◌==◌}
use micropb.Prelude.Int.{ℤ, pos, to_signed, xor, neg}
use micropb.Monad.{Result, ok, err, out_of_fuel, M, ◌>>=◌, ◌>>◌, pure, fail, map_ok}
use micropb.Wire.{Tag, tag, wire_type}
use micropb.Wire.{wire_type_varint, wire_type_i64, wire_type_len, wire_type_i32}
use micropb.Reader.{PbRead}

pub data DecodeError (E : Type 0) : Type 0 where
  var_int_limit unexpected_eof deprecation unknown_wire_type zero_field : DecodeError E
  custom_field utf8 capacity wrong_len : DecodeError E
  reader_error : E → DecodeError E

pub record PbDecoder (R : Type 0) : Type 0 where
  pub reader : R
  pub idx : ℕ
  pub ignore_repeated_cap_err : Bool

-- `from_le_bytes`.
unfoldable pub from_le_bytes : List ℕ → ℕ
from_le_bytes [] = 0
from_le_bytes (b ∷ bs) = b + 256 * from_le_bytes bs

-- `((u >> 1) as i<w>) ^ -((u & 1) as i<w>)`.
abbrev pub unzigzag : ℕ → ℕ → ℤ
unzigzag w u = xor w (to_signed w (u / 2)) (neg (pos (bit_and u 1)))

-- `map_err(DecodeError::Reader)?` on a call of the reader, which leaves the reader moved.
abbrev pub from_reader :
    {R E A : Type 0} → PbDecoder R → Result E A → R → Result (DecodeError E) A × PbDecoder R
from_reader d (ok a) r = (ok a, record d { reader = r })
from_reader d (err e) r = (err (reader_error e), record d { reader = r })
from_reader d out_of_fuel r = (out_of_fuel, record d { reader = r })

-- `chunk.first().copied().ok_or(DecodeError::UnexpectedEof)`.
abbrev pub first : {E : Type 0} → List ℕ → Result (DecodeError E) ℕ
first [] = err unexpected_eof
first (b ∷ bs) = ok b

-- A result that does not depend on the state.
abbrev pub lift : {S E A : Type 0} → Result E A → M S E A
lift r s = (r, s)

module _ {R E : Type 0} (rd : PbRead R E) where
  abbrev pub Decoding : Type 0 → Type 0
  Decoding A = M (PbDecoder R) (DecodeError E) A

  unfoldable pub new : R → PbDecoder R
  new r = record { reader = r; idx = 0; ignore_repeated_cap_err = false }

  unfoldable pub into_reader : PbDecoder R → R
  into_reader d = d.reader

  unfoldable pub as_reader : PbDecoder R → R
  as_reader d = d.reader

  unfoldable pub bytes_read : Decoding ℕ
  bytes_read d = (ok d.idx, d)

  unfoldable pub advance : ℕ → Decoding (Unit {0})
  advance bytes d = (ok tt, record d { reader = rd.pb_advance d.reader bytes; idx = d.idx + bytes })

  -- `self.reader.pb_read_chunk().map_err(DecodeError::Reader)?`
  unfoldable pub read_chunk : Decoding (List ℕ)
  read_chunk d = let (c, r) = rd.pb_read_chunk d.reader in from_reader d c r

  unfoldable pub get_byte : Decoding ℕ
  get_byte = do chunk ← read_chunk; b ← lift (first chunk); advance 1; pure b

  -- The loop `for i in 1..10`, with the rounds left. Only the first five bytes count.
  unfoldable pub varint32_loop : ℕ → ℕ → ℕ → ℕ → Decoding ℕ
  varint32_loop zero i varint bitpos = fail var_int_limit
  varint32_loop (suc rounds) i varint bitpos = get_byte >>= λ b.
      let u = bit_and b 0x7f in
      let varint' = if ltb i 5 then bit_or varint (u * 2 ^ bitpos % 2 ^ 32) else varint in
      let bitpos' = if ltb i 5 then bitpos + 7 else bitpos in
      let more = varint32_loop rounds (i + 1) varint' bitpos' in
      if bit_and b 0x80 == 0 then pure varint' else more

  unfoldable pub decode_varint32 : Decoding ℕ
  decode_varint32 = get_byte >>= λ b.
      if bit_and b 0x80 == 0 then pure b else varint32_loop 9 1 (bit_and b 0xffff_ff7f) 7

  unfoldable pub varint64_loop : ℕ → ℕ → ℕ → Decoding ℕ
  varint64_loop zero varint bitpos = fail var_int_limit
  varint64_loop (suc rounds) varint bitpos = get_byte >>= λ b.
      let u = bit_and b 0x7f in
      let varint' = bit_or varint (u * 2 ^ bitpos % 2 ^ 64) in
      let more = varint64_loop rounds varint' (bitpos + 7) in
      if bit_and b 0x80 == 0 then pure varint' else more

  unfoldable pub decode_varint64 : Decoding ℕ
  decode_varint64 = get_byte >>= λ b.
      if bit_and b 0x80 == 0 then pure b else varint64_loop 9 (bit_and b 0xffff_ffff_ffff_ff7f) 7

  unfoldable pub decode_int64 : Decoding ℤ
  decode_int64 = map_ok (to_signed 64) decode_varint64

  unfoldable pub decode_int32 : Decoding ℤ
  decode_int32 = map_ok (to_signed 32) decode_varint32

  unfoldable pub decode_sint32 : Decoding ℤ
  decode_sint32 = map_ok (unzigzag 32) decode_varint32

  unfoldable pub decode_sint64 : Decoding ℤ
  decode_sint64 = map_ok (unzigzag 64) decode_varint64

  unfoldable pub decode_bool : Decoding Bool
  decode_bool = map_ok (λ u. not (u == 0)) decode_varint32

  -- `self.idx += bytes_read`, then the test for a short read.
  unfoldable pub count_read : ℕ → List ℕ → Decoding (List ℕ)
  count_read n bytes d =
      let d' = record d { idx = d.idx + length bytes } in
      if ltb (length bytes) n then (err unexpected_eof, d') else (ok bytes, d')

  -- `read_exact` on a buffer of `n` bytes gives the bytes that it wrote there.
  unfoldable pub read_exact : ℕ → Decoding (List ℕ)
  read_exact n d =
      let (bytes, r) = rd.pb_read_exact d.reader n in
      ((λ d'. from_reader d' bytes r) >>= count_read n) d

  unfoldable pub decode_fixed32 : Decoding ℕ
  decode_fixed32 = map_ok from_le_bytes (read_exact 4)

  unfoldable pub decode_fixed64 : Decoding ℕ
  decode_fixed64 = map_ok from_le_bytes (read_exact 8)

  -- The loop of `skip_bytes`. Each round takes a byte at least, so `bytes` rounds are enough.
  unfoldable pub skip_loop : ℕ → ℕ → ℕ → Decoding (Unit {0})
  skip_loop zero bytes total = lift (if ltb total bytes then out_of_fuel else ok tt)
  skip_loop (suc fuel) bytes total =
      let more : Decoding (Unit {0}) = read_chunk >>= λ chunk.
      let n = min (length chunk) (bytes - total) in
      if length chunk == 0
      then fail unexpected_eof
      else (advance n >> skip_loop fuel bytes (total + n)) in
      if ltb total bytes then more else pure tt

  unfoldable pub skip_bytes : ℕ → Decoding (Unit {0})
  skip_bytes bytes = skip_loop bytes bytes 0

  unfoldable pub decode_fixed64_as_32 : Decoding ℕ
  decode_fixed64_as_32 = do n ← decode_fixed32; skip_bytes 4; pure n

  unfoldable pub decode_sfixed32 : Decoding ℤ
  decode_sfixed32 = map_ok (to_signed 32) decode_fixed32

  unfoldable pub decode_sfixed64 : Decoding ℤ
  decode_sfixed64 = map_ok (to_signed 64) decode_fixed64

  unfoldable pub decode_sfixed64_as_32 : Decoding ℤ
  decode_sfixed64_as_32 = do n ← decode_sfixed32; skip_bytes 4; pure n

  -- `f32::from_bits` and `f64::from_le_bytes`: a float is its bit pattern.
  unfoldable pub decode_float : Decoding ℕ
  decode_float = decode_fixed32

  unfoldable pub decode_double : Decoding ℕ
  decode_double = map_ok from_le_bytes (read_exact 8)

  unfoldable pub decode_tag : Decoding Tag
  decode_tag = map_ok tag decode_varint32

  -- `read_into_buf` on a buffer of `size` bytes.
  unfoldable pub read_into_buf : ℕ → ℕ → Decoding (List ℕ)
  read_into_buf size len = if ltb size len then fail capacity else read_exact len

  -- The test behind `decode_len_record`'s callback.
  unfoldable pub check_len : {T : Type 0} → ℕ → ℕ → T → Decoding T
  check_len len before val =
      bytes_read >>= λ after. if (after - before) == len then pure val else fail wrong_len

  unfoldable pub skip_varint_loop : ℕ → Decoding (Unit {0})
  skip_varint_loop zero = fail var_int_limit
  skip_varint_loop (suc rounds) = get_byte >>= λ b.
      let more = skip_varint_loop rounds in if bit_and b 0x80 == 0 then pure tt else more

  unfoldable pub skip_varint : Decoding (Unit {0})
  skip_varint = skip_varint_loop 10

  unfoldable pub skip_len : Decoding (Unit {0})
  skip_len = decode_varint32 >>= skip_bytes

  unfoldable pub skip_wire_value : ℕ → Decoding (Unit {0})
  skip_wire_value wire_type =
      if wire_type == wire_type_varint
      then skip_varint
      else if wire_type == wire_type_i64
      then skip_bytes 8
      else if wire_type == wire_type_len
      then skip_len
      else if wire_type == 3
      then fail deprecation
      else if wire_type == 4
      then fail deprecation
      else if wire_type == wire_type_i32
      then skip_bytes 4
      else fail unknown_wire_type
