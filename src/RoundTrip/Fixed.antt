-- ===== src/RoundTrip/Fixed.antt =====
-- The types of fixed width on the wire.
use micropb.Prelude.{ℕ, ◌≡◌, ◌/◌, ◌%◌, ◌-◌, arith, ◌^◌, ◌<◌, refl, sym, replicate}
use micropb.Prelude.{if◌then◌else◌, ◌++◌}
use micropb.Prelude.Int.{ℤ, pos, negsuc, InRange, to_unsigned, is_neg}
use micropb.Writer.{PbWrite}
use micropb.Reader.{PbRead}
use micropb.Reader.Source.{source_reader}
use micropb.Reader.Laws.{IsReader}
use micropb.Encode
use micropb.Encode.{le_bytes}
use micropb.Encode.Output.{IsAppender, Writes, write-Writes}
use micropb.Decode
use micropb.Decode.Values as Read
use micropb.Decode.Refine
use micropb.RoundTrip.{Carries}

-- The sign fills the upper half.
sign_extended :
    (i : ℤ)
    → InRange 32 i
    → le_bytes 4 (to_unsigned 32 i) ++ replicate 4 (if is_neg i then 0xff else 0)
      ≡ le_bytes 8 (to_unsigned 64 i)
unfolding le_bytes
sign_extended (pos n) h =
    let b4 : n / 256 / 256 / 256 / 256 % 256 ≡ 0 = omega arith in
    let b5 : n / 256 / 256 / 256 / 256 / 256 % 256 ≡ 0 = omega arith in
    let b6 : n / 256 / 256 / 256 / 256 / 256 / 256 % 256 ≡ 0 = omega arith in
    let b7 : n / 256 / 256 / 256 / 256 / 256 / 256 / 256 % 256 ≡ 0 = omega arith in
    rw (b4, b5, b6, b7) refl
sign_extended (negsuc n) h =
    let low : ℕ = 2 ^ 32 - 1 - n in
    let all : ℕ = 2 ^ 64 - 1 - n in
    let b0 : low % 256 ≡ all % 256 = omega arith in
    let b1 : low / 256 % 256 ≡ all / 256 % 256 = omega arith in
    let b2 : low / 256 / 256 % 256 ≡ all / 256 / 256 % 256 = omega arith in
    let b3 : low / 256 / 256 / 256 % 256 ≡ all / 256 / 256 / 256 % 256 = omega arith in
    let b4 : all / 256 / 256 / 256 / 256 % 256 ≡ 255 = omega arith in
    let b5 : all / 256 / 256 / 256 / 256 / 256 % 256 ≡ 255 = omega arith in
    let b6 : all / 256 / 256 / 256 / 256 / 256 / 256 % 256 ≡ 255 = omega arith in
    let b7 : all / 256 / 256 / 256 / 256 / 256 / 256 / 256 % 256 ≡ 255 = omega arith in
    rw (b0, b1, b2, b3, b4, b5, b6, b7) refl

module _ {W F R E : Type 0} {wr : PbWrite W F} {rd : PbRead R E} (a : IsAppender wr)
    (h : IsReader rd) where
  -- A `fixed32` goes through, in 4 bytes.
  pub fixed32-Carries :
      (u : ℕ)
      → u < 2 ^ 32
      → Carries a h
          (Encode.encode_fixed32 wr u)
          (Decode.decode_fixed32 rd)
          (Decode.decode_fixed32 source_reader)
          4
          u
  unfolding Encode.encode_fixed32
  fixed32-Carries u le = record {
    bytes = le_bytes 4 u;
    writes = write-Writes a (le_bytes 4 u);
    sized = sym (Read.length-le_bytes 4 u);
    decodes = Read.fixed32-Decodes u le;
    agrees = Refine.decode_fixed32-Agree h;
  }

  -- A `fixed64` is written as eight bytes, the lowest first, and read back by `decode_fixed64`,
  -- over any appending writer and any reader that keeps the promises of `PbRead`.
  pub fixed64-Carries :
      (u : ℕ)
      → u < 2 ^ 64
      → Carries a h
          (Encode.encode_fixed64 wr u)
          (Decode.decode_fixed64 rd)
          (Decode.decode_fixed64 source_reader)
          8
          u
  unfolding Encode.encode_fixed64
  fixed64-Carries u le = record {
    bytes = le_bytes 8 u;
    writes = write-Writes a (le_bytes 8 u);
    sized = sym (Read.length-le_bytes 8 u);
    decodes = Read.fixed64-Decodes u le;
    agrees = Refine.decode_fixed64-Agree h;
  }

  -- An `sfixed32` goes through, in 4 bytes.
  pub sfixed32-Carries :
      (i : ℤ)
      → InRange 32 i
      → Carries a h
          (Encode.encode_sfixed32 wr i)
          (Decode.decode_sfixed32 rd)
          (Decode.decode_sfixed32 source_reader)
          4
          i
  unfolding Encode.encode_sfixed32 Encode.encode_fixed32
  sfixed32-Carries i le = record {
    bytes = le_bytes 4 (to_unsigned 32 i);
    writes = write-Writes a (le_bytes 4 (to_unsigned 32 i));
    sized = sym (Read.length-le_bytes 4 (to_unsigned 32 i));
    decodes = Read.sfixed32-Decodes i le;
    agrees = Refine.decode_sfixed32-Agree h;
  }

  -- An `sfixed64` goes through, in 8 bytes.
  pub sfixed64-Carries :
      (i : ℤ)
      → InRange 64 i
      → Carries a h
          (Encode.encode_sfixed64 wr i)
          (Decode.decode_sfixed64 rd)
          (Decode.decode_sfixed64 source_reader)
          8
          i
  unfolding Encode.encode_sfixed64 Encode.encode_fixed64
  sfixed64-Carries i le = record {
    bytes = le_bytes 8 (to_unsigned 64 i);
    writes = write-Writes a (le_bytes 8 (to_unsigned 64 i));
    sized = sym (Read.length-le_bytes 8 (to_unsigned 64 i));
    decodes = Read.sfixed64-Decodes i le;
    agrees = Refine.decode_sfixed64-Agree h;
  }

  -- A `float`, as its bit pattern, goes through, in 4 bytes.
  pub float-Carries :
      (u : ℕ)
      → u < 2 ^ 32
      → Carries a h
          (Encode.encode_float wr u)
          (Decode.decode_float rd)
          (Decode.decode_float source_reader)
          4
          u
  unfolding Encode.encode_float
  float-Carries u le = record {
    bytes = le_bytes 4 u;
    writes = write-Writes a (le_bytes 4 u);
    sized = sym (Read.length-le_bytes 4 u);
    decodes = Read.float-Decodes u le;
    agrees = Refine.decode_float-Agree h;
  }

  -- A `double`, as its bit pattern, goes through, in 8 bytes.
  pub double-Carries :
      (u : ℕ)
      → u < 2 ^ 64
      → Carries a h
          (Encode.encode_double wr u)
          (Decode.decode_double rd)
          (Decode.decode_double source_reader)
          8
          u
  unfolding Encode.encode_double
  double-Carries u le = record {
    bytes = le_bytes 8 u;
    writes = write-Writes a (le_bytes 8 u);
    sized = sym (Read.length-le_bytes 8 u);
    decodes = Read.double-Decodes u le;
    agrees = Refine.decode_double-Agree h;
  }

  -- A 32-bit number goes through as a `fixed64`, in 8 bytes.
  pub fixed64_as_32-Carries :
      (u : ℕ)
      → u < 2 ^ 32
      → Carries a h
          (Encode.encode_fixed64_as_32 wr u)
          (Decode.decode_fixed64_as_32 rd)
          (Decode.decode_fixed64_as_32 source_reader)
          8
          u
  unfolding Encode.encode_fixed64_as_32
  fixed64_as_32-Carries u le = record {
    bytes = le_bytes 4 u ++ replicate 4 0;
    writes = write-Writes a (le_bytes 4 u ++ replicate 4 0);
    sized = unfold Encode.le_bytes in refl;
    decodes = Read.fixed64_as_32-Decodes u (replicate 4 0) le refl;
    agrees = Refine.decode_fixed64_as_32-Agree h;
  }

  -- An `i32` goes through as an `sfixed64`, in 8 bytes.
  pub sfixed64_as_32-Carries :
      (i : ℤ)
      → InRange 32 i
      → Carries a h
          (Encode.encode_sfixed64_as_32 wr i)
          (Decode.decode_sfixed64_as_32 rd)
          (Decode.decode_sfixed64_as_32 source_reader)
          8
          i
  unfolding Encode.encode_sfixed64_as_32
  sfixed64_as_32-Carries i le = record {
    bytes = le_bytes 4 (to_unsigned 32 i) ++ replicate 4 (if is_neg i then 0xff else 0);
    writes =
        write-Writes a
          (le_bytes 4 (to_unsigned 32 i) ++ replicate 4 (if is_neg i then 0xff else 0));
    sized = unfold Encode.le_bytes in refl;
    decodes = Read.sfixed64_as_32-Decodes i (replicate 4 (if is_neg i then 0xff else 0)) le refl;
    agrees = Refine.decode_sfixed64_as_32-Agree h;
  }

  wide-Writes :
      (i : ℤ)
      → InRange 32 i
      → Writes a (Encode.encode_sfixed64_as_32 wr i) (le_bytes 8 (to_unsigned 64 i))
  unfolding Encode.encode_sfixed64_as_32
  wide-Writes i le = rw (sign_extended i le) (write-Writes a (le_bytes 8 (to_unsigned 64 i)))

  -- An `i32` is written by `encode_sfixed64_as_32` as the eight bytes of its 64-bit two's
  -- complement, the lowest first, over any appending writer, and both `decode_sfixed64_as_32`,
  -- which skips the upper four, and `decode_sfixed64` read it back as the same number, over any
  -- reader that keeps the promises of `PbRead`.
  pub encode_sfixed64_as_32_lem :
      (i : ℤ)
      → InRange 32 i
      → Writes a (Encode.encode_sfixed64_as_32 wr i) (le_bytes 8 (to_unsigned 64 i))
        × Carries a h
            (Encode.encode_sfixed64_as_32 wr i)
            (Decode.decode_sfixed64_as_32 rd)
            (Decode.decode_sfixed64_as_32 source_reader)
            8
            i
        × Carries a h
            (Encode.encode_sfixed64_as_32 wr i)
            (Decode.decode_sfixed64 rd)
            (Decode.decode_sfixed64 source_reader)
            8
            i
  encode_sfixed64_as_32_lem i le =
      let wide = wide-Writes i le in
      (
        wide,
        sfixed64_as_32-Carries i le,
        record {
          bytes = le_bytes 8 (to_unsigned 64 i);
          writes = wide;
          sized = sym (Read.length-le_bytes 8 (to_unsigned 64 i));
          decodes = Read.sfixed64-Decodes i (Read.in_64 i le);
          agrees = Refine.decode_sfixed64-Agree h;
        },
      )
