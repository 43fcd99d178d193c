-- ===== src/RoundTrip/Scalars.antt =====
-- The scalar types.
use micropb.Prelude.{ℕ, ◌%◌, ◌^◌, ◌<◌, ◌≡◌, refl, arith, Bool, true, false}
use micropb.Prelude.{if◌then◌else◌, length}
use micropb.Prelude.Int.{ℤ, InRange, to_unsigned}
use micropb.Wire.{tag, varint}
use micropb.Writer.{PbWrite}
use micropb.Reader.{PbRead}
use micropb.Reader.Source.{source_reader}
use micropb.Reader.Laws.{IsReader}
use micropb.Encode
use micropb.Encode.{le_bytes}
use micropb.Encode.Zigzag.{zigzag_value}
use micropb.Encode.Bytes.{groups, varint_bytes}
use micropb.Encode.Output.{IsAppender, Writes}
use micropb.Encode.Values
use micropb.Size
use micropb.Size.Laws
use micropb.Decode
use micropb.Decode.Values as Read
use micropb.Decode.Varint32.{decode_varint32-Decodes}
use micropb.Decode.Varint64.{decode_varint64-Decodes}
use micropb.Decode.Refine
use micropb.RoundTrip.{Carries}

bool_size : (b : Bool) → 1 ≡ length (varint_bytes (if b then 1 else 0))
unfolding varint_bytes groups
bool_size true = refl
bool_size false = refl

module _ {W F R E : Type 0} {wr : PbWrite W F} {rd : PbRead R E} (a : IsAppender wr)
    (h : IsReader rd) where
  -- A `uint32` is written as a varint of `sizeof_varint32` bytes and read back by
  -- `decode_varint32`, over any appending writer and any reader that keeps the promises of
  -- `PbRead`.
  pub uint32-Carries :
      (u : ℕ)
      → u < 2 ^ 32
      → Carries a h
          (Encode.encode_varint32 wr u)
          (Decode.decode_varint32 rd)
          (Decode.decode_varint32 source_reader)
          (Size.sizeof_varint32 u)
          u
  uint32-Carries u le =
      let low : u % 2 ^ 32 ≡ u = omega arith in
      record {
        bytes = varint_bytes u;
        writes = Values.varint32-Writes a u le;
        sized = Laws.sizeof_varint32_lem u le;
        decodes = rw low at (decode_varint32-Decodes {E = E} u (omega arith));
        agrees = Refine.decode_varint32-Agree h;
      }

  -- A `uint64` is written as a varint of `sizeof_varint64` bytes and read back by
  -- `decode_varint64`, over any appending writer and any reader that keeps the promises of
  -- `PbRead`.
  pub uint64-Carries :
      (u : ℕ)
      → u < 2 ^ 64
      → Carries a h
          (Encode.encode_varint64 wr u)
          (Decode.decode_varint64 rd)
          (Decode.decode_varint64 source_reader)
          (Size.sizeof_varint64 u)
          u
  uint64-Carries u le = record {
    bytes = varint_bytes u;
    writes = Values.varint64-Writes a u le;
    sized = Laws.sizeof_varint64_lem u le;
    decodes = decode_varint64-Decodes u le;
    agrees = Refine.decode_varint64-Agree h;
  }

  -- An `int32` goes through.
  pub int32-Carries :
      (i : ℤ)
      → InRange 32 i
      → Carries a h
          (Encode.encode_int32 wr i)
          (Decode.decode_int32 rd)
          (Decode.decode_int32 source_reader)
          (Size.sizeof_int32 i)
          i
  int32-Carries i le = record {
    bytes = varint_bytes (to_unsigned 64 i);
    writes = Values.int32-Writes a i le;
    sized = Laws.sizeof_int32_lem i le;
    decodes = Read.int32-Decodes i le;
    agrees = Refine.decode_int32-Agree h;
  }

  -- An `int32`, negative or not, is written by `encode_int32` as the varint of its 64-bit two's
  -- complement, in as many bytes as `sizeof_int32` says, over any appending writer, and both
  -- `decode_int32` and `decode_int64` read it back as the same number, over any reader that keeps
  -- the promises of `PbRead`.
  pub encode_int32_lem :
      (i : ℤ)
      → InRange 32 i
      → Writes a (Encode.encode_int32 wr i) (varint_bytes (to_unsigned 64 i))
        × Carries a h
            (Encode.encode_int32 wr i)
            (Decode.decode_int32 rd)
            (Decode.decode_int32 source_reader)
            (Size.sizeof_int32 i)
            i
        × Carries a h
            (Encode.encode_int32 wr i)
            (Decode.decode_int64 rd)
            (Decode.decode_int64 source_reader)
            (Size.sizeof_int32 i)
            i
  encode_int32_lem i le = (
    Values.int32-Writes a i le,
    int32-Carries i le,
    record {
      bytes = varint_bytes (to_unsigned 64 i);
      writes = Values.int32-Writes a i le;
      sized = Laws.sizeof_int32_lem i le;
      decodes = Read.int64-Decodes i (Read.in_64 i le);
      agrees = Refine.decode_int64-Agree h;
    },
  )

  -- An `int64` is written with `sizeof_int64` bytes and read back by `decode_int64`, over any
  -- appending writer and any reader that keeps the promises of `PbRead`.
  pub int64-Carries :
      (i : ℤ)
      → InRange 64 i
      → Carries a h
          (Encode.encode_int64 wr i)
          (Decode.decode_int64 rd)
          (Decode.decode_int64 source_reader)
          (Size.sizeof_int64 i)
          i
  int64-Carries i le = record {
    bytes = varint_bytes (to_unsigned 64 i);
    writes = Values.int64-Writes a i le;
    sized = Laws.sizeof_int64_lem i le;
    decodes = Read.int64-Decodes i le;
    agrees = Refine.decode_int64-Agree h;
  }

  -- An `sint32` is written in zigzag form with `sizeof_sint32` bytes and read back by
  -- `decode_sint32`, over any appending writer and any reader that keeps the promises of `PbRead`.
  pub sint32-Carries :
      (i : ℤ)
      → InRange 32 i
      → Carries a h
          (Encode.encode_sint32 wr i)
          (Decode.decode_sint32 rd)
          (Decode.decode_sint32 source_reader)
          (Size.sizeof_sint32 i)
          i
  sint32-Carries i le = record {
    bytes = varint_bytes (zigzag_value i);
    writes = Values.sint32-Writes a i le;
    sized = Laws.sizeof_sint32_lem i le;
    decodes = Read.sint32-Decodes i le;
    agrees = Refine.decode_sint32-Agree h;
  }

  -- An `sint64` is written in zigzag form with `sizeof_sint64` bytes and read back by
  -- `decode_sint64`, over any appending writer and any reader that keeps the promises of `PbRead`.
  pub sint64-Carries :
      (i : ℤ)
      → InRange 64 i
      → Carries a h
          (Encode.encode_sint64 wr i)
          (Decode.decode_sint64 rd)
          (Decode.decode_sint64 source_reader)
          (Size.sizeof_sint64 i)
          i
  sint64-Carries i le = record {
    bytes = varint_bytes (zigzag_value i);
    writes = Values.sint64-Writes a i le;
    sized = Laws.sizeof_sint64_lem i le;
    decodes = Read.sint64-Decodes i le;
    agrees = Refine.decode_sint64-Agree h;
  }

  -- A `bool` goes through, in one byte.
  pub bool-Carries :
      (b : Bool)
      → Carries a h
          (Encode.encode_bool wr b)
          (Decode.decode_bool rd)
          (Decode.decode_bool source_reader)
          1
          b
  bool-Carries b = record {
    bytes = varint_bytes (if b then 1 else 0);
    writes = Values.bool-Writes a b;
    sized = bool_size b;
    decodes = Read.bool-Decodes b;
    agrees = Refine.decode_bool-Agree h;
  }

  -- A tag goes through.
  pub tag-Carries :
      (t : ℕ)
      → t < 2 ^ 32
      → Carries a h
          (Encode.encode_tag wr (tag t))
          (Decode.decode_tag rd)
          (Decode.decode_tag source_reader)
          (Size.sizeof_tag (tag t))
          (tag t)
  unfolding varint
  tag-Carries t le = record {
    bytes = varint_bytes t;
    writes = Values.tag-Writes a (tag t) le;
    sized = Laws.sizeof_tag_lem (tag t) le;
    decodes = Read.tag-Decodes t le;
    agrees = Refine.decode_tag-Agree h;
  }
