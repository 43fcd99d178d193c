-- ===== src/RoundTrip/Elements.antt =====
-- Scalars as elements of a repeated field and as keys or values of a map.
use micropb.Prelude.{ℕ, suc, refl, ◌%◌, ◌^◌, ◌<◌, ◌≡◌, arith, length, ltb, Bool-cases, inl, inr}
use micropb.Prelude.Int.{InRange}
use micropb.Monad.{ok, M, ◌>>=◌}
use micropb.Writer.{PbWrite}
use micropb.Encode
use micropb.Encode.{PbEncoder}
use micropb.Encode.Bytes.{varint_bytes, groups}
use micropb.Encode.Zigzag.{zigzag_value}
use micropb.Encode.Output.{IsAppender}
use micropb.Encode.Values
use micropb.Size
use micropb.Size.Laws
use micropb.Reader.{PbRead}
use micropb.Reader.Source.{Source, source_reader}
use micropb.Reader.Laws.{IsReader}
use micropb.Decode
use micropb.Decode.{PbDecoder, DecodeError}
use micropb.Decode.Values as Read
use micropb.Decode.Varint32.{decode_varint32-Decodes}
use micropb.Decode.Refine
use micropb.Decode.Into.{Into, on_decoder, on_dest}
use micropb.Decode.Into.Agree as Over
use micropb.RoundTrip.{Carries, CarriesInto, CarriesEach}

groups-takes : (k v : ℕ) → 0 < length (groups (suc k) v)
unfolding groups
groups-takes k v = elim (Bool-cases (ltb v 128)) [
  | inl small ↦ rw small (omega arith)
  | inr large ↦ rw large (omega arith)
]

pub varint_bytes-takes : (v : ℕ) → 0 < length (varint_bytes v)
unfolding varint_bytes
varint_bytes-takes v = groups-takes 8 v

-- A decoder call whose result is stored, `*x = decoder.decode_..()?`.
abbrev pub store :
    {R E : Type 0} (rd : PbRead R E) {A : Type 0}
    → M (PbDecoder R) (DecodeError E) A
    → Into rd A (Unit {0})
store rd m = on_decoder rd m >>= λ x. on_dest rd (λ old. (ok tt, x))

module _ {W F R E : Type 0} {wr : PbWrite W F} {rd : PbRead R E} (a : IsAppender wr)
    (h : IsReader rd) where
  pub uint32-CarriesEach :
      CarriesEach a h
        (λ u. u < 2 ^ 32)
        (Encode.encode_varint32 wr)
        (Decode.decode_varint32 rd)
        (Decode.decode_varint32 source_reader)
        Size.sizeof_varint32
  uint32-CarriesEach = record {
    wire = varint_bytes;
    writes = λ u le. Values.varint32-Writes a u le;
    sized = λ u le. Laws.sizeof_varint32_lem u le;
    decodes = λ u le.
        let low : u % 2 ^ 32 ≡ u = omega arith in
        rw low at (decode_varint32-Decodes {E = E} u (omega arith));
    takes_bytes = varint_bytes-takes;
    agrees = Refine.decode_varint32-Agree h;
  }

  pub sint32-CarriesEach :
      CarriesEach a h
        (InRange 32)
        (Encode.encode_sint32 wr)
        (Decode.decode_sint32 rd)
        (Decode.decode_sint32 source_reader)
        Size.sizeof_sint32
  sint32-CarriesEach = record {
    wire = λ i. varint_bytes (zigzag_value i);
    writes = λ i le. Values.sint32-Writes a i le;
    sized = λ i le. Laws.sizeof_sint32_lem i le;
    decodes = λ i le. Read.sint32-Decodes i le;
    takes_bytes = λ i. varint_bytes-takes (zigzag_value i);
    agrees = Refine.decode_sint32-Agree h;
  }

  -- A value that is carried is carried into a destination, whatever that held.
  pub store-CarriesInto :
      {A : Type 0} {encode : M (PbEncoder W) F (Unit {0})}
      {decode : M (PbDecoder R) (DecodeError E) A}
      {plain : M (PbDecoder (Source E)) (DecodeError E) A} {size : ℕ} {x : A}
      → Carries a h encode decode plain size x
      → (old : A) → CarriesInto a h encode (store rd decode) (store source_reader plain) size old x
  store-CarriesInto {x} c old = record {
    bytes = c.bytes;
    writes = c.writes;
    sized = c.sized;
    fills = record {
      reads = λ rest fault idx ignore. rw (c.decodes.reads rest fault idx ignore) refl;
    };
    agrees =
        Over.>>=-Agree h (Over.on_decoder-Agree h c.agrees)
          (λ y. Over.on_dest-Agree h (λ old. (ok tt, y)));
  }
