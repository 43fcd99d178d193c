-- ===== src/RoundTrip/Packed.antt =====
-- Packed repeated fields: `encode_packed`, `sizeof_packed` and `decode_packed`.
use mathlib.Core.List.{flat_map}
use micropb.Prelude.{All, ℕ, ◌%◌, ◌^◌, ◌<◌, ◌≡◌, arith, List, ◌++◌, length, length-append, true}
use micropb.Monad.{M}
use micropb.Writer.{PbWrite}
use micropb.Encode.{PbEncoder, encode_packed}
use micropb.Encode.Bytes.{varint_bytes}
use micropb.Encode.Output.{IsAppender}
use micropb.Encode.Values.{packed-Writes}
use micropb.Size.{sizeof_packed, sizeof_len_record}
use micropb.Size.Laws.{sizeof_packed_lem, sizeof_varint32_lem}
use micropb.Reader.{PbRead}
use micropb.Reader.Source.{Source, source_reader}
use micropb.Reader.Laws.{IsReader}
use micropb.Container.{PbVec, IsVec}
use micropb.Decode.{PbDecoder, DecodeError}
use micropb.Decode.Into.{decode_packed}
use micropb.Decode.Into.Agree.{decode_packed-Agree}
use micropb.Decode.Into.Packed.{push_all, push_all_lem, takes, packed-Fills}
use micropb.RoundTrip.{CarriesEach, CarriesInto}

module _ {W F R E S T : Type 0} {wr : PbWrite W F} {rd : PbRead R E} (a : IsAppender wr)
    (h : IsReader rd) {vec : PbVec S T} (law : IsVec vec)
    {encoder : T → M (PbEncoder W) F (Unit {0})} {decoder : M (PbDecoder R) (DecodeError E) T}
    {plain : M (PbDecoder (Source E)) (DecodeError E) T} {sizer : T → ℕ} {P : T → Type 0}
    (c : CarriesEach a h P encoder decoder plain sizer) where
  -- For elements that are carried in a byte or more each, a size below 2 ^ 32 and a vector with
  -- room for them, `encode_packed` given `sizeof_packed` writes `sizeof_len_record` of that many
  -- bytes, and `decode_packed` over any reader appends exactly these elements to what the vector
  -- holds.
  pub packed-CarriesInto :
      (elems : List T) (s : S)
      → All P elems
      → sizeof_packed elems sizer < 2 ^ 32
      → takes vec law (length elems) s ≡ true
      → (t : S) × (vec.deref t ≡ vec.deref s ++ elems)
        × CarriesInto a h
            (encode_packed wr (sizeof_packed elems sizer) elems encoder)
            (decode_packed rd vec decoder)
            (decode_packed source_reader vec plain)
            (sizeof_len_record (sizeof_packed elems sizer))
            s
            t
  unfolding sizeof_len_record
  packed-CarriesInto elems s ok_elems low room =
      let len = sizeof_packed elems sizer in
      let counted : len ≡ length (flat_map c.wire elems) =
        sizeof_packed_lem P sizer c.wire c.sized elems ok_elems in
      let whole : len % 2 ^ 32 ≡ len = omega arith in
      (
        push_all vec law elems s,
        push_all_lem vec law elems s room,
        record {
          bytes = varint_bytes len ++ flat_map c.wire elems;
          writes = rw whole at (packed-Writes a P encoder c.wire c.writes len elems ok_elems);
          sized = rw whole (
              omega (
                arith,
                counted,
                sizeof_varint32_lem len low,
                length-append (varint_bytes len) (flat_map c.wire elems),
              ));
          fills = rw counted (
              packed-Fills vec law plain c.wire P c.decodes c.takes_bytes elems s ok_elems
                (rw counted at low) room);
          agrees = decode_packed-Agree h vec c.agrees;
        },
      )
