-- ===== src/Message/Laws.antt =====
-- Length-delimited messages.
use micropb.Prelude.{ℕ, ◌+◌, ◌-◌, ◌%◌, ◌^◌, ◌<◌, ◌≡◌, refl, ◌∙◌, arith, List, ◌++◌, length}
use micropb.Prelude.{length-append, append_assoc, true, ◌==◌, eq→==}
use micropb.Writer.{PbWrite}
use micropb.Encode.Bytes.{varint_bytes}
use micropb.Encode.Output.{IsAppender, >>-Writes}
use micropb.Encode.Values.{varint32-Writes}
use micropb.Size.{sizeof_len_record}
use micropb.Size.Laws.{sizeof_varint32_lem}
use micropb.Reader.{PbRead}
use micropb.Reader.Source.{source_reader}
use micropb.Reader.Laws.{IsReader}
use micropb.Decode.Into.Agree.{Agree, decode_len_record-Agree}
use micropb.Decode.Into.Expect.{Fills}
use micropb.Decode.Into.Loop.{decode_len_record_lem}
use micropb.Message.{MessageDecode, MessageEncode, decode_len_delimited, encode_len_delimited}
use micropb.RoundTrip.{CarriesInto}

module _ {E Msg : Type 0} (m : MessageDecode (source_reader {E = E}) Msg) where
  -- A message that reads its own bytes reads them behind their length too.
  pub len_delimited-Fills :
      (bytes : List ℕ) (s t : Msg)
      → length bytes < 2 ^ 32
      → Fills (m.decode (length bytes)) bytes s tt t
      → Fills (decode_len_delimited source_reader m) (varint_bytes (length bytes) ++ bytes) s tt t
  unfolding decode_len_delimited
  len_delimited-Fills bytes s t low h = record {
    reads = λ rest fault idx ignore.
        let len = length bytes in
        let start = idx + length (varint_bytes len) in
        let all : idx + length (varint_bytes len ++ bytes) ≡ start + len =
          omega (arith, length-append (varint_bytes len) bytes) in
        let whole : ((start + len - start) == len) ≡ true = eq→== _ _ (omega arith) in
        rw (append_assoc, all)
          (decode_len_record_lem (λ len before. m.decode len) len low (bytes ++ rest) rest fault idx
              (start + len) ignore s t tt (h.reads rest fault start ignore)
            ∙ rw whole refl);
  }

module _ {W F R E Msg : Type 0} {wr : PbWrite W F} {rd : PbRead R E} (a : IsAppender wr)
    (h : IsReader rd) (me : MessageEncode wr Msg) (md : MessageDecode rd Msg)
    (plain : MessageDecode (source_reader {E = E}) Msg) where
  -- If a message of less than 2 ^ 32 bytes writes as many bytes as `compute_size` says and `decode`
  -- reads them back when told that length, then `encode_len_delimited` writes `sizeof_len_record`
  -- of that size and `decode_len_delimited` reads the message back, over any writer and reader.
  pub len_delimited-CarriesInto :
      (msg s t : Msg)
      → me.compute_size msg < 2 ^ 32
      → CarriesInto a h
          (me.encode msg)
          (md.decode (me.compute_size msg))
          (plain.decode (me.compute_size msg))
          (me.compute_size msg)
          s
          t
      → ((len : ℕ) → Agree h (md.decode len) (plain.decode len))
      → CarriesInto a h
          (encode_len_delimited wr me msg)
          (decode_len_delimited rd md)
          (decode_len_delimited source_reader plain)
          (sizeof_len_record (me.compute_size msg))
          s
          t
  unfolding encode_len_delimited decode_len_delimited sizeof_len_record
  len_delimited-CarriesInto msg s t low c k =
      let size = me.compute_size msg in
      let whole : size % 2 ^ 32 ≡ size = omega arith in
      record {
        bytes = varint_bytes size ++ c.bytes;
        writes = rw whole (>>-Writes a (varint32-Writes a size low) c.writes);
        sized = rw whole (
            omega (
              arith,
              c.sized,
              sizeof_varint32_lem size low,
              length-append (varint_bytes size) c.bytes,
            ));
        fills =
            rw c.sized
              (len_delimited-Fills plain c.bytes s t (rw c.sized at low) (rw c.sized at c.fills));
        agrees = decode_len_record-Agree h (λ len before. k len);
      }
