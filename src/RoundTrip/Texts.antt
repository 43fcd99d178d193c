-- ===== src/RoundTrip/Texts.antt =====
-- `encode_string` and `encode_bytes` with the decoder's calls for them.
use micropb.Prelude.{ℕ, ◌%◌, ◌^◌, ◌<◌, ◌≡◌, refl, arith, true, false, List, ◌++◌, length}
use micropb.Prelude.{◌==◌, ◌&&◌}
use micropb.Monad.{ok}
use micropb.Wire.{Presence}
use micropb.Writer.{PbWrite}
use micropb.Encode.{encode_string, encode_bytes}
use micropb.Encode.Bytes.{varint_bytes}
use micropb.Encode.Output.{IsAppender, holds}
use micropb.Encode.Values.{bytes-Writes}
use micropb.Size.{sizeof_len_record}
use micropb.Size.Laws.{sizeof_len_record_lem}
use micropb.Reader.{PbRead}
use micropb.Reader.Source.{source_reader}
use micropb.Reader.Laws.{IsReader}
use micropb.Container.{PbString, PbVec, IsStorage}
use micropb.Utf8.{is_utf8}
use micropb.Decode.Into.{decode_string, decode_bytes, is_implicit}
use micropb.Decode.Into.Agree.{decode_string-Agree, decode_bytes-Agree}
use micropb.Decode.Into.Expect.{>>=-Fills, on_decoder-Fills}
use micropb.Decode.Into.Storage.{refill-Fills, refilled, refilled_lem, prefix-Decodes}
use micropb.Decode.Into.Texts.{utf8_test}
use micropb.RoundTrip.{CarriesInto}

module _ {W F R E S : Type 0} {wr : PbWrite W F} {rd : PbRead R E} (a : IsAppender wr)
    (h : IsReader rd) where
  -- UTF-8 bytes of fewer than 2 ^ 32 that the container has room for, not empty or of explicit
  -- presence, are written by `encode_string` in `sizeof_len_record` bytes, and `decode_string` puts
  -- exactly them in the container in place of what it held, over any writer and reader.
  pub string-CarriesInto :
      (string : PbString S) (law : IsStorage string.container string.deref string.pb_spare_cap)
      (presence : Presence) (bytes : List ℕ)
      → length bytes < 2 ^ 32
      → ((length bytes == 0) && is_implicit presence) ≡ false
      → is_utf8 bytes ≡ true
      → holds law.capacity (length bytes) ≡ true
      → (s : S)
      → (t : S) × (string.deref t ≡ bytes)
        × CarriesInto a h
            (encode_string wr bytes)
            (decode_string rd string presence)
            (decode_string source_reader string presence)
            (sizeof_len_record (length bytes))
            s
            t
  unfolding encode_string decode_string
  string-CarriesInto string law presence bytes low kept good room s =
      let whole : length bytes % 2 ^ 32 ≡ length bytes = omega arith in
      (
        refilled string.container string.pb_spare_cap law bytes s,
        refilled_lem string.container string.pb_spare_cap law bytes s room,
        record {
          bytes = varint_bytes (length bytes) ++ bytes;
          writes = rw whole at (bytes-Writes a bytes);
          sized = rw whole at (sizeof_len_record_lem bytes);
          fills = >>=-Fills _ (on_decoder-Fills (prefix-Decodes (length bytes) low) s) (
              rw kept (
                refill-Fills string.container string.pb_spare_cap law (λ w. utf8_test w) bytes s
                  (rw good refl) room));
          agrees = decode_string-Agree h string presence;
        },
      )

  -- Fewer than 2 ^ 32 bytes that the container has room for, not empty or of explicit presence, are
  -- written by `encode_bytes` in `sizeof_len_record` bytes, and `decode_bytes` puts exactly them in
  -- the container in place of what it held, over any writer and reader.
  pub bytes-CarriesInto :
      (vec : PbVec S ℕ) (law : IsStorage vec.container vec.deref vec.pb_spare_cap)
      (presence : Presence) (bytes : List ℕ)
      → length bytes < 2 ^ 32
      → ((length bytes == 0) && is_implicit presence) ≡ false
      → holds law.capacity (length bytes) ≡ true
      → (s : S)
      → (t : S) × (vec.deref t ≡ bytes)
        × CarriesInto a h
            (encode_bytes wr bytes)
            (decode_bytes rd vec presence)
            (decode_bytes source_reader vec presence)
            (sizeof_len_record (length bytes))
            s
            t
  unfolding decode_bytes
  bytes-CarriesInto vec law presence bytes low kept room s =
      let whole : length bytes % 2 ^ 32 ≡ length bytes = omega arith in
      (
        refilled vec.container vec.pb_spare_cap law bytes s,
        refilled_lem vec.container vec.pb_spare_cap law bytes s room,
        record {
          bytes = varint_bytes (length bytes) ++ bytes;
          writes = rw whole at (bytes-Writes a bytes);
          sized = rw whole at (sizeof_len_record_lem bytes);
          fills = >>=-Fills _ (on_decoder-Fills (prefix-Decodes (length bytes) low) s) (
              rw kept
                (refill-Fills vec.container vec.pb_spare_cap law (λ w. ok tt) bytes s refl room));
          agrees = decode_bytes-Agree h vec presence;
        },
      )
