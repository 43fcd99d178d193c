-- ===== src/RoundTrip/MapElem.antt =====
-- Map elements: `encode_map_elem`, `sizeof_map_elem` and `decode_map_elem`.
use micropb.Prelude.{ℕ, ◌+◌, ◌-◌, ◌%◌, ◌^◌, ◌<◌, ◌≡◌, refl, sym, arith, true, false, ◌==◌}
use micropb.Prelude.{List, [], ◌++◌, length, length-append, append_assoc, append-nil}
use micropb.Prelude.{Option, none, some, eq→==, leb, le→leb}
use micropb.Monad.{M}
use micropb.Wire.{from_parts, varint, field_num}
use micropb.Wire.Tags.{varint-from_parts, tag_parts}
use micropb.Writer.{PbWrite}
use micropb.Encode.{PbEncoder, encode_map_elem}
use micropb.Encode.Bytes.{varint_bytes}
use micropb.Encode.Output.{IsAppender, >>-Writes}
use micropb.Encode.Values.{varint32-Writes, tag-Writes}
use micropb.Size.{sizeof_map_elem, sizeof_len_record, sizeof_varint32}
use micropb.Size.Laws.{sizeof_varint32_lem}
use micropb.Reader.{PbRead}
use micropb.Reader.Source.{source_reader}
use micropb.Reader.Laws.{IsReader}
use micropb.Decode.{decode_tag}
use micropb.Decode.Expect.{Decodes}
use micropb.Decode.Values.{tag-Decodes}
use micropb.Decode.Into.{Into, map_round, decode_map_elem, read_while}
use micropb.Decode.Into.Agree.{decode_map_elem-Agree}
use micropb.Decode.Into.Expect.{Fills, on_decoder-Fills, >>=-Fills}
use micropb.Decode.Into.Loop.{Rounds, done, more, read_while-Rounds, decode_len_record_lem}
use micropb.RoundTrip.{Carries, CarriesInto}

-- The tag of a key or a value is one byte.
abbrev tag_byte : ℕ → ℕ → List ℕ
tag_byte n w = varint_bytes (varint (from_parts n w))

small_tag : (n w : ℕ) → n < 16 → w < 8 → varint (from_parts n w) < 128
small_tag n w h k = omega (arith, varint-from_parts n w (omega arith) k)

tag_byte_size : (n w : ℕ) → n < 16 → w < 8 → length (tag_byte n w) ≡ 1
unfolding sizeof_varint32
tag_byte_size n w h k =
    let small : leb (varint (from_parts n w)) 0x7f ≡ true =
      le→leb (varint (from_parts n w)) 0x7f (omega (arith, small_tag n w h k)) in
    rw small at
      (sym (sizeof_varint32_lem (varint (from_parts n w)) (omega (arith, small_tag n w h k))))

tag_byte-Decodes :
    {E : Type 0} (n w : ℕ)
    → n < 16
    → w < 8
    → Decodes {E = E} (decode_tag source_reader) (tag_byte n w) (from_parts n w)
unfolding from_parts varint
tag_byte-Decodes n w h k = tag-Decodes (varint (from_parts n w)) (omega (arith, small_tag n w h k))

map_body_size :
    (kw vw : ℕ) (kb vb : List ℕ)
    → kw < 8
    → vw < 8
    → length ((tag_byte 1 kw ++ kb) ++ ((tag_byte 2 vw ++ vb) ++ [])) ≡ 2 + length kb + length vb
map_body_size kw vw kb vb hk hv = omega (
  arith,
  tag_byte_size 1 kw (omega arith) hk,
  tag_byte_size 2 vw (omega arith) hv,
  length-append (tag_byte 1 kw ++ kb) ((tag_byte 2 vw ++ vb) ++ []),
  length-append (tag_byte 2 vw ++ vb) [],
  length-append (tag_byte 1 kw) kb,
  length-append (tag_byte 2 vw) vb,
)

module _ {E K V : Type 0} (kd : K) (vd : V) (ku : Into (source_reader {E = E}) K (Unit {0}))
    (vu : Into (source_reader {E = E}) V (Unit {0})) where
  key_round-Fills :
      (w : ℕ) (bytes : List ℕ) (k : K) (v : Option V)
      → w < 8
      → Fills ku bytes kd tt k
      → Fills (map_round source_reader kd vd ku vu) (tag_byte 1 w ++ bytes) (none, v) tt (some k, v)
  unfolding map_round
  key_round-Fills w bytes k v h f =
      let first : (field_num (from_parts 1 w) == 1) ≡ true =
        eq→== _ _ (tag_parts 1 w (omega arith) h).0 in
      >>=-Fills _ (on_decoder-Fills (tag_byte-Decodes 1 w (omega arith) h) (none, v)) (
        rw first
          (record { reads = λ rest fault idx ignore. rw (f.reads rest fault idx ignore) refl }))

  val_round-Fills :
      (w : ℕ) (bytes : List ℕ) (v : V) (k : Option K)
      → w < 8
      → Fills vu bytes vd tt v
      → Fills (map_round source_reader kd vd ku vu) (tag_byte 2 w ++ bytes) (k, none) tt (k, some v)
  unfolding map_round
  val_round-Fills w bytes v k h f =
      let num = (tag_parts 2 w (omega arith) h).0 in
      let other : (field_num (from_parts 2 w) == 1) ≡ false = rw num refl in
      let second : (field_num (from_parts 2 w) == 2) ≡ true = rw num refl in
      >>=-Fills _ (on_decoder-Fills (tag_byte-Decodes 2 w (omega arith) h) (k, none)) (
        rw (other, second)
          (record { reads = λ rest fault idx ignore. rw (f.reads rest fault idx ignore) refl }))

  -- The two fields of a map element are read in the order in which they are written.
  map_elem-Decodes :
      (kw vw : ℕ) (kb vb : List ℕ) (k : K) (v : V)
      → kw < 8
      → vw < 8
      → Fills ku kb kd tt k
      → Fills vu vb vd tt v
      → 2 + length kb + length vb < 2 ^ 32
      → Decodes
          (decode_map_elem source_reader kd vd ku vu)
          (varint_bytes (2 + length kb + length vb)
            ++ ((tag_byte 1 kw ++ kb) ++ ((tag_byte 2 vw ++ vb) ++ [])))
          (some (k, v))
  unfolding decode_map_elem
  map_elem-Decodes kw vw kb vb k v hk hv fk fv low = record {
    reads = λ rest fault idx ignore.
        let body = (tag_byte 1 kw ++ kb) ++ ((tag_byte 2 vw ++ vb) ++ []) in
        let len = 2 + length kb + length vb in
        let body_size : length body ≡ len = map_body_size kw vw kb vb hk hv in
        let start = idx + length (varint_bytes len) in
        let all : idx + length (varint_bytes len ++ body) ≡ start + len =
          omega (arith, length-append (varint_bytes len) body, body_size) in
        let whole : ((start + len - start) == len) ≡ true = eq→== _ _ (omega arith) in
        let loop =
          read_while-Rounds rounds len len start start (omega (arith, body_size)) (omega arith)
            (omega (arith, body_size)) rest fault ignore in
        let ran =
          decode_len_record_lem
            (λ len before.
              read_while source_reader (map_round source_reader kd vd ku vu) len len before)
            len low (body ++ rest) rest fault idx (start + len) ignore (none, none) (some k, some v)
            tt (rw body_size at loop) in
        rw (append_assoc (varint_bytes len) body rest, all, ran, whole) refl;
  }
    where
      rounds :
          Rounds
            (map_round source_reader kd vd ku vu)
            ((tag_byte 1 kw ++ kb) ++ ((tag_byte 2 vw ++ vb) ++ []))
            (none, none)
            (some k, some v)
      rounds =
          more (key_round-Fills kw kb k none hk fk)
            (omega (arith, tag_byte_size 1 kw (omega arith) hk, length-append (tag_byte 1 kw) kb))
            (more (val_round-Fills vw vb v (some k) hv fv)
              (omega (arith, tag_byte_size 2 vw (omega arith) hv, length-append (tag_byte 2 vw) vb))
              (done (some k, some v)))

module _ {W F R E K V : Type 0} {wr : PbWrite W F} {rd : PbRead R E} (a : IsAppender wr)
    (h : IsReader rd) (key_encoder : K → M (PbEncoder W) F (Unit {0}))
    (val_encoder : V → M (PbEncoder W) F (Unit {0})) {key_update : Into rd K (Unit {0})}
    {val_update : Into rd V (Unit {0})} {plain_key : Into source_reader K (Unit {0})}
    {plain_val : Into source_reader V (Unit {0})} (key_sizer : K → ℕ) (val_sizer : V → ℕ) where
  -- For a key and a value that are carried into their defaults, wire types below 8 and a size below
  -- 2 ^ 32, `encode_map_elem` given `sizeof_map_elem` writes `sizeof_len_record` of that many bytes
  -- over any appending writer, and `decode_map_elem` reads the pair back over any reader that keeps
  -- the promises of `PbRead`.
  pub map_elem-Carries :
      (key key_default : K) (val val_default : V) (key_wtype val_wtype : ℕ)
      → key_wtype < 8
      → val_wtype < 8
      → CarriesInto a h (key_encoder key) key_update plain_key (key_sizer key) key_default key
      → CarriesInto a h (val_encoder val) val_update plain_val (val_sizer val) val_default val
      → sizeof_map_elem key val key_sizer val_sizer < 2 ^ 32
      → Carries a h
          (encode_map_elem wr
            (sizeof_map_elem key val key_sizer val_sizer)
            key
            key_wtype
            val
            val_wtype
            key_encoder
            val_encoder)
          (decode_map_elem rd key_default val_default key_update val_update)
          (decode_map_elem source_reader key_default val_default plain_key plain_val)
          (sizeof_len_record (sizeof_map_elem key val key_sizer val_sizer))
          (some (key, val))
  unfolding encode_map_elem sizeof_map_elem sizeof_len_record
  map_elem-Carries key kd val vd kw vw hk hv ck cv low =
      let len = 2 + key_sizer key + val_sizer val in
      let whole : len % 2 ^ 32 ≡ len = omega arith in
      let kt = tag_byte 1 kw in
      let vt = tag_byte 2 vw in
      let same_bytes : kt ++ (ck.bytes ++ (vt ++ cv.bytes))
          ≡ (kt ++ ck.bytes) ++ ((vt ++ cv.bytes) ++ []) =
        rw (append-nil (vt ++ cv.bytes)) (sym (append_assoc kt ck.bytes (vt ++ cv.bytes))) in
      record {
        bytes = varint_bytes len ++ ((kt ++ ck.bytes) ++ ((vt ++ cv.bytes) ++ []));
        writes =
            rw (whole, sym same_bytes)
              (>>-Writes a (varint32-Writes a len low) (
                >>-Writes a
                  (tag-Writes a (from_parts 1 kw) (omega (arith, small_tag 1 kw (omega arith) hk)))
                  (>>-Writes a ck.writes (
                    >>-Writes a
                      (tag-Writes a (from_parts 2 vw)
                        (omega (arith, small_tag 2 vw (omega arith) hv)))
                      cv.writes))));
        sized = rw whole (
            omega (
              arith,
              ck.sized,
              cv.sized,
              sizeof_varint32_lem len low,
              map_body_size kw vw ck.bytes cv.bytes hk hv,
              length-append (varint_bytes len) ((kt ++ ck.bytes) ++ ((vt ++ cv.bytes) ++ [])),
            ));
        decodes =
            rw (ck.sized, cv.sized)
              (map_elem-Decodes kd vd plain_key plain_val kw vw ck.bytes cv.bytes key val hk hv
                ck.fills cv.fills (rw (ck.sized, cv.sized) at low));
        agrees = decode_map_elem-Agree h kd vd ck.agrees cv.agrees;
      }
