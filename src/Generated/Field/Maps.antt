-- ===== src/Generated/Field/Maps.antt =====
-- Map fields: one record for each pair.
use mathlib.Core.List.{Permᴰ}
use micropb.Prelude.{
  ℕ, ◌+◌, ◌^◌, ◌<◌, ◌≡◌, refl, sym, arith, List, [], ◌∷◌, ◌++◌, length, length-append,
}
use micropb.Prelude.{All, Option, some, eq→==}
use micropb.Wire.{from_parts, explicit, wire_type_len}
use micropb.Writer.{PbWrite}
use micropb.Encode.{encode_each, encode_map_elem}
use micropb.Encode.Output.{IsAppender, Writes, pure-Writes, >>-Writes}
use micropb.Size.{sizeof_packed, sizeof_map_elem, sizeof_len_record}
use micropb.Reader.{PbRead}
use micropb.Reader.Source.{source_reader}
use micropb.Reader.Laws.{IsReader}
use micropb.Container.{PbMap}
use micropb.Container.Maps.{
  IsMap, Absent, DistinctKeys, AllNew, HasRoom, HasRoom-first, HasRoom-rest,
}
use micropb.Container.Maps.{insert_all, insert_all_lem, AllNew-insert}
use micropb.Decode.Into.{decode_map_elem, on_decoder}
use micropb.Monad.{◌>>=◌}
use micropb.Decode.Into.Expect.{Fills}
use micropb.RoundTrip.{Carries, CarriesInto}
use micropb.RoundTrip.MapElem.{map_elem-Carries}
use micropb.TypeSpec.{TypeSpec}
use micropb.TypeSpec as Integers
use micropb.Generated.Types.{Paths, RustType, type_default, value_size, encode_value, decode_mut}
use micropb.Generated.Field.{Field, map_field, field_part, encode_map, insert_pair, decode_branch}
use micropb.Generated.Field.{encode_field, field_size}
use micropb.Generated.Parts.{tag_len}
use micropb.Generated.Field.Values.{IsTag, tag_len_lem, tagged-Writes, on_value-Fills}
use micropb.Generated.Message.Records.{Records, no_more, then_more, tag_bytes}
use micropb.Generated.Message.Carried.{PartCarries}

module _ {P W F R E : Type 0} {wr : PbWrite W F} {rd : PbRead R E} (a : IsAppender wr)
    (h : IsReader rd) (paths : Paths P) (key val : TypeSpec P) (path : P) (max : Option ℕ)
    (law : IsMap (paths.map_at path max (RustType paths key) (RustType paths val)).pb_map) (n i : ℕ)
    (k : IsTag n wire_type_len) (key_kind : Integers.wire_type key < 8)
    (val_kind : Integers.wire_type val < 8) where
  abbrev Pair : Type 0
  Pair = RustType paths key × RustType paths val

  abbrev map :
      PbMap
        (paths.map_at path max (RustType paths key) (RustType paths val)).Carrier
        (RustType paths key)
        (RustType paths val)
  map = (paths.map_at path max (RustType paths key) (RustType paths val)).pb_map

  abbrev pair_size : Pair → ℕ
  pair_size p = sizeof_map_elem p.0 p.1 (value_size paths key) (value_size paths val)

  abbrev the_field : Field P
  the_field = record { num = n; ftype = map_field key val path max; hazzer_index = i }

  -- The key and the value are each read back from their defaults.
  pub record PairCarries (p : Pair) : Type 0 where
    pub key_carried :
        CarriesInto a h
          (encode_value paths wr key p.0)
          (decode_mut paths rd key explicit)
          (decode_mut paths (source_reader {E = E}) key explicit)
          (value_size paths key p.0)
          (type_default paths key)
          p.0
    pub val_carried :
        CarriesInto a h
          (encode_value paths wr val p.1)
          (decode_mut paths rd val explicit)
          (decode_mut paths (source_reader {E = E}) val explicit)
          (value_size paths val p.1)
          (type_default paths val)
          p.1
    pub low : pair_size p < 2 ^ 32

  pair_lem :
      (p : Pair)
      → PairCarries p
      → Carries a h
          (encode_map_elem wr
            (pair_size p)
            p.0
            (Integers.wire_type key)
            p.1
            (Integers.wire_type val)
            (encode_value paths wr key)
            (encode_value paths wr val))
          (decode_map_elem rd
            (type_default paths key)
            (type_default paths val)
            (decode_mut paths rd key explicit)
            (decode_mut paths rd val explicit))
          (decode_map_elem source_reader
            (type_default paths key)
            (type_default paths val)
            (decode_mut paths source_reader key explicit)
            (decode_mut paths source_reader val explicit))
          (sizeof_len_record (pair_size p))
          (some (p.0, p.1))
  pair_lem p c =
      map_elem-Carries a h (encode_value paths wr key) (encode_value paths wr val)
        (value_size paths key) (value_size paths val) p.0 (type_default paths key) p.1
        (type_default paths val) (Integers.wire_type key) (Integers.wire_type val) key_kind val_kind
        c.key_carried c.val_carried c.low

  module _ (p : Pair) (c : PairCarries p)
      (s : (paths.map_at path max (RustType paths key) (RustType paths val)).Carrier)
      (new : Absent p.0 (map.pb_iter s)) (room : HasRoom map law 1 s) where
    inserted-Fills :
        Fills {E = E}
          (on_decoder source_reader (
              decode_map_elem source_reader
                (type_default paths key)
                (type_default paths val)
                (decode_mut paths source_reader key explicit)
                (decode_mut paths source_reader val explicit))
            >>= insert_pair paths source_reader path max key val)
          (pair_lem p c).bytes
          s
          tt
          (map.pb_insert s p.0 p.1).1
    unfolding insert_pair
    inserted-Fills = record {
      reads = λ rest fault idx ignore.
          rw
            ((pair_lem p c).decodes.reads rest fault idx ignore, (law.inserts s p.0 p.1 new room).0)
            refl;
    }

    pair-Fills :
        (has : List ℕ)
        → Fills {E = E}
            (decode_branch paths source_reader i
              (map_field key val path max)
              (from_parts n wire_type_len))
            (pair_lem p c).bytes
            (has, s)
            tt
            (has, (map.pb_insert s p.0 p.1).1)
    unfolding decode_branch
    pair-Fills has = on_value-Fills has inserted-Fills

  -- What the pairs write, and the map that their records are read into.
  record MapCarry (has : List ℕ) (pairs : List Pair)
      (s : (paths.map_at path max (RustType paths key) (RustType paths val)).Carrier) : Type 0 where
    bytes : List ℕ
    writes : Writes a (encode_map paths wr n key val pairs) bytes
    sized :
        sizeof_packed pairs (λ p. sizeof_len_record (pair_size p) + tag_len n wire_type_len)
        ≡ length bytes
    records :
        Records E (field_part paths the_field) bytes (has, s) (has, insert_all map law pairs s)

  pairs_lem :
      (has : List ℕ) (pairs : List Pair)
      (s : (paths.map_at path max (RustType paths key) (RustType paths val)).Carrier)
      → All PairCarries pairs
      → DistinctKeys pairs
      → AllNew map law pairs s
      → HasRoom map law (length pairs) s
      → MapCarry has pairs s
  unfolding encode_each sizeof_packed
  pairs_lem has [] s c d new room = record {
    bytes = [];
    writes = pure-Writes a;
    sized = refl;
    records = no_more (has, s);
  }
  pairs_lem has (p ∷ pairs) s (v, c) d new room =
      let same : 1 + length pairs ≡ length (p ∷ pairs) = omega arith in
      let first = rw (sym same) at room in
      let one = HasRoom-first map law (length pairs) s first in
      let e = pair_lem p v in
      let r =
        pairs_lem has pairs (map.pb_insert s p.0 p.1).1 c d.1
          (AllNew-insert map law s p.0 p.1 new.0 one pairs d.0 new.1)
          (HasRoom-rest map law s p.0 p.1 new.0 one (length pairs) first) in
      record {
        bytes = (tag_bytes n wire_type_len ++ e.bytes) ++ r.bytes;
        writes = >>-Writes a (tagged-Writes a n wire_type_len k e.writes) r.writes;
        sized = omega (
          arith,
          tag_len_lem n wire_type_len k,
          e.sized,
          r.sized,
          length-append (tag_bytes n wire_type_len) e.bytes,
          length-append (tag_bytes n wire_type_len ++ e.bytes) r.bytes,
        );
        records =
            then_more k.positive k.low k.kind (eq→== n n refl) (pair-Fills p v s new.0 one has)
              r.records;
      }

  -- A map field whose pairs are each carried from the defaults of their types, with distinct keys
  -- that are new to a map that has room for them, is written as one record for each pair, in as
  -- many bytes as `field_size` says, and read back into a map that shows these pairs and the ones
  -- that were there, in some order.
  pub map-Carries :
      (msg_has has : List ℕ)
      (x old : (paths.map_at path max (RustType paths key) (RustType paths val)).Carrier)
      → All PairCarries (map.pb_iter x)
      → DistinctKeys (map.pb_iter x)
      → AllNew map law (map.pb_iter x) old
      → HasRoom map law (length (map.pb_iter x)) old
      → (y : (paths.map_at path max (RustType paths key) (RustType paths val)).Carrier) × Permᴰ
          (map.pb_iter y)
          (map.pb_iter x ++ map.pb_iter old)
        × PartCarries a E (field_part paths the_field) (msg_has, x) (has, old) (has, y)
  unfolding encode_field field_size
  map-Carries msg_has has x old c d new room =
      let r = pairs_lem has (map.pb_iter x) old c d new room in
      (
        insert_all map law (map.pb_iter x) old,
        insert_all_lem map law (map.pb_iter x) old d new room,
        record { bytes = r.bytes; writes = r.writes; sized = r.sized; records = r.records },
      )
