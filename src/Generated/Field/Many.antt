-- ===== src/Generated/Field/Many.antt =====
-- Repeated fields whose elements cannot be packed: strings, bytes and messages.
use micropb.Prelude.{ℕ, ◌+◌, ◌≡◌, refl, sym, ◌∙◌, arith, true, false}
use micropb.Prelude.{List, [], ◌∷◌, ◌++◌, length, length-append, append-nil, append_assoc, All}
use micropb.Prelude.{Option, none, eq→==}
use micropb.Wire.{from_parts, explicit}
use micropb.Writer.{PbWrite}
use micropb.Encode.{encode_each}
use micropb.Encode.Output.{IsAppender, Writes, pure-Writes, >>-Writes}
use micropb.Size.{sizeof_packed}
use micropb.Reader.{PbRead}
use micropb.Reader.Source.{source_reader}
use micropb.Reader.Laws.{IsReader}
use micropb.Container.{PbVec, IsVec}
use micropb.Decode.Into.Expect.{Fills}
use micropb.Decode.Into.Packed.{takes, takes_first, takes_rest}
use micropb.TypeSpec.{TypeSpec, fixed_size}
use micropb.TypeSpec as Integers
use micropb.Generated.Types.{Paths, RustType, type_default, value_size, decode_val}
use micropb.Generated.Types.{decode_mut}
use micropb.Generated.Parts.{on_local, tag_len}
use micropb.Generated.Field.{Field, repeated, field_part, push_value, encode_tagged}
use micropb.Generated.Field.{decode_branch, repeated_branch, encode_field, field_size}
use micropb.Generated.Field.{field_wire_type}
use micropb.Generated.Field.Values.{IsTag, tag_len_lem, tagged-Writes, on_value-Fills, ValueCarries}
use micropb.Generated.Field.Values.{AllLike}
use micropb.Generated.Field.Sizes.{fixed_size_lem, repeated_len_lem}
use micropb.Generated.Message.Records.{Records, no_more, then_more, tag_bytes}
use micropb.Generated.Message.Carried.{PartCarries}

module _ {P W F R E : Type 0} {wr : PbWrite W F} {rd : PbRead R E} (a : IsAppender wr)
    (h : IsReader rd) (paths : Paths P)
    (Like : (t : TypeSpec P) → RustType paths t → RustType paths t → Type 0) (t : TypeSpec P)
    (path : P) (max : Option ℕ)
    (law : IsVec (paths.vec_at path max (RustType paths t)).pb_vec) where
  abbrev vec : PbVec (paths.vec_at path max (RustType paths t)).Carrier (RustType paths t)
  vec = (paths.vec_at path max (RustType paths t)).pb_vec

  local-Fills :
      {bytes : List ℕ} (y : RustType paths t)
      (s : (paths.vec_at path max (RustType paths t)).Carrier)
      → Fills {E = E} (decode_mut paths source_reader t explicit) bytes (type_default paths t) tt y
      → takes vec law 1 s ≡ true
      → Fills {E = E}
          (on_local source_reader
            (type_default paths t)
            (decode_mut paths source_reader t explicit)
            (push_value paths source_reader vec))
          bytes
          s
          tt
          (vec.pb_push s y).1
  local-Fills y s f room = record {
    reads =
        λ rest fault idx ignore. rw (f.reads rest fault idx ignore, (law.pushes s y room).0) refl;
  }

  module _ (n i : ℕ) (k : IsTag n (Integers.wire_type t))
      (not_packable : decode_val paths (source_reader {E = E}) t ≡ none) where
    abbrev many_field : Field P
    many_field = record { num = n; ftype = repeated t false path max; hazzer_index = i }

    one-Fills :
        (has : List ℕ) {bytes : List ℕ} (y : RustType paths t)
        (s : (paths.vec_at path max (RustType paths t)).Carrier)
        → Fills {E = E}
            (decode_mut paths source_reader t explicit)
            bytes
            (type_default paths t)
            tt
            y
        → takes vec law 1 s ≡ true
        → Fills {E = E}
            (decode_branch paths source_reader i
              (repeated t false path max)
              (from_parts n (Integers.wire_type t)))
            bytes
            (has, s)
            tt
            (has, (vec.pb_push s y).1)
    unfolding decode_branch repeated_branch
    one-Fills has y s f room = rw not_packable (on_value-Fills has (local-Fills y s f room))

    -- What the elements write, and the vector that their records are read into.
    record ManyCarry (has : List ℕ) (elems : List (RustType paths t))
        (s : (paths.vec_at path max (RustType paths t)).Carrier) : Type 0 where
      bytes : List ℕ
      writes :
          Writes a
            (encode_each wr elems (encode_tagged paths wr n (repeated t false path max) t))
            bytes
      sized :
          sizeof_packed elems (λ x. tag_len n (Integers.wire_type t) + value_size paths t x)
          ≡ length bytes
      result : (paths.vec_at path max (RustType paths t)).Carrier
      added : List (RustType paths t)
      alike : AllLike a h paths Like t elems added
      shown : vec.deref result ≡ vec.deref s ++ added
      records : Records E (field_part paths many_field) bytes (has, s) (has, result)

    many_lem :
        (has : List ℕ) (elems : List (RustType paths t))
        (s : (paths.vec_at path max (RustType paths t)).Carrier)
        → All (λ x. ValueCarries a h paths Like t explicit x (type_default paths t)) elems
        → takes vec law (length elems) s ≡ true
        → ManyCarry has elems s
    unfolding encode_each sizeof_packed field_wire_type
    many_lem has [] s c room = record {
      bytes = [];
      writes = pure-Writes a;
      sized = refl;
      result = s;
      added = [];
      alike = tt;
      shown = sym (append-nil _);
      records = no_more (has, s);
    }
    many_lem has (x ∷ elems) s (v, c) room =
        let w = Integers.wire_type t in
        let same : 1 + length elems ≡ length (x ∷ elems) = omega arith in
        let first = rw (sym same) at room in
        let one = takes_first vec law (length elems) s first in
        let r =
          many_lem has elems (vec.pb_push s v.read_back).1 c
            (takes_rest vec law v.read_back (length elems) s first) in
        record {
          bytes = (tag_bytes n w ++ v.carried.bytes) ++ r.bytes;
          writes = >>-Writes a (tagged-Writes a n w k v.carried.writes) r.writes;
          sized = omega (
            arith,
            tag_len_lem n w k,
            v.carried.sized,
            r.sized,
            length-append (tag_bytes n w) v.carried.bytes,
            length-append (tag_bytes n w ++ v.carried.bytes) r.bytes,
          );
          result = r.result;
          added = v.read_back ∷ r.added;
          alike = (v.like, r.alike);
          shown =
              r.shown
              ∙ rw (law.pushes s v.read_back one).1
                  (append_assoc (vec.deref s) (v.read_back ∷ []) r.added);
          records =
              then_more k.positive k.low k.kind (eq→== n n refl)
                (one-Fills has v.read_back s v.carried.fills one) r.records;
        }

    -- A repeated field whose type cannot be packed, with elements that are each carried from the
    -- default and a vector that has room for them, is read back by one record for each element,
    -- appended in order to what the vector holds.
    pub many-Carries :
        (msg_has has : List ℕ) (x old : (paths.vec_at path max (RustType paths t)).Carrier)
        → All (λ e. ValueCarries a h paths Like t explicit e (type_default paths t)) (vec.deref x)
        → takes vec law (length (vec.deref x)) old ≡ true
        → (y : (paths.vec_at path max (RustType paths t)).Carrier) × (added : List
            (RustType paths t))
          × AllLike a h paths Like t (vec.deref x) added
          × (vec.deref y ≡ vec.deref old ++ added)
          × PartCarries a E (field_part paths many_field) (msg_has, x) (has, old) (has, y)
    unfolding encode_field field_size field_wire_type
    many-Carries msg_has has x old c room =
        let r = many_lem has (vec.deref x) old c room in
        (
          r.result,
          r.added,
          r.alike,
          r.shown,
          record {
            bytes = r.bytes;
            writes = r.writes;
            sized =
                repeated_len_lem (value_size paths t) _ (fixed_size t) (fixed_size_lem paths t)
                  (vec.deref x)
                ∙ r.sized;
            records = r.records;
          },
        )
