-- ===== src/Generated/Field/Agree.antt =====
-- The branches of fields over a reader and over the bytes to come.
use micropb.Prelude.{ℕ, ◌≡◌, refl, Bool, Option, none, some}
use micropb.Prelude.{◌==◌}
use micropb.Monad.{Result, ok, err, out_of_fuel, go_on}
use micropb.Wire.{Tag, wire_type, wire_type_len, explicit, implicit}
use micropb.Reader.{PbRead}
use micropb.Reader.Source.{source_reader}
use micropb.Reader.Laws.{IsReader}
use micropb.Container.{PbVec}
use micropb.Decode.{Decoding, PbDecoder, DecodeError}
use micropb.Decode.Agree as Plain
use micropb.Decode.Into.{Into, get_or}
use micropb.Decode.Into.Agree as Over
use micropb.TypeSpec.{TypeSpec}
use micropb.Generated.Hazzer
use micropb.Generated.Types.{Paths, RustType, type_default, decode_val}
use micropb.Generated.Parts.{With, on_value, on_some, on_local, or_custom_field}
use micropb.Generated.Field.{FieldType, Field, field_part, decode_branch, repeated_branch}
use micropb.Generated.Field.{insert_pair, map_field, single, optional, hazzer, option, repeated}
use micropb.Generated.Field.{custom, push_value}
use micropb.Generated.Message.Carried.{PartAgrees}
use micropb.Generated.Agree.{PathsAgree, decode_mut-Agree, decode_val-Agree, SameVal}

module _ {P R E : Type 0} {rd : PbRead R E} (h : IsReader rd) (paths : Paths P)
    (k : PathsAgree h paths) where
  pub on_value-Agree :
      {A B : Type 0} {m : Into rd A B} {s : Into source_reader A B}
      → Over.Agree h m s
      → Over.Agree h {S = With A} (on_value rd m) (on_value source_reader s)
  on_value-Agree a = record { same = λ d x. rw (a.same d x.1) }

  on_some-Agree :
      {A B : Type 0} (default : A) {m : Into rd A B} {s : Into source_reader A B}
      → Over.Agree h m s
      → Over.Agree h {S = Option A} (on_some rd default m) (on_some source_reader default s)
  on_some-Agree default a = record { same = λ d x. rw (a.same d (get_or default x)) }

  push_value-Agree :
      {S T : Type 0} (vec : PbVec S T) (val : T)
      → Over.Agree h (push_value paths rd vec val) (push_value paths source_reader vec val)
  push_value-Agree vec val = record { same = λ d x. refl }

  local-same :
      {A S : Type 0} {f : A → Into rd S (Unit {0})} {g : A → Into source_reader S (Unit {0})}
      → ((val : A) → Over.Agree h (f val) (g val))
      → (r : Result (DecodeError E) (Unit {0})) (d : PbDecoder R) (val : A) (x : S)
      → go_on (λ u. g val) r (Plain.abstract h d, x) ≡ Over.shown h (go_on (λ u. f val) r (d, x))
  local-same k (ok u) d val x = (k val).same d x
  local-same k (err e) d val x = refl
  local-same k out_of_fuel d val x = refl

  on_local-Agree :
      {A S : Type 0} (default : A) {m : Into rd A (Unit {0})} {s : Into source_reader A (Unit {0})}
      {f : A → Into rd S (Unit {0})} {g : A → Into source_reader S (Unit {0})}
      → Over.Agree h m s
      → ((val : A) → Over.Agree h (f val) (g val))
      → Over.Agree h (on_local rd default m f) (on_local source_reader default s g)
  on_local-Agree default {m} a b = record {
    same = λ d x.
        rw (a.same d default)
          (local-same b (m (d, default)).0 (m (d, default)).1.0 (m (d, default)).1.1 x);
  }

  repeated_by-Agree :
      {S : Type 0} (t : TypeSpec P) (vec : PbVec S (RustType paths t))
      (m : Option (Decoding rd (RustType paths t)))
      (s : Option (Decoding source_reader (RustType paths t)))
      → SameVal h paths k m s
      → (read_tag : Tag)
      → Over.Agree h
          (repeated_branch paths rd t vec m read_tag)
          (repeated_branch paths source_reader t vec s read_tag)
  unfolding repeated_branch
  repeated_by-Agree t vec none none a read_tag =
      on_local-Agree (type_default paths t) (decode_mut-Agree h paths k t explicit)
        (push_value-Agree vec)
  repeated_by-Agree t vec none (some s) a read_tag = absurd a
  repeated_by-Agree t vec (some m) none a read_tag = absurd a
  repeated_by-Agree t vec (some m) (some s) a read_tag =
      Over.if-Agree h (wire_type read_tag == wire_type_len) (Over.decode_packed-Agree h vec a)
        (Over.>>=-Agree h (Over.on_decoder-Agree h a) (push_value-Agree vec))

  insert_pair-Agree :
      (path : P) (max : Option ℕ) (key val : TypeSpec P)
      (pair : Option (RustType paths key × RustType paths val))
      → Over.Agree h
          (insert_pair paths rd path max key val pair)
          (insert_pair paths source_reader path max key val pair)
  unfolding insert_pair
  insert_pair-Agree path max key val none = record { same = λ d x. refl }
  insert_pair-Agree path max key val (some pair) = record { same = λ d x. refl }

  pub or_custom_field-Agree :
      {S : Type 0} {m : Into rd S Bool} {s : Into source_reader S Bool}
      → Over.Agree h m s
      → Over.Agree h (or_custom_field rd m) (or_custom_field source_reader s)
  or_custom_field-Agree a = Over.>>=-Agree h a λ known. Over.lift-Agree h _

  decode_branch-Agree :
      (i : ℕ) (ftype : FieldType P) (read_tag : Tag)
      → Over.Agree h
          (decode_branch paths rd i ftype read_tag)
          (decode_branch paths source_reader i ftype read_tag)
  unfolding decode_branch
  decode_branch-Agree i (map_field key val path max) read_tag = on_value-Agree (
      Over.>>=-Agree h
        (Over.on_decoder-Agree h (
          Over.decode_map_elem-Agree h (type_default paths key) (type_default paths val)
            (decode_mut-Agree h paths k key explicit) (decode_mut-Agree h paths k val explicit)))
        (insert_pair-Agree path max key val))
  decode_branch-Agree i (single t) read_tag = on_value-Agree (decode_mut-Agree h paths k t implicit)
  decode_branch-Agree i (optional t hazzer) read_tag =
      Over.>>-Agree h (on_value-Agree (decode_mut-Agree h paths k t explicit))
        (Over.on_dest-Agree h (λ s. (ok tt, (Hazzer.set i s.0, s.1))))
  decode_branch-Agree i (optional t option) read_tag =
      on_value-Agree (on_some-Agree (type_default paths t) (decode_mut-Agree h paths k t explicit))
  decode_branch-Agree i (repeated t packed path max) read_tag = on_value-Agree (
      repeated_by-Agree t (paths.vec_at path max (RustType paths t)).pb_vec (decode_val paths rd t)
        (decode_val paths source_reader t) (decode_val-Agree h paths k t) read_tag)
  decode_branch-Agree i (custom path) read_tag =
      on_value-Agree (or_custom_field-Agree (k.customs path read_tag))

  pub field-PartAgrees : (f : Field P) → PartAgrees h (field_part paths f)
  field-PartAgrees f = record { agrees = decode_branch-Agree f.hazzer_index f.ftype }
