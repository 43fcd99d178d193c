-- ===== src/Generated/Message/Ends.antt =====
-- The end of the loop of a generated message without an unknown handler.
use micropb.Prelude.{ℕ, ◌≢◌, ap, arith, Bool, true, false, ◌==◌}
use micropb.Prelude.{List, [], ◌∷◌, Option, none, some, if◌then◌else◌, ◌∙◌}
use micropb.Monad.{Result, ok, err, out_of_fuel, go_on}
use micropb.Wire.{Tag, implicit, explicit, wire_type, wire_type_len, field_num}
use micropb.Reader.{PbRead}
use micropb.Reader.Source.{Source, source_reader}
use micropb.Reader.Laws.{IsReader}
use micropb.Container.{PbVec}
use micropb.Decode.{PbDecoder, DecodeError, Decoding, bytes_read, zero_field, custom_field}
use micropb.Decode.Agree as Plain
use micropb.Decode.Counts.{Counted}
use micropb.Decode.Counts.Methods.{IsDone, decode_tag-Counts, skip_wire_value-Counts}
use micropb.Decode.Into.{Into, get_or, pushed}
use micropb.Decode.Into.Texts.{ok_ends, err_ends}
use micropb.Decode.Into.Counts.{CountsInto, CountsInto-fewer, on_decoder-Counts, on_dest-Counts}
use micropb.Decode.Into.Counts.{if-CountsInto, chain, go_on-Counted, lift-Counts, done-Counted}
use micropb.Decode.Into.Counts.Records.{Pushes, pushed-IsDone, read_while-Counted}
use micropb.Decode.Into.Counts.Records.{decode_packed-Counts, decode_map_elem-Counts}
use micropb.TypeSpec.{TypeSpec}
use micropb.Generated.Hazzer
use micropb.Generated.Types.{Paths, RustType, type_default, decode_val, decode_mut}
use micropb.Generated.Ends.{PathsEnd, decode_mut-Counts, decode_val-Counts, ValCounts}
use micropb.Generated.Agree.{PathsAgree}
use micropb.Generated.Parts.{With, on_value, on_some, or_custom_field}
use micropb.Generated.Field.{FieldType, decode_branch, repeated_branch, insert_pair}
use micropb.Generated.Field.{
  map_field, single, optional, hazzer, option, repeated, custom, push_value,
}
use micropb.Generated.Oneof.{OneofField, enum_oneof, custom_oneof}
use micropb.Generated.Oneof.{variant_branches, as_first, as_other}
use micropb.Generated.Message.{Struct, branches, unknown_branch, message_round, decode}
use micropb.Generated.Message.Carried.{decode-Agree}
use micropb.Generated.Message.Members.{Member, field, oneof, member_part}
use micropb.Generated.Message.Whole.{parts_of, All-PartAgrees}

module _ {P E : Type 0} (paths : Paths P) (k : PathsEnd E paths) where
  on_value-Counts :
      {A B : Type 0} {m : Into source_reader A B}
      → CountsInto {E = E} 0 m
      → CountsInto {S = With A} 0 (on_value source_reader m)
  on_value-Counts c = record { counts = λ d s. c.counts d s.1 }

  on_some-Counts :
      {A B : Type 0} (default : A) {m : Into source_reader A B}
      → CountsInto {E = E} 0 m
      → CountsInto {S = Option A} 0 (on_some source_reader default m)
  on_some-Counts default c = record { counts = λ d s. c.counts d (get_or default s) }

  or_custom_field-Counts :
      {S : Type 0} {m : Into source_reader S Bool}
      → CountsInto {E = E} 0 m
      → CountsInto 0 (or_custom_field source_reader m)
  or_custom_field-Counts c = chain 0 c λ known. lift-Counts _ (known_or_not known)
    where
      known_or_not :
          (b : Bool)
          → IsDone {E = DecodeError E} {A = Unit {0}} (if b then ok tt else err custom_field)
      known_or_not true = tt
      known_or_not false = tt

  push_value-Counts :
      {S T : Type 0} (vec : PbVec S T)
      → Pushes vec
      → (val : T) → CountsInto {E = E} 0 (push_value paths source_reader vec val)
  push_value-Counts vec pushes val = record {
    counts = λ d s.
        done-Counted (pushed d.ignore_repeated_cap_err (vec.pb_push s val).0) d.idx
          (pushed-IsDone E d.ignore_repeated_cap_err (vec.pb_push s val).0 (pushes.push s val));
  }

  local-Counted :
      {A S : Type 0} (idx : ℕ) (f : A → Into source_reader S (Unit {0}))
      → ((val : A) → CountsInto {E = E} 0 (f val))
      → (r : Result (DecodeError E) (Unit {0})) (d : PbDecoder (Source E)) (val : A) (s : S)
      → Counted 0 idx r d.idx
      → Counted 0 idx (go_on (λ u. f val) r (d, s)).0 (go_on (λ u. f val) r (d, s)).1.0.idx
  local-Counted idx f h r d val s c = go_on-Counted 0 0 idx (λ u. f val) (λ u. h val) r d s c

  repeated_by-Counts :
      {S : Type 0} (t : TypeSpec P) (vec : PbVec S (RustType paths t))
      → Pushes vec
      → (m : Option (Decoding source_reader (RustType paths t))) → ValCounts paths k m
      → (read_tag : Tag)
      → CountsInto {E = E} 0 (repeated_branch paths source_reader t vec m read_tag)
  unfolding repeated_branch
  repeated_by-Counts t vec pushes (some m) c read_tag =
      if-CountsInto 0 (wire_type read_tag == wire_type_len)
        (CountsInto-fewer 1 0 (omega arith) (decode_packed-Counts vec pushes c))
        (CountsInto-fewer 1 0 (omega arith)
          (chain 1 (on_decoder-Counts 1 c) (push_value-Counts vec pushes)))
  repeated_by-Counts t vec pushes none c read_tag = record {
    counts = λ d s.
        let out = decode_mut paths source_reader t explicit (d, type_default paths t) in
        local-Counted d.idx (push_value paths source_reader vec) (push_value-Counts vec pushes)
          out.0 out.1.0 out.1.1 s
          ((decode_mut-Counts paths k t explicit).counts d (type_default paths t));
  }

  insert_pair-Counts :
      (path : P) (max : Option ℕ) (key val : TypeSpec P)
      (pair : Option (RustType paths key × RustType paths val))
      → CountsInto {E = E} 0 (insert_pair paths source_reader path max key val pair)
  unfolding insert_pair
  insert_pair-Counts path max key val none = record { counts = λ d s. omega arith }
  insert_pair-Counts path max key val (some pair) = record {
    counts = λ d s.
        let r =
          ((paths.map_at path max (RustType paths key) (RustType paths val)).pb_map.pb_insert s
            pair.0 pair.1).0 in
        done-Counted (pushed d.ignore_repeated_cap_err r) d.idx (
          pushed-IsDone E d.ignore_repeated_cap_err r
            (k.maps path max (RustType paths key) (RustType paths val) s pair.0 pair.1));
  }

  decode_branch-Counts :
      (i : ℕ) (ftype : FieldType P) (read_tag : Tag)
      → CountsInto {E = E} 0 (decode_branch paths source_reader i ftype read_tag)
  unfolding decode_branch
  decode_branch-Counts i (map_field key val path max) read_tag = on_value-Counts (
      CountsInto-fewer 1 0 (omega arith) (
        chain 1
          (on_decoder-Counts 1 (
            decode_map_elem-Counts (type_default paths key) (type_default paths val)
              (decode_mut-Counts paths k key explicit) (decode_mut-Counts paths k val explicit)))
          (insert_pair-Counts path max key val)))
  decode_branch-Counts i (single t) read_tag =
      on_value-Counts (decode_mut-Counts paths k t implicit)
  decode_branch-Counts i (optional t hazzer) read_tag =
      chain 0 (on_value-Counts (decode_mut-Counts paths k t explicit))
        (λ u. on_dest-Counts (λ s. (ok tt, (Hazzer.set i s.0, s.1))) (λ s. tt))
  decode_branch-Counts i (optional t option) read_tag =
      on_value-Counts (on_some-Counts (type_default paths t) (decode_mut-Counts paths k t explicit))
  decode_branch-Counts i (repeated t packed path max) read_tag = on_value-Counts (
      repeated_by-Counts t (paths.vec_at path max (RustType paths t)).pb_vec
        (k.vecs path max (RustType paths t)) (decode_val paths source_reader t)
        (decode_val-Counts paths k t) read_tag)
  decode_branch-Counts i (custom path) read_tag =
      on_value-Counts (or_custom_field-Counts (k.customs path read_tag))

  variant_branches-Counts :
      (fields : List (OneofField P)) (n : ℕ)
      → CountsInto {E = E} 0 (variant_branches paths source_reader fields n)
  unfolding variant_branches
  variant_branches-Counts [] n = lift-Counts (ok tt) tt
  variant_branches-Counts (f ∷ fields) n =
      if-CountsInto 0 (n == f.num)
        (record {
          counts = λ d s.
              (decode_mut-Counts paths k f.tspec explicit).counts d
                (get_or (type_default paths f.tspec) (as_first s));
        })
        (record { counts = λ d s. (variant_branches-Counts fields n).counts d (as_other s) })

  member-Counts :
      (m : Member P) (read_tag : Tag)
      → CountsInto {E = E} 0 ((member_part paths m).decode_branch source_reader read_tag)
  member-Counts (field f) read_tag = decode_branch-Counts f.hazzer_index f.ftype read_tag
  member-Counts (oneof (enum_oneof fields)) read_tag =
      on_value-Counts (variant_branches-Counts fields (field_num read_tag))
  member-Counts (oneof (custom_oneof path nums)) read_tag =
      on_value-Counts (or_custom_field-Counts (k.customs path read_tag))

  branches-Counts :
      (members : List (Member P)) (read_tag : Tag)
      → CountsInto {E = E} 0 (branches source_reader none (parts_of paths members) read_tag)
  unfolding branches unknown_branch
  branches-Counts [] read_tag = on_decoder-Counts 0 (skip_wire_value-Counts (wire_type read_tag))
  branches-Counts (m ∷ members) read_tag =
      if-CountsInto 0 ((member_part paths m).matches (field_num read_tag))
        (record { counts = λ d s. (member-Counts m read_tag).counts d (s.0, s.1.0) })
        (record { counts = λ d s. (branches-Counts members read_tag).counts d (s.0, s.1.1) })

  round-Counts :
      (members : List (Member P))
      → CountsInto {E = E} 1 (message_round source_reader none (parts_of paths members))
  unfolding message_round
  round-Counts members = chain 1 (on_decoder-Counts 1 decode_tag-Counts) λ read_tag.
      if-CountsInto 0 (field_num read_tag == 0) (lift-Counts (err zero_field) tt)
        (branches-Counts members read_tag)

  -- As a message that other messages have fields of.
  pub decode-Counts :
      (members : List (Member P)) (len : ℕ)
      → CountsInto {E = E} 0 (decode source_reader none (parts_of paths members) len)
  unfolding decode bytes_read
  decode-Counts members len = record {
    counts = λ d s.
        read_while-Counted (message_round source_reader none (parts_of paths members))
          (round-Counts members) len len d.idx d s (omega arith);
  }

Counted-ends :
    {E A : Type 0} (n idx : ℕ) (r : Result (DecodeError E) A) (after : ℕ)
    → Counted n idx r after
    → r ≢ out_of_fuel
Counted-ends n idx (ok x) after c = ok_ends
Counted-ends n idx (err x) after c = err_ends
Counted-ends n idx out_of_fuel after c = absurd c

module _ {P R E : Type 0} {rd : PbRead R E} (h : IsReader rd) (paths : Paths P)
    (agree : PathsAgree h paths) (k : PathsEnd E paths) where
  -- The decoder of a generated message without an unknown handler, of any fields and oneofs, told
  -- any length, over any reader that keeps the promises of `PbRead` and from any state, never runs
  -- out of fuel, if the decoders and containers behind the paths of its fields do not.
  pub generated-decode_ends :
      (members : List (Member P)) (len : ℕ) (d : PbDecoder R)
      (s : With (Struct none (parts_of paths members)))
      → (decode rd none (parts_of paths members) len (d, s)).0 ≢ out_of_fuel
  generated-decode_ends members len d s e =
      let same =
        (decode-Agree h (parts_of paths members) (All-PartAgrees h paths agree members) len).same d
          s in
      let c = (decode-Counts paths k members len).counts (Plain.abstract h d) s in
      Counted-ends 0 _ _ _ c (ap (λ out. out.0) same ∙ e)
