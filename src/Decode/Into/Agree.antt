-- ===== src/Decode/Into/Agree.antt =====
-- The methods that write to a destination do the same over any reader that keeps the promises of
-- `PbRead` as over the bytes to come.
use micropb.Prelude.{ℕ, zero, suc, ◌-◌, ◌≡◌, refl, ap, Bool, true, false, Option, none}
use micropb.Prelude.{if◌then◌else◌, ltb, ◌==◌, ◌&&◌}
use micropb.Monad.{Result, ok, err, out_of_fuel, M, ◌>>=◌, ◌>>◌, go_on}
use micropb.Wire.{wire_type, field_num, Presence}
use micropb.Reader.{PbRead}
use micropb.Reader.Source.{Source, source_reader}
use micropb.Reader.Laws.{IsReader}
use micropb.Container.{PbVec, PbString, Spare}
use micropb.Utf8.{is_utf8}
use micropb.Decode.{PbDecoder, DecodeError, utf8, lift}
use micropb.Decode.Agree as Plain
use micropb.Decode.Agree.{abstract}
use micropb.Decode.Refine
use micropb.Decode.Into

module _ {R E : Type 0} {rd : PbRead R E} (h : IsReader rd) where
  abbrev pub shown :
      {S A : Type 0}
      → Result (DecodeError E) A × (PbDecoder R × S)
      → Result (DecodeError E) A × (PbDecoder (Source E) × S)
  shown out = (out.0, (abstract h out.1.0, out.1.1))

  -- Over the reader and over the bytes to come: the same result, the same destination, the same
  -- bytes left.
  pub record Agree {S A : Type 0} (m : Into.Into rd S A) (s : Into.Into (source_reader {E = E}) S A)
      : Type 0 where
    pub same : (d : PbDecoder R) (x : S) → s (abstract h d, x) ≡ shown (m (d, x))

  module _ {S : Type 0} where
    pub on_decoder-Agree :
        {A : Type 0} {m : M (PbDecoder R) (DecodeError E) A}
        {s : M (PbDecoder (Source E)) (DecodeError E) A}
        → Plain.Agree h m s
        → Agree {S = S} (Into.on_decoder rd m) (Into.on_decoder source_reader s)
    on_decoder-Agree a = record { same = λ d x. rw (a.same d) }

    pub on_dest-Agree :
        {A : Type 0} (f : S → Result (DecodeError E) A × S)
        → Agree (Into.on_dest rd f) (Into.on_dest source_reader f)
    on_dest-Agree f = record { same = λ d x. refl }

    pub lift-Agree : {A : Type 0} (r : Result (DecodeError E) A) → Agree {S = S} (lift r) (lift r)
    lift-Agree r = record { same = λ d x. refl }

    pub if-Agree :
        {A : Type 0} {m n : Into.Into rd S A} {s t : Into.Into source_reader S A} (b : Bool)
        → Agree m s
        → Agree n t
        → Agree (if b then m else n) (if b then s else t)
    if-Agree true a c = a
    if-Agree false a c = c

    go_on-same :
        {A B : Type 0} (f : A → Into.Into rd S B) (g : A → Into.Into source_reader S B)
        → ((x : A) → Agree (f x) (g x))
        → (r : Result (DecodeError E) A) (d : PbDecoder R) (s : S)
        → go_on g r (abstract h d, s) ≡ shown (go_on f r (d, s))
    go_on-same f g k (ok x) d s = (k x).same d s
    go_on-same f g k (err x) d s = refl
    go_on-same f g k out_of_fuel d s = refl

    pub >>=-Agree :
        {A B : Type 0} {m : Into.Into rd S A} {s : Into.Into source_reader S A}
        {f : A → Into.Into rd S B} {g : A → Into.Into source_reader S B}
        → Agree m s
        → ((x : A) → Agree (f x) (g x))
        → Agree (m >>= f) (s >>= g)
    >>=-Agree {m} {s} {f} {g} a k = record {
      same = λ d x. rw (a.same d x) (go_on-same f g k (m (d, x)).0 (m (d, x)).1.0 (m (d, x)).1.1);
    }

    pub >>-Agree :
        {B : Type 0} {m : Into.Into rd S (Unit {0})} {s : Into.Into source_reader S (Unit {0})}
        {n : Into.Into rd S B} {t : Into.Into source_reader S B}
        → Agree m s
        → Agree n t
        → Agree (m >> n) (s >> t)
    >>-Agree a b = >>=-Agree a (λ u. b)

    update-Agree : (f : S → S) → Agree (Into.update rd f) (Into.update source_reader f)
    update-Agree f = on_dest-Agree _

  read_into_spare-Agree :
      {S : Type 0} (spare : Spare S ℕ) (len : ℕ)
      → Agree (Into.read_into_spare rd spare len) (Into.read_into_spare source_reader spare len)
  unfolding Into.read_into_spare
  read_into_spare-Agree spare len = record {
    same = λ d x. rw ((Refine.read_into_buf-Agree h (spare x).0 len).same d);
  }

  pub decode_string-Agree :
      {S : Type 0} (string : PbString S) (presence : Presence)
      → Agree
          (Into.decode_string rd string presence)
          (Into.decode_string source_reader string presence)
  unfolding Into.decode_string
  decode_string-Agree string presence =
      >>=-Agree (on_decoder-Agree (Refine.decode_varint32-Agree h)) λ len.
        if-Agree ((len == 0) && Into.is_implicit presence) (lift-Agree (ok tt)) (
          >>-Agree
            (>>-Agree
              (>>-Agree (update-Agree string.container.pb_clear)
                (update-Agree (λ s. string.container.pb_reserve s len)))
              (>>=-Agree (read_into_spare-Agree string.pb_spare_cap len)
                (λ written. lift-Agree (if is_utf8 written then ok tt else err utf8))))
            (update-Agree (λ s. string.container.pb_set_len s len)))

  pub decode_bytes-Agree :
      {S : Type 0} (bytes : PbVec S ℕ) (presence : Presence)
      → Agree (Into.decode_bytes rd bytes presence) (Into.decode_bytes source_reader bytes presence)
  unfolding Into.decode_bytes
  decode_bytes-Agree bytes presence =
      >>=-Agree (on_decoder-Agree (Refine.decode_varint32-Agree h)) λ len.
        if-Agree ((len == 0) && Into.is_implicit presence) (lift-Agree (ok tt)) (
          >>-Agree
            (>>-Agree
              (>>-Agree (update-Agree bytes.container.pb_clear)
                (update-Agree (λ s. bytes.container.pb_reserve s len)))
              (>>=-Agree (read_into_spare-Agree bytes.pb_spare_cap len)
                (λ written. lift-Agree (ok tt))))
            (update-Agree (λ s. bytes.container.pb_set_len s len)))

  pub decode_len_record-Agree :
      {S T : Type 0} {f : ℕ → ℕ → Into.Into rd S T} {g : ℕ → ℕ → Into.Into source_reader S T}
      → ((len before : ℕ) → Agree (f len before) (g len before))
      → Agree (Into.decode_len_record rd f) (Into.decode_len_record source_reader g)
  unfolding Into.decode_len_record
  decode_len_record-Agree k = >>=-Agree (on_decoder-Agree (Refine.decode_varint32-Agree h)) λ len.
      >>=-Agree (on_decoder-Agree (Refine.bytes_read-Agree h)) λ before.
        >>=-Agree (k len before) λ val. on_decoder-Agree (Refine.check_len-Agree h len before val)

  pub read_while-Agree :
      {S : Type 0} {m : Into.Into rd S (Unit {0})} {s : Into.Into source_reader S (Unit {0})}
      → Agree m s
      → (fuel len before : ℕ)
      → Agree
          (Into.read_while rd m fuel len before)
          (Into.read_while source_reader s fuel len before)
  unfolding Into.read_while
  read_while-Agree a zero len before =
      >>=-Agree (on_decoder-Agree (Refine.bytes_read-Agree h)) λ now. lift-Agree _
  read_while-Agree a (suc fuel) len before =
      >>=-Agree (on_decoder-Agree (Refine.bytes_read-Agree h)) λ now.
        if-Agree (ltb (now - before) len) (>>=-Agree a (λ u. read_while-Agree a fuel len before))
          (lift-Agree (ok tt))

  pub decode_packed-Agree :
      {S T : Type 0} (vec : PbVec S T) {m : M (PbDecoder R) (DecodeError E) T}
      {s : M (PbDecoder (Source E)) (DecodeError E) T}
      → Plain.Agree h m s
      → Agree (Into.decode_packed rd vec m) (Into.decode_packed source_reader vec s)
  unfolding Into.decode_packed Into.packed_round
  decode_packed-Agree vec a = record {
    same = λ d x.
        (decode_len_record-Agree λ len before.
            read_while-Agree
              (>>=-Agree (on_decoder-Agree a) (λ val. on_dest-Agree (λ s. (
                Into.pushed d.ignore_repeated_cap_err (vec.pb_push s val).0,
                (vec.pb_push s val).1,
              ))))
              len len before).same
          d x;
  }

  module _ {K V : Type 0} (key_default : K) (val_default : V) {ku : Into.Into rd K (Unit {0})}
      {ks : Into.Into source_reader K (Unit {0})} {vu : Into.Into rd V (Unit {0})}
      {vs : Into.Into source_reader V (Unit {0})} (k : Agree ku ks) (v : Agree vu vs) where
    on_key-Agree :
        Agree {S = Option K × Option V}
          (Into.on_key rd key_default ku)
          (Into.on_key source_reader key_default ks)
    on_key-Agree = record { same = λ d x. rw (k.same d (Into.get_or key_default x.0)) }

    on_val-Agree :
        Agree {S = Option K × Option V}
          (Into.on_val rd val_default vu)
          (Into.on_val source_reader val_default vs)
    on_val-Agree = record { same = λ d x. rw (v.same d (Into.get_or val_default x.1)) }

    map_round-Agree :
        Agree
          (Into.map_round rd key_default val_default ku vu)
          (Into.map_round source_reader key_default val_default ks vs)
    unfolding Into.map_round
    map_round-Agree = >>=-Agree (on_decoder-Agree (Refine.decode_tag-Agree h)) λ tag.
        if-Agree (field_num tag == 1) on_key-Agree (
          if-Agree (field_num tag == 2) on_val-Agree
            (on_decoder-Agree (Refine.skip_wire_value-Agree h (wire_type tag))))

    map_pair-Agree :
        Agree
          (Into.map_pair rd key_default val_default ku vu)
          (Into.map_pair source_reader key_default val_default ks vs)
    map_pair-Agree = record { same = λ d x. refl }

    pub decode_map_elem-Agree :
        Plain.Agree h
          (Into.decode_map_elem rd key_default val_default ku vu)
          (Into.decode_map_elem source_reader key_default val_default ks vs)
    unfolding Into.decode_map_elem
    decode_map_elem-Agree = record {
      same = λ d.
          ap (λ out. (out.0, out.1.0))
            ((>>=-Agree
                (decode_len_record-Agree
                  (λ len before. read_while-Agree map_round-Agree len len before))
                λ u. map_pair-Agree).same
              d (none, none));
    }
