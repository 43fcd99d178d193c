-- ===== src/Generated/Oneof/Carried.antt =====
-- A oneof is read back as the variant that was written.
use micropb.Prelude.{ℕ, ◌≡◌, refl, arith, true, false, List, [], ◌∷◌, ◌++◌}
use micropb.Prelude.{length, length-append, Option, none, some, ◌==◌}
use micropb.Prelude.{inl, inr, Bool-cases, eq→==, ==→eq}
use micropb.Wire.{explicit}
use micropb.Wire.Tags.{tag_parts}
use micropb.Writer.{PbWrite}
use micropb.Encode.Output.{IsAppender, Writes, pure-Writes}
use micropb.Reader.{PbRead}
use micropb.Reader.Source.{source_reader}
use micropb.Reader.Laws.{IsReader}
use micropb.Decode.Into.{get_or}
use micropb.Decode.Into.Expect.{Fills}
use micropb.TypeSpec.{TypeSpec}
use micropb.TypeSpec as Integers
use micropb.Generated.Types.{Paths, RustType, type_default}
use micropb.Generated.Oneof.{OneofField, enum_oneof, oneof_part, Variant, any_field, as_first}
use micropb.Generated.Oneof.{as_other, variant_branches, encode_variant, variant_size}
use micropb.Generated.Field.Values.{IsTag, tag_len_lem, tagged-Writes, one-Records, on_value-Fills}
use micropb.Generated.Field.Values.{ValueCarries}
use micropb.Generated.Message.Records.{no_more, tag_bytes}
use micropb.Generated.Message.Carried.{PartCarries}

module _ {P W F R E : Type 0} {wr : PbWrite W F} {rd : PbRead R E} (a : IsAppender wr)
    (h : IsReader rd) (paths : Paths P)
    (Like : (t : TypeSpec P) → RustType paths t → RustType paths t → Type 0) where
  -- No two variants have one number.
  abbrev pub DistinctFields : List (OneofField P) → Type 0
  DistinctFields [] = Unit {0}
  DistinctFields (f ∷ fields) = (any_field paths fields f.num ≡ false) × DistinctFields fields

  -- The value of the variant is carried into what a place that holds `old` has of that variant.
  abbrev pub VariantFits :
      (fields : List (OneofField P)) → Variant paths fields → Option (Variant paths fields) → Type 0
  VariantFits [] v old = ⊥
  VariantFits (f ∷ fields) (inl x) old =
      IsTag f.num (Integers.wire_type f.tspec)
      × ValueCarries a h paths Like f.tspec explicit x
          (get_or (type_default paths f.tspec) (as_first old))
  VariantFits (f ∷ fields) (inr y) old = VariantFits fields y (as_other old)

  abbrev pub LikeVariant :
      (fields : List (OneofField P)) → Variant paths fields → Variant paths fields → Type 0
  LikeVariant [] v w = ⊥
  LikeVariant (f ∷ fields) (inl x) (inl y) = Like f.tspec x y
  LikeVariant (f ∷ fields) (inl x) (inr w) = ⊥
  LikeVariant (f ∷ fields) (inr v) (inl y) = ⊥
  LikeVariant (f ∷ fields) (inr v) (inr w) = LikeVariant fields v w

  record VariantCarries (fields : List (OneofField P)) (v : Variant paths fields)
      (old : Option (Variant paths fields)) : Type 0 where
    number : ℕ
    kind : ℕ
    is_tag : IsTag number kind
    matched : any_field paths fields number ≡ true
    bytes : List ℕ
    writes : Writes a (encode_variant paths wr fields v) (tag_bytes number kind ++ bytes)
    sized : variant_size paths fields v ≡ length (tag_bytes number kind ++ bytes)
    result : Variant paths fields
    like : LikeVariant fields v result
    fills :
        Fills {E = E}
          (variant_branches paths source_reader fields number)
          bytes
          old
          tt
          (some result)

  variant_lem :
      (fields : List (OneofField P)) (v : Variant paths fields)
      (old : Option (Variant paths fields))
      → DistinctFields fields
      → VariantFits fields v old
      → VariantCarries fields v old
  unfolding variant_branches encode_variant variant_size
  variant_lem [] v old d k = absurd k
  variant_lem (f ∷ fields) (inl x) old d (k, c) =
      let w = Integers.wire_type f.tspec in
      let mine : (f.num == f.num) ≡ true = eq→== f.num f.num refl in
      record {
        number = f.num;
        kind = w;
        is_tag = k;
        matched = rw mine refl;
        bytes = c.carried.bytes;
        writes = tagged-Writes a f.num w k c.carried.writes;
        sized = omega (
          arith,
          tag_len_lem f.num w k,
          c.carried.sized,
          length-append (tag_bytes f.num w) c.carried.bytes,
        );
        result = inl c.read_back;
        like = c.like;
        fills = rw mine (record {
          reads = λ rest fault idx ignore. rw (c.carried.fills.reads rest fault idx ignore) refl;
        });
      }
  variant_lem (f ∷ fields) (inr y) old d k =
      let r = variant_lem fields y (as_other old) d.1 k in
      let other : (r.number == f.num) ≡ false = elim (Bool-cases (r.number == f.num)) [
        | inl same ↦ absurd (clash fields f.num r.number d.0 r.matched (==→eq r.number f.num same))
        | inr apart ↦ apart
      ] in
      record {
        number = r.number;
        kind = r.kind;
        is_tag = r.is_tag;
        matched = rw other r.matched;
        bytes = r.bytes;
        writes = r.writes;
        sized = r.sized;
        result = inr r.result;
        like = r.like;
        fills = rw other (record {
          reads = λ rest fault idx ignore. rw (r.fills.reads rest fault idx ignore) refl;
        });
      }
    where
      clash :
          (fields : List (OneofField P)) (m n : ℕ)
          → any_field paths fields m ≡ false
          → any_field paths fields n ≡ true
          → n ≡ m
          → ⊥
      clash fields m n no_m has_n e = absurd (cc (no_m, has_n, e))

  -- Both unset, or the same variant with values that are alike.
  abbrev pub LikeOneof :
      (fields : List (OneofField P))
      → Option (Variant paths fields)
      → Option (Variant paths fields)
      → Type 0
  LikeOneof fields none none = Unit {0}
  LikeOneof fields none (some w) = ⊥
  LikeOneof fields (some v) none = ⊥
  LikeOneof fields (some v) (some w) = LikeVariant fields v w

  -- An unset oneof is left as it is, so it has to be unset before.
  abbrev pub OneofFits :
      (fields : List (OneofField P))
      → Option (Variant paths fields)
      → Option (Variant paths fields)
      → Type 0
  OneofFits fields none old = old ≡ none
  OneofFits fields (some v) old = VariantFits fields v old

  -- For variants with distinct numbers, a oneof whose value is carried into what the place holds of
  -- the same variant, or into its default, is read back as the same variant with a like value,
  -- whatever variant was there before, and an unset one writes nothing.
  pub oneof-Carries :
      (fields : List (OneofField P)) (o old : Option (Variant paths fields)) (msg_has has : List ℕ)
      → DistinctFields fields
      → OneofFits fields o old
      → (r : Option (Variant paths fields)) × LikeOneof fields o r
        × PartCarries a E (oneof_part paths (enum_oneof fields)) (msg_has, o) (has, old) (has, r)
  oneof-Carries fields none old msg_has has d e = (
    old,
    rw e tt,
    record { bytes = []; writes = pure-Writes a; sized = refl; records = no_more (has, old) },
  )
  oneof-Carries fields (some v) old msg_has has d k =
      let r = variant_lem fields v old d k in
      let num = (tag_parts r.number r.kind r.is_tag.low r.is_tag.kind).0 in
      (
        some r.result,
        r.like,
        record {
          bytes = tag_bytes r.number r.kind ++ r.bytes;
          writes = r.writes;
          sized = r.sized;
          records =
              one-Records (oneof_part paths (enum_oneof fields)) r.number r.kind r.is_tag r.matched
                (rw num (on_value-Fills has r.fills));
        },
      )
