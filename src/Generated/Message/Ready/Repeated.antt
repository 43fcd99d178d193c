-- ===== src/Generated/Message/Ready/Repeated.antt =====
-- When repeated fields are ready, packed and not.
use micropb.Prelude.{◌∷◌, ℕ, ◌^◌, ◌<◌, ◌≡◌, refl, true, false, All}
use micropb.Prelude.{List, [], length, Option, none, some}
use micropb.Wire.{explicit, wire_type_len}
use micropb.Writer.{PbWrite}
use micropb.Encode.Output.{IsAppender}
use micropb.Size.{sizeof_packed}
use micropb.Reader.{PbRead}
use micropb.Reader.Source.{source_reader}
use micropb.Reader.Laws.{IsReader}
use micropb.Container.{IsVec}
use micropb.Decode.{Decoding}
use micropb.Decode.Into.Packed.{takes}
use micropb.RoundTrip.{CarriesEach}
use micropb.TypeSpec.{TypeSpec}
use micropb.TypeSpec.{message, enum, float, double, bool, int, string, bytes}
use micropb.TypeSpec as Integers
use micropb.Generated.Types.{Paths, RustType, type_default, value_size}
use micropb.Generated.Types.{encode_value, decode_val}
use micropb.Generated.Types.Carried.{Alike, Fits, value-Carries}
use micropb.Generated.Agree.{PathsAgree}
use micropb.Generated.Field.{repeated}
use micropb.Generated.Field.Values.{IsTag, ValueCarries, AllLike-refl}
use micropb.Generated.Field.Repeated.{packed-Carries, unpacked-Carries}
use micropb.Generated.Field.Many.{many-Carries}
use micropb.Generated.Message.Members.{field, MemberReady}

module _ {P W F R E : Type 0} {wr : PbWrite W F} {rd : PbRead R E} (a : IsAppender wr)
    (h : IsReader rd) (paths : Paths P) (k : PathsAgree h paths)
    (LikeMessage : (path : P) → (paths.message_at path).Msg → (paths.message_at path).Msg → Type 0)
    (count : ℕ) where
  Alike-packable :
      (t : TypeSpec P) (plain : Decoding (source_reader {E = E}) (RustType paths t))
      → decode_val paths source_reader t ≡ some plain
      → (x : RustType paths t) → Alike paths LikeMessage t x x
  unfolding decode_val Alike RustType
  Alike-packable (message path) plain e x = absurd cc
  Alike-packable (string path max) plain e x = refl
  Alike-packable (bytes path max) plain e x = refl
  Alike-packable (enum path) plain e x = refl
  Alike-packable float plain e x = refl
  Alike-packable double plain e x = refl
  Alike-packable bool plain e x = refl
  Alike-packable (int t size) plain e x = refl

  module _ (n i : ℕ) (t : TypeSpec P) (path : P) (max : Option ℕ)
      (law : IsVec (paths.vec_at path max (RustType paths t)).pb_vec) (msg_has : List ℕ)
      (x old : (paths.vec_at path max (RustType paths t)).Carrier)
      (empty : (paths.vec_at path max (RustType paths t)).pb_vec.deref old ≡ [])
      (room : takes
          (paths.vec_at path max (RustType paths t)).pb_vec
          law
          (length ((paths.vec_at path max (RustType paths t)).pb_vec.deref x))
          old
        ≡ true) where
    abbrev elements : List (RustType paths t)
    elements = (paths.vec_at path max (RustType paths t)).pb_vec.deref x

    module _ (decoder : Decoding rd (RustType paths t))
        (plain : Decoding (source_reader {E = E}) (RustType paths t))
        (is_plain : decode_val paths source_reader t ≡ some plain)
        (Good : RustType paths t → Type 0)
        (c : CarriesEach a h Good (encode_value paths wr t) decoder plain (value_size paths t))
        (good_elements : All Good elements) where
      pub packed-Ready :
          IsTag n wire_type_len
          → sizeof_packed elements (value_size paths t) < 2 ^ 32
          → MemberReady a h paths k LikeMessage count
              (field (record { num = n; ftype = repeated t true path max; hazzer_index = i }))
              (msg_has, x)
              old
      packed-Ready tag_ok low = record {
        carries = λ has good unset.
            let (y, shown, part) =
              packed-Carries a h paths t path max law decoder plain is_plain Good c n i msg_has has
                x old tag_ok good_elements low room in
            let same : (paths.vec_at path max (RustType paths t)).pb_vec.deref y ≡ elements =
              rw empty at shown in
            record {
              after = has;
              value = y;
              like = rw same (
                  AllLike-refl a h paths (Alike paths LikeMessage) t
                    (Alike-packable t plain is_plain) elements);
              good = good;
              kept = λ j e. refl;
              part = part;
            };
      }

      pub unpacked-Ready :
          IsTag n (Integers.wire_type t)
          → MemberReady a h paths k LikeMessage count
              (field (record { num = n; ftype = repeated t false path max; hazzer_index = i }))
              (msg_has, x)
              old
      unpacked-Ready tag_ok = record {
        carries = λ has good unset.
            let (y, shown, part) =
              unpacked-Carries a h paths t path max law decoder plain is_plain Good c n i tag_ok has
                msg_has x old good_elements room in
            let same : (paths.vec_at path max (RustType paths t)).pb_vec.deref y ≡ elements =
              rw empty at shown in
            record {
              after = has;
              value = y;
              like = rw same (
                  AllLike-refl a h paths (Alike paths LikeMessage) t
                    (Alike-packable t plain is_plain) elements);
              good = good;
              kept = λ j e. refl;
              part = part;
            };
      }

    All-ValueCarries :
        (xs : List (RustType paths t))
        → All (λ e. Fits a h paths k LikeMessage t e (type_default paths t)) xs
        → All
            (λ e.
              ValueCarries a h paths (Alike paths LikeMessage) t explicit e (type_default paths t))
            xs
    All-ValueCarries [] f = tt
    All-ValueCarries (e ∷ xs) f = (
      value-Carries a h paths k LikeMessage t explicit e (type_default paths t) refl f.0,
      All-ValueCarries xs f.1,
    )

    pub many-Ready :
        IsTag n (Integers.wire_type t)
        → decode_val paths (source_reader {E = E}) t ≡ none
        → All (λ e. Fits a h paths k LikeMessage t e (type_default paths t)) elements
        → MemberReady a h paths k LikeMessage count
            (field (record { num = n; ftype = repeated t false path max; hazzer_index = i }))
            (msg_has, x)
            old
    many-Ready tag_ok not_packable fits = record {
      carries = λ has good unset.
          let (y, added, like, shown, part) =
            many-Carries a h paths (Alike paths LikeMessage) t path max law n i tag_ok not_packable
              msg_has has x old (All-ValueCarries elements fits) room in
          let same : (paths.vec_at path max (RustType paths t)).pb_vec.deref y ≡ added =
            rw empty at shown in
          record {
            after = has;
            value = y;
            like = rw same like;
            good = good;
            kept = λ j e. refl;
            part = part;
          };
    }
