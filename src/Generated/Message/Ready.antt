-- ===== src/Generated/Message/Ready.antt =====
-- When members are ready: single, optional and oneof members here, repeated
-- fields in Ready/Repeated, map fields in Ready/Maps.
pub mod Repeated
pub mod Maps
use micropb.Prelude.{eq→==, ◌∷◌, ℕ, ◌^◌, ◌<◌, ◌≡◌, refl, Bool, true, false, not, ◌&&◌, All}
use micropb.Prelude.{List, [], length, Option, none, some}
use micropb.Wire.{Presence, implicit, explicit, wire_type_len}
use micropb.Writer.{PbWrite}
use micropb.Encode.Output.{IsAppender}
use micropb.Size.{sizeof_packed}
use micropb.Reader.{PbRead}
use micropb.Reader.Source.{source_reader}
use micropb.Reader.Laws.{IsReader}
use micropb.Container.{IsVec}
use micropb.Decode.{Decoding}
use micropb.Decode.Into.{is_implicit}
use micropb.Decode.Into.Packed.{takes}
use micropb.RoundTrip.{CarriesEach}
use micropb.TypeSpec.{TypeSpec}
use micropb.TypeSpec.{message, enum, float, double, bool, int, string, bytes}
use micropb.TypeSpec as Integers
use micropb.Generated.Hazzer
use micropb.Generated.Types.{Paths, RustType, type_default, implicit_presence_check, value_size}
use micropb.Generated.Types.{encode_value, decode_val}
use micropb.Generated.Types.Carried.{Alike, Alike-presence, Fits, value-Carries}
use micropb.Generated.Agree.{PathsAgree}
use micropb.Generated.Field.{single, optional, hazzer, option, repeated, accessor}
use micropb.Generated.Field.{field_wire_type}
use micropb.Generated.Field.Values.{IsTag, ValueCarries, AllLike-refl}
use micropb.Generated.Field.Present.{single-Carries, hazzer-Carries, option-Carries}
use micropb.Generated.Field.Repeated.{packed-Carries, unpacked-Carries}
use micropb.Generated.Field.Many.{many-Carries}
use micropb.Generated.Oneof.{OneofField, enum_oneof, Variant}
use micropb.Generated.Oneof.Carried.{DistinctFields, OneofFits, oneof-Carries}
use micropb.Generated.Message.Members.{field, oneof, MemberReady}

module _ {P W F R E : Type 0} {wr : PbWrite W F} {rd : PbRead R E} (a : IsAppender wr)
    (h : IsReader rd) (paths : Paths P) (k : PathsAgree h paths)
    (LikeMessage : (path : P) → (paths.message_at path).Msg → (paths.message_at path).Msg → Type 0)
    (count : ℕ) where
  present_kept :
      (presence : Presence) (there : Bool)
      → there ≡ true
      → (is_implicit presence && not there) ≡ false
  present_kept implicit there e = rw e refl
  present_kept explicit there e = refl

  pub single-Ready :
      (n i : ℕ) (t : TypeSpec P) (msg_has : List ℕ) (x old : RustType paths t)
      → IsTag n (field_wire_type (single t))
      → implicit_presence_check paths t old ≡ false
      → (implicit_presence_check paths t x ≡ true → Fits a h paths k LikeMessage t x old)
      → MemberReady a h paths k LikeMessage count
          (field (record { num = n; ftype = single t; hazzer_index = i }))
          (msg_has, x)
          old
  single-Ready n i t msg_has x old tag_ok empty fits = record {
    carries = λ has good unset.
        let (y, like, part) =
          single-Carries a h paths (Alike paths LikeMessage) (Alike-presence paths LikeMessage) n i
            t msg_has has x old tag_ok empty
            (λ e.
              value-Carries a h paths k LikeMessage t implicit x old
                (present_kept implicit (implicit_presence_check paths t x) e) (fits e)) in
        record {
          after = has;
          value = y;
          like = like;
          good = good;
          kept = λ j e. refl;
          part = part;
        };
  }

  pub hazzer-Ready :
      (n i : ℕ) (t : TypeSpec P) (msg_has : List ℕ) (x old : RustType paths t)
      → IsTag n (field_wire_type (optional t hazzer))
      → i < count
      → (Hazzer.has i msg_has ≡ true → Fits a h paths k LikeMessage t x old)
      → MemberReady a h paths k LikeMessage count
          (field (record { num = n; ftype = optional t hazzer; hazzer_index = i }))
          (msg_has, x)
          old
  hazzer-Ready n i t msg_has x old tag_ok low fits = record {
    carries = λ has good unset.
        let (after, y, like, good_after, others, part) =
          hazzer-Carries a h paths (Alike paths LikeMessage) n i count t msg_has has x old tag_ok
            low good (unset i (eq→== i i refl))
            (λ e. value-Carries a h paths k LikeMessage t explicit x old refl (fits e)) in
        record {
          after = after;
          value = y;
          like = like;
          good = good_after;
          kept = others;
          part = part;
        };
  }

  pub option-Ready :
      (n i : ℕ) (t : TypeSpec P) (msg_has : List ℕ) (o : Option (RustType paths t))
      → IsTag n (field_wire_type (optional t option))
      → ((x : RustType paths t)
          → o ≡ some x
          → Fits a h paths k LikeMessage t x (type_default paths t))
      → MemberReady a h paths k LikeMessage count
          (field (record { num = n; ftype = optional t option; hazzer_index = i }))
          (msg_has, o)
          none
  unfolding accessor
  option-Ready n i t msg_has o tag_ok fits = record {
    carries = λ has good unset.
        let (r, like, part) =
          option-Carries a h paths (Alike paths LikeMessage) n i t msg_has has o tag_ok (λ x e.
            value-Carries a h paths k LikeMessage t explicit x (type_default paths t) refl
              (fits x e)) in
        record {
          after = has;
          value = r;
          like = like;
          good = good;
          kept = λ j e. refl;
          part = part;
        };
  }

  pub oneof-Ready :
      (fields : List (OneofField P)) (msg_has : List ℕ) (o old : Option (Variant paths fields))
      → DistinctFields a h paths (Alike paths LikeMessage) fields
      → OneofFits a h paths (Alike paths LikeMessage) fields o old
      → MemberReady a h paths k LikeMessage count (oneof (enum_oneof fields)) (msg_has, o) old
  oneof-Ready fields msg_has o old d fits = record {
    carries = λ has good unset.
        let (r, like, part) =
          oneof-Carries a h paths (Alike paths LikeMessage) fields o old msg_has has d fits in
        record {
          after = has;
          value = r;
          like = like;
          good = good;
          kept = λ j e. refl;
          part = part;
        };
  }
