-- ===== src/Generated/Message/Ready/Maps.antt =====
-- When a map field is ready.

use micropb.Prelude.{ℕ, ◌<◌, ◌≡◌, refl, List, [], ◌∷◌, length, append-nil, All, Option}
use micropb.Wire.{wire_type_len}
use micropb.Writer.{PbWrite}
use micropb.Encode.Output.{IsAppender}
use micropb.Reader.{PbRead}
use micropb.Reader.Laws.{IsReader}
use micropb.Container.{PbMap}
use micropb.Container.Maps.{IsMap, DistinctKeys, AllNew, HasRoom}
use micropb.TypeSpec.{TypeSpec}
use micropb.TypeSpec as Integers
use micropb.Generated.Types.{Paths, RustType}
use micropb.Generated.Agree.{PathsAgree}
use micropb.Generated.Field.{map_field}
use micropb.Generated.Field.Values.{IsTag}
use micropb.Generated.Field.Maps.{PairCarries, map-Carries}
use micropb.Generated.Message.Members.{field, MemberReady}

module _ {P W F R E : Type 0} {wr : PbWrite W F} {rd : PbRead R E} (a : IsAppender wr)
    (h : IsReader rd) (paths : Paths P) (k : PathsAgree h paths)
    (LikeMessage : (path : P) → (paths.message_at path).Msg → (paths.message_at path).Msg → Type 0)
    (count : ℕ) (key val : TypeSpec P) (path : P) (max : Option ℕ)
    (law : IsMap (paths.map_at path max (RustType paths key) (RustType paths val)).pb_map) where
  abbrev map :
      PbMap
        (paths.map_at path max (RustType paths key) (RustType paths val)).Carrier
        (RustType paths key)
        (RustType paths val)
  map = (paths.map_at path max (RustType paths key) (RustType paths val)).pb_map

  AllNew-empty :
      (pairs : List (RustType paths key × RustType paths val))
      (old : (paths.map_at path max (RustType paths key) (RustType paths val)).Carrier)
      → map.pb_iter old ≡ []
      → AllNew map law pairs old
  AllNew-empty [] old e = tt
  AllNew-empty (p ∷ pairs) old e = (rw e tt, AllNew-empty pairs old e)

  -- A map field into an empty map that has room.
  pub map-Ready :
      (n i : ℕ) (tag_ok : IsTag n wire_type_len) (key_kind : Integers.wire_type key < 8)
      (val_kind : Integers.wire_type val < 8) (msg_has : List ℕ)
      (x old : (paths.map_at path max (RustType paths key) (RustType paths val)).Carrier)
      → map.pb_iter old ≡ []
      → All
          (PairCarries a h paths key val path max law n i tag_ok key_kind val_kind)
          (map.pb_iter x)
      → DistinctKeys (map.pb_iter x)
      → HasRoom map law (length (map.pb_iter x)) old
      → MemberReady a h paths k LikeMessage count
          (field (record { num = n; ftype = map_field key val path max; hazzer_index = i }))
          (msg_has, x)
          old
  map-Ready n i tag_ok key_kind val_kind msg_has x old empty c d room = record {
    carries = λ has good unset.
        let (y, shown, part) =
          map-Carries a h paths key val path max law n i tag_ok key_kind val_kind msg_has has x old
            c d (AllNew-empty (map.pb_iter x) old empty) room in
        record {
          after = has;
          value = y;
          like = rw (empty, append-nil) at shown;
          good = good;
          kept = λ j e. refl;
          part = part;
        };
  }
