-- ===== src/Generated/Types/Carried.antt =====
-- A value of a field's type is read back as a value that is like it: the same, or for containers
-- and messages one that shows the same.
use mathlib.Core.Bool.{true≢false}
use micropb.Prelude.{ℕ, ◌^◌, ◌<◌, ◌≡◌, refl, Bool, true, false, not, ◌&&◌}
use micropb.Prelude.{length, ◌==◌, if◌then◌else◌}
use micropb.Prelude.Int.{ℤ, InRange}
use micropb.Monad.{ok, M}
use micropb.Wire.{Presence, implicit, explicit}
use micropb.Writer.{PbWrite}
use micropb.Encode.{PbEncoder, encode_int32}
use micropb.Size.{sizeof_int32}
use micropb.Encode.Output.{IsAppender, holds}
use micropb.Reader.{PbRead}
use micropb.Reader.Source.{source_reader}
use micropb.Reader.Laws.{IsReader}
use micropb.Container.{PbString, PbVec, IsStorage}
use micropb.Utf8.{is_utf8}
use micropb.Decode.{Decoding, decode_int32}
use micropb.Decode.Into.{is_implicit}
use micropb.Decode.Into.Agree as Over
use micropb.RoundTrip.{Carries, CarriesInto}
use micropb.RoundTrip.Scalars.{bool-Carries, int32-Carries}
use micropb.RoundTrip.Fixed.{float-Carries, double-Carries}
use micropb.RoundTrip.Texts.{string-CarriesInto, bytes-CarriesInto}
use micropb.Message.Laws.{len_delimited-CarriesInto}
use micropb.TypeSpec.{TypeSpec, IntSize, type_name, is_signed, as_int, generate_encode_func}
use micropb.TypeSpec.{message, enum, float, double, bool, int, string, bytes}
use micropb.TypeSpec.Carried.{InType, codec_width, wire_value-Carries, map-Carries, as_int_lem}
use micropb.Generated.Types.{Paths, MessageType, RustType, implicit_presence_check, value_size}
use micropb.Generated.Types.{
  encode_value, decode_mut, set_value, encode_of, int_nonzero, float_nonzero,
}
use micropb.Generated.Agree.{PathsAgree}
use micropb.Generated.Field.Values.{ValueCarries}

module _ {P : Type 0} (paths : Paths P)
    (LikeMessage : (path : P)
      → (paths.message_at path).Msg
      → (paths.message_at path).Msg
      → Type 0) where
  unfoldable pub Alike : (t : TypeSpec P) → RustType paths t → RustType paths t → Type 0
  unfolding RustType
  Alike (message path) x y = LikeMessage path x y
  Alike (enum path) x y = x ≡ y
  Alike float x y = x ≡ y
  Alike double x y = x ≡ y
  Alike bool x y = x ≡ y
  Alike (int t size) x y = x ≡ y
  Alike (string path max) x y =
      (paths.string_at path max).pb_string.deref y ≡ (paths.string_at path max).pb_string.deref x
  Alike (bytes path max) x y =
      (paths.vec_at path max ℕ).pb_vec.deref y ≡ (paths.vec_at path max ℕ).pb_vec.deref x

  -- Values that are alike are present together.
  pub Alike-presence :
      (t : TypeSpec P) (x y : RustType paths t)
      → Alike t x y
      → implicit_presence_check paths t y ≡ implicit_presence_check paths t x
  unfolding Alike implicit_presence_check RustType
  Alike-presence (message path) x y e = refl
  Alike-presence (enum path) x y e = rw e refl
  Alike-presence float x y e = rw e refl
  Alike-presence double x y e = rw e refl
  Alike-presence bool x y e = rw e refl
  Alike-presence (int t size) x y e = rw e refl
  Alike-presence (string path max) x y e = rw e refl
  Alike-presence (bytes path max) x y e = rw e refl

module _ {P W F R E : Type 0} {wr : PbWrite W F} {rd : PbRead R E} (a : IsAppender wr)
    (h : IsReader rd) (paths : Paths P) (k : PathsAgree h paths)
    (LikeMessage : (path : P)
      → (paths.message_at path).Msg
      → (paths.message_at path).Msg
      → Type 0) where
  -- A string's container can be filled, and has room for the UTF-8 bytes of the value.
  pub record TextFits {S : Type 0} (s : PbString S) (x : S) : Type 0 where
    pub law : IsStorage s.container s.deref s.pb_spare_cap
    pub low : length (s.deref x) < 2 ^ 32
    pub good : is_utf8 (s.deref x) ≡ true
    pub room : holds law.capacity (length (s.deref x)) ≡ true

  pub record BytesFit {S : Type 0} (v : PbVec S ℕ) (x : S) : Type 0 where
    pub law : IsStorage v.container v.deref v.pb_spare_cap
    pub low : length (v.deref x) < 2 ^ 32
    pub room : holds law.capacity (length (v.deref x)) ≡ true

  -- A message is carried by its own code, into the message that is there.
  pub record MessageFits (m : MessageType) (Like : m.Msg → m.Msg → Type 0) (x old : m.Msg)
      : Type 0 where
    pub low : m.compute_size x < 2 ^ 32
    pub result : m.Msg
    pub like : Like x result
    pub carried :
        CarriesInto a h
          (m.encode wr x)
          ((m.message_decode rd).decode (m.compute_size x))
          ((m.message_decode source_reader).decode (m.compute_size x))
          (m.compute_size x)
          old
          result

  -- The values that the code for each type is right for, and where a message is read into.
  unfoldable pub Fits : (t : TypeSpec P) → RustType paths t → RustType paths t → Type 0
  unfolding RustType
  Fits (message path) x old = MessageFits (paths.message_at path) (LikeMessage path) x old
  Fits (enum path) x old = InRange (type_name (paths.enum_size path)) x × InRange 32 x
  Fits float x old = x < 2 ^ 32
  Fits double x old = x < 2 ^ 64
  Fits bool x old = Unit {0}
  Fits (int t size) x old =
      InType (is_signed t) (type_name size) x
      × InType (is_signed t) (codec_width (generate_encode_func t size)) x
  Fits (string path max) x old = TextFits (paths.string_at path max).pb_string x
  Fits (bytes path max) x old = BytesFit (paths.vec_at path max ℕ).pb_vec x

  set-CarriesInto :
      {V X : Type 0} (check : V → Bool) (cast : V → X) (presence : Presence) (v : V) (x old : X)
      {encode : M (PbEncoder W) F (Unit {0})} {decode : Decoding rd V}
      {plain : Decoding (source_reader {E = E}) V} {size : ℕ}
      → cast v ≡ x
      → (is_implicit presence && not (check v)) ≡ false
      → Carries a h encode decode plain size v
      → CarriesInto a h encode
          (set_value paths rd check cast presence decode)
          (set_value paths source_reader check cast presence plain)
          size
          old
          x
  set-CarriesInto check cast presence v x old same kept c = record {
    bytes = c.bytes;
    writes = c.writes;
    sized = c.sized;
    fills = record {
      reads = λ rest fault idx ignore. rw (c.decodes.reads rest fault idx ignore, kept, same) refl;
    };
    agrees = Over.>>=-Agree h (Over.on_decoder-Agree h c.agrees) λ val.
        Over.on_dest-Agree h
          λ old. (ok tt, if is_implicit presence && not (check val) then old else cast val);
  }

  -- A text is read unless it is empty and of implicit presence.
  text_kept :
      (presence : Presence) (empty : Bool)
      → (is_implicit presence && not (not empty)) ≡ false
      → (empty && is_implicit presence) ≡ false
  text_kept implicit true e = absurd (true≢false e)
  text_kept implicit false e = refl
  text_kept explicit true e = refl
  text_kept explicit false e = refl

  scalar-Carries :
      (t : TypeSpec P) (presence : Presence) (x old : RustType paths t)
      → Alike paths LikeMessage t x x
      → CarriesInto a h
          (encode_value paths wr t x)
          (decode_mut paths rd t presence)
          (decode_mut paths source_reader t presence)
          (value_size paths t x)
          old
          x
      → ValueCarries a h paths (Alike paths LikeMessage) t presence x old
  scalar-Carries t presence x old e c = record { read_back = x; like = e; carried = c }

  enum_number-Carries :
      (x : ℤ)
      → InRange 32 x
      → Carries a h
          (encode_int32 wr (as_int true 32 x))
          (decode_int32 rd)
          (decode_int32 source_reader)
          (sizeof_int32 (as_int true 32 x))
          x
  unfolding type_name
  enum_number-Carries x m =
      let same : as_int true 32 x ≡ x = as_int_lem true IntSize.s32 x m in
      rw same (int32-Carries a h x m)

  -- For every field type, a value that fits the type's code, and is not dropped by the check of
  -- implicit presence, is written by `encode_value` in `value_size` bytes and read by `decode_mut`
  -- as a value that is like it, over any writer and reader: the same scalar, a container with the
  -- same contents, or what the message's own code reads back.
  pub value-Carries :
      (t : TypeSpec P) (presence : Presence) (x old : RustType paths t)
      → (is_implicit presence && not (implicit_presence_check paths t x)) ≡ false
      → Fits t x old
      → ValueCarries a h paths (Alike paths LikeMessage) t presence x old
  unfolding Fits Alike RustType decode_mut encode_value value_size implicit_presence_check
  value-Carries (message path) presence x old e m = record {
    read_back = m.result;
    like = m.like;
    carried =
        len_delimited-CarriesInto a h (encode_of wr (paths.message_at path))
          ((paths.message_at path).message_decode rd)
          ((paths.message_at path).message_decode source_reader) x old m.result m.low m.carried
          (k.messages path);
  }
  value-Carries (enum path) presence x old e m = scalar-Carries (enum path) presence x old refl (
      set-CarriesInto int_nonzero (λ x. x) presence x x old refl e
        (map-Carries a h (as_int true (type_name (paths.enum_size path)))
          (as_int_lem true (paths.enum_size path) x m.0) (enum_number-Carries x m.1)))
  value-Carries float presence x old e m =
      scalar-Carries float presence x old refl (
        set-CarriesInto (float_nonzero 31) (λ x. x) presence x x old refl e (float-Carries a h x m))
  value-Carries double presence x old e m =
      scalar-Carries double presence x old refl (
        set-CarriesInto (float_nonzero 63) (λ x. x) presence x x old refl e
          (double-Carries a h x m))
  value-Carries bool presence x old e m =
      scalar-Carries bool presence x old refl
        (set-CarriesInto (λ x. x) (λ x. x) presence x x old refl e (bool-Carries a h x))
  value-Carries (int t size) presence x old e m = scalar-Carries (int t size) presence x old refl (
      set-CarriesInto int_nonzero (as_int (is_signed t) (type_name size)) presence x x old
        (as_int_lem (is_signed t) size x m.0) e (wire_value-Carries a h t size x m.1))
  value-Carries (string path max) presence x old e m =
      let s = (paths.string_at path max).pb_string in
      let (y, shown, c) =
        string-CarriesInto a h s m.law presence (s.deref x) m.low
          (text_kept presence (length (s.deref x) == 0) e) m.good m.room old in
      record { read_back = y; like = shown; carried = c }
  value-Carries (bytes path max) presence x old e m =
      let v = (paths.vec_at path max ℕ).pb_vec in
      let (y, shown, c) =
        bytes-CarriesInto a h v m.law presence (v.deref x) m.low
          (text_kept presence (length (v.deref x) == 0) e) m.room old in
      record { read_back = y; like = shown; carried = c }
