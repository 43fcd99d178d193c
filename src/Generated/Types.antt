-- ===== src/Generated/Types.antt =====
-- What the generated code does with a value of each field type: the methods of `TypeSpec` in
-- micropb-gen/src/generator/type_spec.rs, applied to the code that they make.
pub mod Carried
use micropb.Prelude.{ℕ, ◌+◌, ◌^◌, Bool, true, false, not, Option, none, some, List, length, ◌==◌}
use micropb.Prelude.{if◌then◌else◌, ◌||◌, ◌&&◌}
use micropb.Prelude.Int.{ℤ, pos, negsuc}
use micropb.Monad.{ok, M, ◌>>=◌, ◌>>◌, map_ok}
use micropb.Wire.{Presence, implicit, explicit}
use micropb.Writer.{PbWrite}
use micropb.Encode
use micropb.Encode.{PbEncoder}
use micropb.Size.{sizeof_int32, sizeof_len_record}
use micropb.Reader.{PbRead}
use micropb.Container.{PbVec, PbString, PbMap}
use micropb.Decode
use micropb.Decode.{Decoding}
use micropb.Decode.Into.{Into, on_decoder, on_dest, decode_string, decode_bytes, is_implicit}
use micropb.Field.{FieldDecode}
use micropb.Message.{MessageDecode, MessageEncode, decode_len_delimited, encode_len_delimited}
use micropb.TypeSpec.{TypeSpec, IntSize, type_name, as_int}
use micropb.TypeSpec.{message, enum, float, double, bool, int, string, bytes}
use micropb.TypeSpec as Integers

-- The Rust types that the generated code names by a path, with their `Default` and the traits that
-- it calls them by.
pub record MessageType : Type 1 where
  pub Msg : Type 0
  pub default : Msg
  pub message_decode : {R E : Type 0} (rd : PbRead R E) → MessageDecode rd Msg
  pub encode : {W E : Type 0} (wr : PbWrite W E) → Msg → M (PbEncoder W) E (Unit {0})
  pub compute_size : Msg → ℕ

pub record StringType : Type 1 where
  pub Str : Type 0
  pub pb_string : PbString Str
  pub default : Str

pub record VecType (T : Type 0) : Type 1 where
  pub Carrier : Type 0
  pub pb_vec : PbVec Carrier T
  pub default : Carrier

pub record MapType (K V : Type 0) : Type 1 where
  pub Carrier : Type 0
  pub pb_map : PbMap Carrier K V
  pub default : Carrier

pub record CustomType : Type 1 where
  pub Custom : Type 0
  pub default : Custom
  pub field_decode : {R E : Type 0} (rd : PbRead R E) → FieldDecode rd Custom
  pub encode_fields : {W E : Type 0} (wr : PbWrite W E) → Custom → M (PbEncoder W) E (Unit {0})
  pub compute_fields_size : Custom → ℕ

abbrev pub encode_of : {W E : Type 0} (wr : PbWrite W E) (t : MessageType) → MessageEncode wr t.Msg
encode_of wr t = record { encode = t.encode wr; compute_size = t.compute_size }

-- What the paths stand for; an enum is a struct of one integer, whose width the path also gives.
pub record Paths (P : Type 0) : Type 1 where
  pub message_at : P → MessageType
  pub enum_size : P → IntSize
  pub enum_default : P → ℤ
  pub string_at : P → Option ℕ → StringType
  pub vec_at : P → Option ℕ → (T : Type 0) → VecType T
  pub map_at : P → Option ℕ → (K V : Type 0) → MapType K V
  pub custom_at : P → CustomType

-- `x != 0`.
abbrev pub int_nonzero : ℤ → Bool
int_nonzero (pos n) = not (n == 0)
int_nonzero (negsuc n) = true

-- `x != 0.0` on the bits of a float with `n` bits behind the sign: there are two zeros.
abbrev pub float_nonzero : ℕ → ℕ → Bool
float_nonzero n x = not ((x == 0) || (x == 2 ^ n))

module _ {P : Type 0} (paths : Paths P) where
  unfoldable pub RustType : TypeSpec P → Type 0
  RustType (message path) = (paths.message_at path).Msg
  RustType (enum path) = ℤ
  RustType float = ℕ
  RustType double = ℕ
  RustType bool = Bool
  RustType (int t size) = ℤ
  RustType (string path max) = (paths.string_at path max).Str
  RustType (bytes path max) = (paths.vec_at path max ℕ).Carrier

  -- `Default::default()` of that type.
  unfoldable pub type_default : (t : TypeSpec P) → RustType t
  unfolding RustType
  type_default (message path) = (paths.message_at path).default
  type_default (enum path) = paths.enum_default path
  type_default float = 0
  type_default double = 0
  type_default bool = false
  type_default (int t size) = pos 0
  type_default (string path max) = (paths.string_at path max).default
  type_default (bytes path max) = (paths.vec_at path max ℕ).default

  unfoldable pub implicit_presence_check : (t : TypeSpec P) → RustType t → Bool
  unfolding RustType
  implicit_presence_check (message path) x = true
  implicit_presence_check (enum path) x = int_nonzero x
  implicit_presence_check float x = float_nonzero 31 x
  implicit_presence_check double x = float_nonzero 63 x
  implicit_presence_check bool x = x
  implicit_presence_check (int t size) x = int_nonzero x
  implicit_presence_check (string path max) x =
      not (length ((paths.string_at path max).pb_string.deref x) == 0)
  implicit_presence_check (bytes path max) x =
      not (length ((paths.vec_at path max ℕ).pb_vec.deref x) == 0)

  unfoldable pub value_size : (t : TypeSpec P) → RustType t → ℕ
  unfolding RustType
  value_size (message path) x = sizeof_len_record ((paths.message_at path).compute_size x)
  value_size (enum path) x = sizeof_int32 (as_int true 32 x)
  value_size float x = 4
  value_size double x = 8
  value_size bool x = 1
  value_size (int t size) x = Integers.generate_sizeof t size x
  value_size (string path max) x =
      sizeof_len_record (length ((paths.string_at path max).pb_string.deref x))
  value_size (bytes path max) x =
      sizeof_len_record (length ((paths.vec_at path max ℕ).pb_vec.deref x))

  module _ {W E : Type 0} (wr : PbWrite W E) where
    unfoldable pub encode_value : (t : TypeSpec P) → RustType t → M (PbEncoder W) E (Unit {0})
    unfolding RustType
    encode_value (message path) x = encode_len_delimited wr (encode_of wr (paths.message_at path)) x
    encode_value (enum path) x = Encode.encode_int32 wr (as_int true 32 x)
    encode_value float x = Encode.encode_float wr x
    encode_value double x = Encode.encode_double wr x
    encode_value bool x = Encode.encode_bool wr x
    encode_value (int t size) x = Integers.generate_encode_expr wr t size x
    encode_value (string path max) x =
        Encode.encode_string wr ((paths.string_at path max).pb_string.deref x)
    encode_value (bytes path max) x =
        Encode.encode_bytes wr ((paths.vec_at path max ℕ).pb_vec.deref x)

  module _ {R E : Type 0} (rd : PbRead R E) where
    -- `generate_decode_val`, with the cast to the element's type that the code of a repeated field
    -- puts on it.
    unfoldable pub decode_val : (t : TypeSpec P) → Option (Decoding rd (RustType t))
    unfolding RustType
    decode_val float = some (Decode.decode_float rd)
    decode_val double = some (Decode.decode_double rd)
    decode_val bool = some (Decode.decode_bool rd)
    decode_val (int t size) = some (Integers.generate_decode_val rd t size)
    decode_val (enum path) =
        some (map_ok (as_int true (type_name (paths.enum_size path))) (Decode.decode_int32 rd))
    decode_val (message path) = none
    decode_val (string path max) = none
    decode_val (bytes path max) = none

    -- `*mut_ref = val as _`, under the presence check if the presence is implicit. The check is on
    -- the value as it was decoded, before the cast.
    abbrev pub set_value :
        {V X : Type 0} → (V → Bool) → (V → X) → Presence → Decoding rd V → Into rd X (Unit {0})
    set_value check cast presence decode = on_decoder rd decode >>= λ val.
        on_dest rd
          (λ old. (ok tt, if is_implicit presence && not (check val) then old else cast val))

    unfoldable pub decode_mut : (t : TypeSpec P) → Presence → Into rd (RustType t) (Unit {0})
    unfolding RustType
    decode_mut (message path) presence =
        decode_len_delimited rd ((paths.message_at path).message_decode rd)
    decode_mut (enum path) presence =
        set_value int_nonzero (λ x. x) presence
          (map_ok (as_int true (type_name (paths.enum_size path))) (Decode.decode_int32 rd))
    decode_mut float presence =
        set_value (float_nonzero 31) (λ x. x) presence (Decode.decode_float rd)
    decode_mut double presence =
        set_value (float_nonzero 63) (λ x. x) presence (Decode.decode_double rd)
    decode_mut bool presence = set_value (λ x. x) (λ x. x) presence (Decode.decode_bool rd)
    decode_mut (int t size) presence =
        set_value int_nonzero (as_int (Integers.is_signed t) (type_name size)) presence
          (Integers.call_decode rd (Integers.generate_decode_func t size))
    decode_mut (string path max) presence =
        decode_string rd (paths.string_at path max).pb_string presence
    decode_mut (bytes path max) presence = decode_bytes rd (paths.vec_at path max ℕ).pb_vec presence
