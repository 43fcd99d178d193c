-- ===== src/Field.antt =====
-- micropb/src/field.rs: the field traits, and their implementations for `Option`. The ones for
-- references only forward.
pub mod Laws
use micropb.Prelude.{ℕ, Bool, Option, none, some}
use micropb.Monad.{M, pure}
use micropb.Wire.{Tag}
use micropb.Writer.{PbWrite}
use micropb.Encode.{PbEncoder}
use micropb.Reader.{PbRead}
use micropb.Decode.Into.{Into, get_or}

module _ {R E : Type 0} (rd : PbRead R E) where
  pub record FieldDecode (F : Type 0) : Type 0 where
    pub decode_field : Tag → Into rd F Bool

  -- `None` is replaced by the default before the field is decoded, recognized or not.
  unfoldable pub option_decode : {F : Type 0} → F → FieldDecode F → FieldDecode (Option F)
  option_decode default f = record {
    decode_field = λ tag p.
        let out = f.decode_field tag (p.0, get_or default p.1) in (out.0, (out.1.0, some out.1.1));
  }

module _ {W E : Type 0} (wr : PbWrite W E) where
  pub record FieldEncode (F : Type 0) : Type 0 where
    pub encode_fields : F → M (PbEncoder W) E (Unit {0})
    pub compute_fields_size : F → ℕ

  abbrev option_fields : {F : Type 0} → FieldEncode F → Option F → M (PbEncoder W) E (Unit {0})
  option_fields f none = pure tt
  option_fields f (some x) = f.encode_fields x

  -- The size of a present field is computed and dropped: the result is 0 for both.
  abbrev option_size : {F : Type 0} → FieldEncode F → Option F → ℕ
  option_size f none = 0
  option_size f (some x) = let dropped = f.compute_fields_size x in 0

  unfoldable pub option_encode : {F : Type 0} → FieldEncode F → FieldEncode (Option F)
  option_encode f = record { encode_fields = option_fields f; compute_fields_size = option_size f }
