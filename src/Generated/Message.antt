-- ===== src/Generated/Message.antt =====
-- The `MessageDecode` and `MessageEncode` that `generate_decode_trait` and `generate_encode_trait` of
-- micropb-gen/src/generator/message.rs make, for the parts of the message and its unknown handler.
pub mod Records
pub mod Carried
pub mod Members
pub mod Whole
pub mod Unknown
pub mod Ends
pub mod Zero
pub mod Ready
use micropb.Prelude.{ℕ, ◌+◌, Bool, true, false, List, [], ◌∷◌, Option, none, some, ◌==◌}
use micropb.Prelude.{if◌then◌else◌}
use micropb.Monad.{ok, err, M, ◌>>=◌, ◌>>◌, pure}
use micropb.Wire.{Tag, wire_type, field_num}
use micropb.Writer.{PbWrite}
use micropb.Encode.{PbEncoder}
use micropb.Reader.{PbRead}
use micropb.Message.{MessageDecode}
use micropb.Decode.{bytes_read, decode_tag, skip_wire_value, lift, zero_field}
use micropb.Decode.Into.{Into, on_decoder, read_while}
use micropb.Generated.Types.{CustomType, MessageType}
use micropb.Generated.Parts.{With, Part, on_value}

-- The fields and oneofs of the struct, and its `_unknown`.
abbrev pub Unknown : Option CustomType → Type 0
Unknown none = Unit {0}
Unknown (some handler) = handler.Custom

abbrev pub Struct : Option CustomType → List Part → Type 0
Struct unknown [] = Unknown unknown
Struct unknown (part ∷ parts) = part.State × Struct unknown parts

module _ {R E : Type 0} (rd : PbRead R E) where
  abbrev pub on_first :
      {A B : Type 0} → Into rd (With A) (Unit {0}) → Into rd (With (A × B)) (Unit {0})
  on_first m p =
      let out = m (p.0, (p.1.0, p.1.1.0)) in (out.0, (out.1.0, (out.1.1.0, (out.1.1.1, p.1.1.1))))

  abbrev pub on_others :
      {A B : Type 0} → Into rd (With B) (Unit {0}) → Into rd (With (A × B)) (Unit {0})
  on_others m p =
      let out = m (p.0, (p.1.0, p.1.1.1)) in (out.0, (out.1.0, (out.1.1.0, (p.1.1.0, out.1.1.1))))

  abbrev pub skip : {S : Type 0} → Tag → Into rd S (Unit {0})
  skip read_tag = on_decoder rd (skip_wire_value rd (wire_type read_tag))

  unfoldable pub unknown_branch :
      (unknown : Option CustomType) → Tag → Into rd (With (Unknown unknown)) (Unit {0})
  unknown_branch none read_tag = skip read_tag
  unknown_branch (some handler) read_tag =
      on_value rd ((handler.field_decode rd).decode_field read_tag) >>= λ known.
      if known then pure tt else skip read_tag

  -- The branches of `match tag.field_num()` behind the one for 0, in their order.
  unfoldable pub branches :
      (unknown : Option CustomType) (parts : List Part)
      → Tag
      → Into rd (With (Struct unknown parts)) (Unit {0})
  branches unknown [] read_tag = unknown_branch unknown read_tag
  branches unknown (part ∷ parts) read_tag =
      let others = on_others (branches unknown parts read_tag) in
      if part.matches (field_num read_tag)
      then on_first (part.decode_branch rd read_tag)
      else others

  unfoldable pub message_round :
      (unknown : Option CustomType) (parts : List Part)
      → Into rd (With (Struct unknown parts)) (Unit {0})
  message_round unknown parts = on_decoder rd (decode_tag rd) >>= λ read_tag.
      if field_num read_tag == 0 then lift (err zero_field) else branches unknown parts read_tag

  -- Every round reads a tag, a byte or more, so `len` rounds are enough.
  unfoldable pub decode :
      (unknown : Option CustomType) (parts : List Part)
      → ℕ
      → Into rd (With (Struct unknown parts)) (Unit {0})
  decode unknown parts len = on_decoder rd (bytes_read rd) >>= λ before.
      read_while rd (message_round unknown parts) len len before

module _ {W E : Type 0} (wr : PbWrite W E) where
  abbrev pub encode_unknown :
      (unknown : Option CustomType) → Unknown unknown → M (PbEncoder W) E (Unit {0})
  encode_unknown none s = pure tt
  encode_unknown (some handler) s = handler.encode_fields wr s

  unfoldable pub encode :
      (unknown : Option CustomType) (parts : List Part)
      → With (Struct unknown parts)
      → M (PbEncoder W) E (Unit {0})
  encode unknown [] s = encode_unknown unknown s.1
  encode unknown (part ∷ parts) s = part.encode wr (s.0, s.1.0) >> encode unknown parts (s.0, s.1.1)

abbrev pub unknown_size : (unknown : Option CustomType) → Unknown unknown → ℕ
unknown_size none s = 0
unknown_size (some handler) s = handler.compute_fields_size s

unfoldable pub compute_size :
    (unknown : Option CustomType) (parts : List Part) → With (Struct unknown parts) → ℕ
compute_size unknown [] s = unknown_size unknown s.1
compute_size unknown (part ∷ parts) s =
    part.size (s.0, s.1.0) + compute_size unknown parts (s.0, s.1.1)

-- The generated type, as a type that other messages can have fields of.
abbrev pub message_type :
    (unknown : Option CustomType) (parts : List Part) → With (Struct unknown parts) → MessageType
message_type unknown parts default = record {
  Msg = With (Struct unknown parts);
  default = default;
  message_decode = λ rd. record { decode = decode rd unknown parts };
  encode = λ wr. encode wr unknown parts;
  compute_size = compute_size unknown parts;
}
