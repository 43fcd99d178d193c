-- ===== src/Message.antt =====
-- micropb/src/message.rs: the message traits with their provided methods, and the methods of the
-- encoder and the decoder that call them. The implementations for references only forward.
pub mod Laws
use micropb.Prelude.{ℕ, ◌%◌, ◌^◌}
use micropb.Monad.{Result, ok, err, out_of_fuel, M, ◌>>◌, ◌>>=◌}
use micropb.Writer.{PbWrite}
use micropb.Encode.{PbEncoder, encode_varint32}
use micropb.Reader.{PbRead}
use micropb.Decode.{Decoding}
use micropb.Decode.Into.{Into, decode_len_record}

module _ {R E : Type 0} (rd : PbRead R E) where
  -- `decode` takes the length of the message and merges into what is there.
  pub record MessageDecode (Msg : Type 0) : Type 0 where
    pub decode : ℕ → Into rd Msg (Unit {0})

  unfoldable pub decode_len_delimited : {Msg : Type 0} → MessageDecode Msg → Into rd Msg (Unit {0})
  decode_len_delimited m = decode_len_record rd (λ len before. m.decode len)

  -- `PbDecoder::decode_message`, with the message's `Default`.
  unfoldable pub decode_message : {Msg : Type 0} → Msg → MessageDecode Msg → ℕ → Decoding rd Msg
  decode_message default m len d =
      let out = (m.decode len >>= λ u p. (ok p.1, p)) (d, default) in (out.0, out.1.0)

module _ {W E : Type 0} (wr : PbWrite W E) where
  pub record MessageEncode (Msg : Type 0) : Type 0 where
    pub encode : Msg → M (PbEncoder W) E (Unit {0})
    pub compute_size : Msg → ℕ

  unfoldable pub encode_len_delimited :
      {Msg : Type 0} → MessageEncode Msg → Msg → M (PbEncoder W) E (Unit {0})
  encode_len_delimited m msg = encode_varint32 wr (m.compute_size msg % 2 ^ 32) >> m.encode msg

  -- `PbEncoder::encode_message`.
  unfoldable pub encode_message :
      {Msg : Type 0} → MessageEncode Msg → Msg → M (PbEncoder W) E (Unit {0})
  encode_message m msg = m.encode msg
