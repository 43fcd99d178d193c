-- ===== src/RoundTrip.antt =====
-- Encoder, sizes and decoder together: what is written for a value has the stated size and is read
-- back, over any writer that appends and any reader that keeps the promises of `PbRead`.
pub mod Packed
pub mod MapElem
pub mod Elements
pub mod Texts
pub mod Scalars
pub mod Fixed
use micropb.Prelude.{ℕ, ◌<◌, ◌≡◌, List, length}
use micropb.Monad.{M}
use micropb.Writer.{PbWrite}
use micropb.Reader.{PbRead}
use micropb.Reader.Source.{Source, source_reader}
use micropb.Reader.Laws.{IsReader}
use micropb.Encode.{PbEncoder}
use micropb.Encode.Output.{IsAppender, Writes}
use micropb.Decode.{PbDecoder, DecodeError}
use micropb.Decode.Agree.{Agree}
use micropb.Decode.Expect.{Decodes}
use micropb.Decode.Into.{Into}
use micropb.Decode.Into.Expect.{Fills}
use micropb.Decode.Into.Agree as Over

module _ {W F R E : Type 0} {wr : PbWrite W F} {rd : PbRead R E} (a : IsAppender wr)
    (h : IsReader rd) where
  -- An encoder call, a decoder call over the reader and over the plain bytes, a size, and the value
  -- that goes through them.
  pub record Carries {A : Type 0} (encode : M (PbEncoder W) F (Unit {0}))
      (decode : M (PbDecoder R) (DecodeError E) A)
      (plain : M (PbDecoder (Source E)) (DecodeError E) A) (size : ℕ) (x : A) : Type 0 where
    pub bytes : List ℕ
    pub writes : Writes a encode bytes
    pub sized : size ≡ length bytes
    pub decodes : Decodes plain bytes x
    pub agrees : Agree h decode plain

  -- The same for a decoder call that takes a destination from `s` to `t`.
  pub record CarriesInto {S : Type 0} (encode : M (PbEncoder W) F (Unit {0}))
      (decode : Into rd S (Unit {0})) (plain : Into (source_reader {E = E}) S (Unit {0})) (size : ℕ)
      (s t : S) : Type 0 where
    pub bytes : List ℕ
    pub writes : Writes a encode bytes
    pub sized : size ≡ length bytes
    pub fills : Fills plain bytes s tt t
    pub agrees : Over.Agree h decode plain

  -- The calls for the elements of a repeated field, each of which takes a byte or more.
  pub record CarriesEach {T : Type 0} (P : T → Type 0) (encoder : T → M (PbEncoder W) F (Unit {0}))
      (decoder : M (PbDecoder R) (DecodeError E) T)
      (plain : M (PbDecoder (Source E)) (DecodeError E) T) (sizer : T → ℕ) : Type 0 where
    pub wire : T → List ℕ
    pub writes : (x : T) → P x → Writes a (encoder x) (wire x)
    pub sized : (x : T) → P x → sizer x ≡ length (wire x)
    pub decodes : (x : T) → P x → Decodes plain (wire x) x
    pub takes_bytes : (x : T) → 0 < length (wire x)
    pub agrees : Agree h decoder plain
