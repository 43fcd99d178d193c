-- ===== src/Generated/Message/Zero.antt =====
-- Field number 0 in a generated message without an unknown handler.
use micropb.Prelude.{ℕ, zero, suc, ◌+◌, ◌-◌, ◌<◌, ◌≤◌, ◌≡◌, refl, sym, ◌∙◌, arith, true}
use micropb.Prelude.{List, ◌++◌, length, length-append, append_assoc, ◌==◌, Bool, ltb, lt→ltb}
use micropb.Prelude.{Option, none, All, eq→==}
use micropb.Monad.{err}
use micropb.Wire.{from_parts, field_num}
use micropb.Wire.Tags.{tag_parts}
use micropb.Reader.{PbRead}
use micropb.Reader.Source.{source_reader}
use micropb.Reader.Laws.{IsReader}
use micropb.Decode.{PbDecoder, DecodeError, zero_field, bytes_read}
use micropb.Decode.Expect.{at}
use micropb.Decode.Into.{Into, read_while}
use micropb.Decode.Into.Agree as Over
use micropb.Decode.Into.Loop.{Rounds, done, more}
use micropb.Generated.Parts.{With, Part}
use micropb.Generated.Message.{Struct, message_round, decode}
use micropb.Generated.Message.Records.{tag_bytes, tag_bytes-Decodes}
use micropb.Generated.Message.Carried.{PartAgrees, decode-Agree}
use micropb.Generated.Message.Unknown.{Mixed, all-Rounds, Ahead}

-- The loop over a record ends with the error of a round, and keeps what the rounds before it did.
read_while-fails :
    {E S : Type 0} {round : Into (source_reader {E = E}) S (Unit {0})} {bytes : List ℕ} {s t u : S}
    → Rounds {E = E} round bytes s t
    → (fuel len before idx j : ℕ) (rest left : List ℕ) (fault : Option E) (ignore : Bool)
    → (x : DecodeError E)
    → round (at rest fault (idx + length bytes) ignore, t) ≡ (err x, (at left fault j ignore, u))
    → length bytes < fuel
    → before ≤ idx
    → idx + length bytes < before + len
    → read_while source_reader round fuel len before (at (bytes ++ rest) fault idx ignore, s)
      ≡ (err x, (at left fault j ignore, u))
unfolding read_while bytes_read
read_while-fails (done s) zero len before idx j rest left fault ignore x e f b l =
    absurd (omega (arith, f))
read_while-fails (done s) (suc fuel) len before idx j rest left fault ignore x e f b l =
    let go : ltb (idx - before) len ≡ true = lt→ltb _ _ (omega (arith, l)) in
    let here : idx + 0 ≡ idx = omega arith in rw go (rw (rw here at e) refl)
read_while-fails (more k p r) zero len before idx j rest left fault ignore x e f b l =
    absurd (omega (arith, f))
read_while-fails (more {b} {bs} k p r) (suc fuel) len before idx j rest left fault ignore x e f q
      l =
    let go : ltb (idx - before) len ≡ true = lt→ltb _ _ (omega (arith, l)) in
    let all : idx + length (b ++ bs) ≡ idx + length b + length bs =
      omega (arith, length-append b bs) in
    rw (go, append_assoc)
      (rw (k.reads (bs ++ rest) fault idx ignore) (
        read_while-fails r fuel len before (idx + length b) j rest left fault ignore x (rw all at e)
          (omega (arith, f, p, length-append b bs)) (omega (arith, q))
          (omega (arith, l, length-append b bs))))

module _ {E : Type 0} (parts : List Part) where
  zero_round :
      (w : ℕ) (rest : List ℕ) (fault : Option E) (idx : ℕ) (ignore : Bool)
      (s : With (Struct none parts))
      → w < 8
      → message_round source_reader none parts (at (tag_bytes 0 w ++ rest) fault idx ignore, s)
        ≡ (err zero_field, (at rest fault (idx + length (tag_bytes 0 w)) ignore, s))
  unfolding message_round
  zero_round w rest fault idx ignore s kind =
      let is_zero : (field_num (from_parts 0 w) == 0) ≡ true =
        eq→== _ _ (tag_parts 0 w (omega arith) kind).0 in
      rw ((tag_bytes-Decodes 0 w (omega arith) kind).reads rest fault idx ignore) (rw is_zero refl)

module _ {R E : Type 0} {rd : PbRead R E} (h : IsReader rd) (parts : List Part)
    (k : All (PartAgrees h) parts) where
  -- When a tag with field number 0 follows well-formed fields inside a message without an unknown
  -- handler, and the length that it was told is more than those fields take, `decode` over any
  -- reader fails with `ZeroField` behind that tag, and the message keeps what the fields before it
  -- put there.
  pub zero_field_lem :
      (bytes plain rest : List ℕ) (w len : ℕ) (s t : With (Struct none parts))
      → Mixed E parts bytes plain s t
      → w < 8
      → length bytes < len
      → (d : PbDecoder R) → Ahead h parts k (bytes ++ tag_bytes 0 w) rest d
      → Over.shown h (decode rd none parts len (d, s)) ≡ (
        err zero_field,
        (
          at rest
              (h.chunks.view d.reader).fault
              (d.idx + length (bytes ++ tag_bytes 0 w))
              d.ignore_repeated_cap_err,
          t,
        ),
      )
  unfolding decode bytes_read
  zero_field_lem bytes plain rest w len s t m kind low d e =
      let all : d.idx + length (bytes ++ tag_bytes 0 w)
          ≡ d.idx + length bytes + length (tag_bytes 0 w) =
        omega (arith, length-append bytes (tag_bytes 0 w)) in
      sym ((decode-Agree h parts k len).same d s)
      ∙ rw (e, append_assoc bytes (tag_bytes 0 w) rest, all)
          (read_while-fails (all-Rounds parts m) len len d.idx d.idx _ (tag_bytes 0 w ++ rest) rest
            _ _ zero_field (zero_round parts w rest _ _ _ t kind) low (omega arith)
            (omega (arith, low)))
