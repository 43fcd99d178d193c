-- ===== src/Generated/Message/Carried.antt =====
-- A message whose parts read what they write, read back as a whole.
use micropb.Prelude.{ℕ, ◌≡◌, refl, arith}
use micropb.Prelude.{List, [], ◌∷◌, ◌++◌, length, length-append, ◌==◌}
use micropb.Prelude.{none, All}
use micropb.Monad.{err}
use micropb.Wire.{Tag, field_num, wire_type}
use micropb.Writer.{PbWrite}
use micropb.Encode.Output.{IsAppender, Writes, >>-Writes, pure-Writes}
use micropb.Reader.{PbRead}
use micropb.Reader.Source.{source_reader}
use micropb.Reader.Laws.{IsReader}
use micropb.Decode.{zero_field, bytes_read}
use micropb.Decode.Into.{Into}
use micropb.Decode.Refine
use micropb.Decode.Into.Agree as Over
use micropb.Decode.Into.Expect.{Fills}
use micropb.Decode.Into.Loop.{read_while-Rounds}
use micropb.RoundTrip.{CarriesInto}
use micropb.Generated.Parts.{With, Part}
use micropb.Generated.Message.{Struct, branches, message_round, decode, encode, compute_size}
use micropb.Generated.Message.{on_first, on_others, unknown_branch}
use micropb.Generated.Message.Records.{Records, no_more, Distinct, whole}
use micropb.Generated.Message.Records.{whole-Apart, Records-append, first-Records, others-Records}
use micropb.Generated.Message.Records.{Records-Rounds}

-- What a part's code does over a reader it does over the bytes to come.
pub record PartAgrees {R E : Type 0} {rd : PbRead R E} (h : IsReader rd) (part : Part)
    : Type 0 where
  pub agrees :
      (read_tag : Tag)
      → Over.Agree h (part.decode_branch rd read_tag) (part.decode_branch source_reader read_tag)

module _ {W F : Type 0} {wr : PbWrite W F} (a : IsAppender wr) (E : Type 0) where
  -- What a part writes for its share of the message `msg` has the stated size, and its branches
  -- read it record by record, from `start` to `result`.
  pub record PartCarries (part : Part) (msg start result : With part.State) : Type 0 where
    pub bytes : List ℕ
    pub writes : Writes a (part.encode wr msg) bytes
    pub sized : part.size msg ≡ length bytes
    pub records : Records E part bytes start result

  -- Each of the parts in turn, with the bytes of `_has` as the parts before it left them.
  abbrev pub PartsCarry :
      (parts : List Part) → (msg start result : With (Struct none parts)) → Type 0
  PartsCarry [] msg start result = start ≡ result
  PartsCarry (p ∷ parts) msg start result =
      (middle : List ℕ) × PartCarries p (msg.0, msg.1.0) (start.0, start.1.0) (middle, result.1.0)
      × PartsCarry parts (msg.0, msg.1.1) (middle, start.1.1) (result.0, result.1.1)

  parts-whole :
      (parts : List Part) (msg start result : With (Struct none parts))
      → Distinct parts
      → PartsCarry parts msg start result
      → PartCarries (whole parts) msg start result
  unfolding encode compute_size
  parts-whole [] msg start result d e = record {
    bytes = [];
    writes = pure-Writes a;
    sized = refl;
    records = rw e (no_more result);
  }
  parts-whole (p ∷ parts) msg start result d (middle, c, cs) =
      let rest =
        parts-whole parts (msg.0, msg.1.1) (middle, start.1.1) (result.0, result.1.1) d.1 cs in
      record {
        bytes = c.bytes ++ rest.bytes;
        writes = >>-Writes a c.writes rest.writes;
        sized = omega (arith, c.sized, rest.sized, length-append c.bytes rest.bytes);
        records =
            Records-append (whole (p ∷ parts)) (first-Records p parts c.records start.1.1)
              (others-Records p parts (whole-Apart p parts d.0) rest.records result.1.0);
      }

module _ {E : Type 0} where
  decode-Fills :
      (parts : List Part) (bytes : List ℕ) (s t : With (Struct none parts))
      → Records E (whole parts) bytes s t
      → Fills {E = E} (decode source_reader none parts (length bytes)) bytes s tt t
  unfolding decode bytes_read
  decode-Fills parts bytes s t r = record {
    reads = λ rest fault idx ignore.
        read_while-Rounds (Records-Rounds parts r) (length bytes) (length bytes) idx idx
          (omega arith) (omega arith) (omega arith) rest fault ignore;
  }

module _ {R E : Type 0} {rd : PbRead R E} (h : IsReader rd) where
  first-Agree :
      {A B : Type 0} {m : Into rd (With A) (Unit {0})} {s : Into source_reader (With A) (Unit {0})}
      → Over.Agree h m s
      → Over.Agree h (on_first rd {B = B} m) (on_first source_reader s)
  first-Agree k = record { same = λ d x. rw (k.same d (x.0, x.1.0)) }

  others-Agree :
      {A B : Type 0} {m : Into rd (With B) (Unit {0})} {s : Into source_reader (With B) (Unit {0})}
      → Over.Agree h m s
      → Over.Agree h (on_others rd {A = A} m) (on_others source_reader s)
  others-Agree k = record { same = λ d x. rw (k.same d (x.0, x.1.1)) }

  branches-Agree :
      (parts : List Part)
      → All (PartAgrees h) parts
      → (read_tag : Tag)
      → Over.Agree h (branches rd none parts read_tag) (branches source_reader none parts read_tag)
  unfolding branches unknown_branch
  branches-Agree [] k read_tag =
      Over.on_decoder-Agree h (Refine.skip_wire_value-Agree h (wire_type read_tag))
  branches-Agree (p ∷ parts) k read_tag =
      Over.if-Agree h (p.matches (field_num read_tag)) (first-Agree (k.0.agrees read_tag))
        (others-Agree (branches-Agree parts k.1 read_tag))

  pub decode-Agree :
      (parts : List Part)
      → All (PartAgrees h) parts
      → (len : ℕ) → Over.Agree h (decode rd none parts len) (decode source_reader none parts len)
  unfolding decode message_round
  decode-Agree parts k len =
      Over.>>=-Agree h (Over.on_decoder-Agree h (Refine.bytes_read-Agree h)) λ before.
        Over.read_while-Agree h
          (Over.>>=-Agree h (Over.on_decoder-Agree h (Refine.decode_tag-Agree h)) λ read_tag.
            Over.if-Agree h (field_num read_tag == 0) (Over.lift-Agree h (err zero_field))
              (branches-Agree parts k read_tag))
          len len before

module _ {W F R E : Type 0} {wr : PbWrite W F} {rd : PbRead R E} (a : IsAppender wr)
    (h : IsReader rd) where
  -- If the parts of a message, whose field numbers are distinct, are carried one after the other,
  -- the whole message is.
  pub message-CarriesInto :
      (parts : List Part) (msg start result : With (Struct none parts))
      → Distinct parts
      → All (PartAgrees h) parts
      → PartsCarry a E parts msg start result
      → CarriesInto a h
          (encode wr none parts msg)
          (decode rd none parts (compute_size none parts msg))
          (decode source_reader none parts (compute_size none parts msg))
          (compute_size none parts msg)
          start
          result
  message-CarriesInto parts msg start result d k c =
      let all = parts-whole a E parts msg start result d c in
      record {
        bytes = all.bytes;
        writes = all.writes;
        sized = all.sized;
        fills = rw all.sized (decode-Fills parts all.bytes start result all.records);
        agrees = decode-Agree h parts k (compute_size none parts msg);
      }
