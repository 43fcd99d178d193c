-- ===== src/Generated/Message/Unknown.antt =====
-- The loop of a generated message on fields that it does not know, and on field number 0.
use micropb.Prelude.{ℕ, ◌+◌, ◌^◌, ◌<◌, ◌≡◌, refl, ap, sym, ◌∙◌, arith, true, false}
use micropb.Prelude.{List, [], ◌∷◌, ◌++◌, length, length-append, ◌==◌, ◌||◌, Bool}
use micropb.Prelude.{Option, none, All, ne→==_false}
use micropb.Monad.{ok}
use micropb.Wire.{from_parts, varint, field_num}
use micropb.Wire.Tags.{tag_parts}
use micropb.Reader.{PbRead}
use micropb.Reader.Source.{Source, source_reader}
use micropb.Reader.Laws.{IsReader}
use micropb.RoundTrip.Elements.{varint_bytes-takes}
use micropb.Decode.{PbDecoder, bytes_read}
use micropb.Decode.Expect.{at}
use micropb.Decode.Skip.{WireValue, skip_value-Decodes}
use micropb.Decode.Into.Agree as Over
use micropb.Decode.Into.Expect.{Fills, on_decoder-Fills, >>=-Fills}
use micropb.Decode.Into.Loop.{Rounds, done, more, read_while-Rounds}
use micropb.Generated.Parts.{With, Part}
use micropb.Generated.Message.{Struct, branches, unknown_branch, message_round, decode}
use micropb.Generated.Message.Records.{any_part, tag_bytes, tag_bytes-Decodes}
use micropb.Generated.Message.Carried.{PartAgrees, decode-Agree}

module _ {E : Type 0} where
  branches-unknown :
      (parts : List Part) (n w : ℕ) (bytes : List ℕ) (s : With (Struct none parts))
      → n < 2 ^ 29
      → w < 8
      → any_part parts n ≡ false
      → WireValue w bytes
      → Fills {E = E} (branches source_reader none parts (from_parts n w)) bytes s tt s
  unfolding branches unknown_branch
  branches-unknown [] n w bytes s low kind e v =
      rw (tag_parts n w low kind).1 (on_decoder-Fills (skip_value-Decodes v) s)
  branches-unknown (p ∷ parts) n w bytes s low kind e v =
      let apart = or_false (p.matches n) (any_part parts n) e in
      let other : p.matches (field_num (from_parts n w)) ≡ false =
        rw (tag_parts n w low kind).0 apart.0 in
      let f = branches-unknown parts n w bytes (s.0, s.1.1) low kind apart.1 v in
      rw other (record { reads = λ rest fault idx ignore. rw (f.reads rest fault idx ignore) refl })
    where
      or_false : (x y : Bool) → (x || y) ≡ false → (x ≡ false) × (y ≡ false)
      or_false true y e = absurd cc
      or_false false y e = (refl, e)

  round-Fills :
      (parts : List Part) (n w : ℕ) (bytes : List ℕ) (s t : With (Struct none parts))
      → 0 < n
      → n < 2 ^ 29
      → w < 8
      → Fills {E = E} (branches source_reader none parts (from_parts n w)) bytes s tt t
      → Fills {E = E} (message_round source_reader none parts) (tag_bytes n w ++ bytes) s tt t
  unfolding message_round
  round-Fills parts n w bytes s t positive low kind f =
      let nonzero : (field_num (from_parts n w) == 0) ≡ false =
        rw (tag_parts n w low kind).0 (ne→==_false n 0 (λ e. omega (arith, positive, e))) in
      >>=-Fills _ (on_decoder-Fills (tag_bytes-Decodes n w low kind) s) (rw nonzero f)

-- Fields of a message on the wire, and the same bytes without those that it has no branch for.
pub data Mixed (E : Type 0) (parts : List Part)
    : List ℕ → List ℕ → With (Struct none parts) → With (Struct none parts) → Type 0 where
  no_more : (s : With (Struct none parts)) → Mixed E parts [] [] s s
  known :
      {n w : ℕ} {bytes rest plain : List ℕ} {s t u : With (Struct none parts)}
      → 0 < n
      → n < 2 ^ 29
      → w < 8
      → Fills {E = E} (branches source_reader none parts (from_parts n w)) bytes s tt t
      → Mixed E parts rest plain t u
      → Mixed E parts ((tag_bytes n w ++ bytes) ++ rest) ((tag_bytes n w ++ bytes) ++ plain) s u
  unknown :
      {n w : ℕ} {bytes rest plain : List ℕ} {s u : With (Struct none parts)}
      → 0 < n
      → n < 2 ^ 29
      → w < 8
      → any_part parts n ≡ false
      → WireValue w bytes
      → Mixed E parts rest plain s u
      → Mixed E parts ((tag_bytes n w ++ bytes) ++ rest) plain s u

behind_tag : (n w : ℕ) (bytes : List ℕ) → 0 < length (tag_bytes n w ++ bytes)
behind_tag n w bytes =
    omega (arith, length-append (tag_bytes n w) bytes, varint_bytes-takes (varint (from_parts n w)))

module _ {E : Type 0} (parts : List Part) where
  pub all-Rounds :
      {bytes plain : List ℕ} {s t : With (Struct none parts)}
      → Mixed E parts bytes plain s t
      → Rounds {E = E} (message_round source_reader none parts) bytes s t
  all-Rounds (no_more s) = done s
  all-Rounds (known {n} {w} {bytes} {s} {t} a b c f m) =
      more (round-Fills parts n w bytes s t a b c f) (behind_tag n w bytes) (all-Rounds m)
  all-Rounds (unknown {n} {w} {bytes} {s} a b c e v m) =
      more (round-Fills parts n w bytes s s a b c (branches-unknown parts n w bytes s b c e v))
        (behind_tag n w bytes) (all-Rounds m)

  plain-Rounds :
      {bytes plain : List ℕ} {s t : With (Struct none parts)}
      → Mixed E parts bytes plain s t
      → Rounds {E = E} (message_round source_reader none parts) plain s t
  plain-Rounds (no_more s) = done s
  plain-Rounds (known {n} {w} {bytes} {s} {t} a b c f m) =
      more (round-Fills parts n w bytes s t a b c f) (behind_tag n w bytes) (plain-Rounds m)
  plain-Rounds (unknown a b c e v m) = plain-Rounds m

  pub Rounds-decode :
      {bytes : List ℕ} {s t : With (Struct none parts)}
      → Rounds {E = E} (message_round source_reader none parts) bytes s t
      → (rest : List ℕ) (fault : Option E) (idx : ℕ) (ignore : Bool)
      → decode source_reader none parts (length bytes) (at (bytes ++ rest) fault idx ignore, s)
        ≡ (ok tt, (at rest fault (idx + length bytes) ignore, t))
  unfolding decode bytes_read
  Rounds-decode {bytes} r rest fault idx ignore =
      read_while-Rounds r (length bytes) (length bytes) idx idx (omega arith) (omega arith)
        (omega arith) rest fault ignore

module _ {R E : Type 0} {rd : PbRead R E} (h : IsReader rd) (parts : List Part)
    (k : All (PartAgrees h) parts) where
  -- A decoder over the reader, when these bytes come next.
  abbrev pub Ahead : List ℕ → List ℕ → PbDecoder R → Type 0
  Ahead bytes rest d = (h.chunks.view d.reader).bytes ≡ bytes ++ rest

  abbrev after : PbDecoder R → List ℕ → ℕ → PbDecoder (Source E)
  after d rest taken =
      at rest (h.chunks.view d.reader).fault (d.idx + taken) d.ignore_repeated_cap_err

  decoded :
      (bytes rest : List ℕ) (s t : With (Struct none parts)) (d : PbDecoder R)
      → Ahead bytes rest d
      → Rounds {E = E} (message_round source_reader none parts) bytes s t
      → Over.shown h (decode rd none parts (length bytes) (d, s))
        ≡ (ok tt, (after d rest (length bytes), t))
  decoded bytes rest s t d e r =
      sym ((decode-Agree h parts k (length bytes)).same d s)
      ∙ ap
          (λ u.
            decode source_reader none parts (length bytes)
              (at u (h.chunks.view d.reader).fault d.idx d.ignore_repeated_cap_err, s))
          e
      ∙ Rounds-decode parts r rest _ d.idx _

  -- For a message without an unknown handler, whose parts do the same over any reader, and its
  -- fields on the wire in any order, mixed with fields whose numbers match no branch and whose
  -- values are well formed, `decode` over any reader gives the message that it gives without those
  -- other fields, and takes all of the bytes and no more.
  pub unknown_fields_lem :
      (bytes plain rest : List ℕ) (s t : With (Struct none parts))
      → Mixed E parts bytes plain s t
      → (d d' : PbDecoder R) → Ahead bytes rest d
      → Ahead plain rest d'
      → (Over.shown h (decode rd none parts (length bytes) (d, s))
          ≡ (ok tt, (after d rest (length bytes), t)))
        × (Over.shown h (decode rd none parts (length plain) (d', s))
            ≡ (ok tt, (after d' rest (length plain), t)))
  unknown_fields_lem bytes plain rest s t m d d' e e' = (
    decoded bytes rest s t d e (all-Rounds parts m),
    decoded plain rest s t d' e' (plain-Rounds parts m),
  )
