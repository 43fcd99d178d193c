-- ===== src/Generated/Message/Records.antt =====
-- The records that the branches of a generated message read, as rounds of its loop.
use micropb.Prelude.{ℕ, ◌^◌, ◌<◌, ◌≡◌, refl, arith, Bool, true, false}
use micropb.Prelude.{List, [], ◌∷◌, ◌++◌, length-append, append_assoc, ◌==◌}
use micropb.Prelude.{none, ◌||◌, Bool-cases, inl, inr, ne→==_false}
use micropb.RoundTrip.Elements.{varint_bytes-takes}
use micropb.Wire.{from_parts, varint, field_num}
use micropb.Wire.Tags.{varint-from_parts, tag_parts}
use micropb.Encode.Bytes.{varint_bytes}
use micropb.Reader.Source.{source_reader}
use micropb.Decode.{decode_tag}
use micropb.Decode.Expect.{Decodes}
use micropb.Decode.Values.{tag-Decodes}
use micropb.Decode.Into.Expect.{Fills, on_decoder-Fills, >>=-Fills}
use micropb.Decode.Into.Loop.{Rounds, done, more}
use micropb.Generated.Parts.{With, Part}
use micropb.Generated.Message.{Struct, branches, message_round, encode, compute_size}

abbrev pub tag_bytes : ℕ → ℕ → List ℕ
tag_bytes n w = varint_bytes (varint (from_parts n w))

pub tag_bytes-Decodes :
    {E : Type 0} (n w : ℕ)
    → n < 2 ^ 29
    → w < 8
    → Decodes {E = E} (decode_tag source_reader) (tag_bytes n w) (from_parts n w)
unfolding from_parts varint
tag_bytes-Decodes n w h k =
    tag-Decodes (varint (from_parts n w)) (omega (arith, varint-from_parts n w h k))

module _ (E : Type 0) (part : Part) where
  -- Records that the branches of a part read one after the other.
  pub data Records : List ℕ → With part.State → With part.State → Type 0 where
    no_more : (s : With part.State) → Records [] s s
    then_more :
        {n w : ℕ} {bytes rest : List ℕ} {s t u : With part.State}
        → 0 < n
        → n < 2 ^ 29
        → w < 8
        → part.matches n ≡ true
        → Fills {E = E} (part.decode_branch source_reader (from_parts n w)) bytes s tt t
        → Records rest t u
        → Records ((tag_bytes n w ++ bytes) ++ rest) s u

-- The numbers of the one part are not those of the other.
abbrev pub Apart : Part → Part → Type 0
Apart p q = (n : ℕ) → q.matches n ≡ true → p.matches n ≡ false

abbrev pub ApartFrom : Part → List Part → Type 0
ApartFrom p [] = Unit {0}
ApartFrom p (q ∷ parts) = Apart p q × ApartFrom p parts

abbrev pub Distinct : List Part → Type 0
Distinct [] = Unit {0}
Distinct (p ∷ parts) = ApartFrom p parts × Distinct parts

abbrev pub any_part : List Part → ℕ → Bool
any_part [] n = false
any_part (p ∷ parts) n = p.matches n || any_part parts n

-- The parts of a message together.
abbrev pub whole : List Part → Part
whole parts = record {
  State = Struct none parts;
  matches = any_part parts;
  decode_branch = λ rd. branches rd none parts;
  encode = λ wr. encode wr none parts;
  size = compute_size none parts;
}

pub whole-Apart : (p : Part) (parts : List Part) → ApartFrom p parts → Apart p (whole parts)
whole-Apart p [] h n e = absurd cc
whole-Apart p (q ∷ parts) h n e = elim (Bool-cases (q.matches n)) [
  | inl matched ↦ h.0 n matched
  | inr other ↦ whole-Apart p parts h.1 n (rw other at e)
]

module _ {E : Type 0} where
  pub Records-append :
      (part : Part) {b c : List ℕ} {s t u : With part.State}
      → Records E part b s t
      → Records E part c t u
      → Records E part (b ++ c) s u
  Records-append part (no_more s) r = r
  Records-append part (then_more {n} {w} {bytes} {rest} a b c d f q) r =
      rw (append_assoc (tag_bytes n w ++ bytes) rest _)
        (then_more a b c d f (Records-append part q r))

  module _ (p : Part) (parts : List Part) where
    first-Fills :
        (n w : ℕ) (bytes h k : List ℕ) (x y : p.State) (z : Struct none parts)
        → n < 2 ^ 29
        → w < 8
        → p.matches n ≡ true
        → Fills {E = E} (p.decode_branch source_reader (from_parts n w)) bytes (h, x) tt (k, y)
        → Fills {E = E}
            (branches source_reader none (p ∷ parts) (from_parts n w))
            bytes
            (h, (x, z))
            tt
            (k, (y, z))
    unfolding branches
    first-Fills n w bytes h k x y z low kind matched f =
        let mine : p.matches (field_num (from_parts n w)) ≡ true =
          rw (tag_parts n w low kind).0 matched in
        rw mine
          (record { reads = λ rest fault idx ignore. rw (f.reads rest fault idx ignore) refl })

    others-Fills :
        (n w : ℕ) (bytes h k : List ℕ) (x : p.State) (y z : Struct none parts)
        → n < 2 ^ 29
        → w < 8
        → p.matches n ≡ false
        → Fills {E = E} (branches source_reader none parts (from_parts n w)) bytes (h, y) tt (k, z)
        → Fills {E = E}
            (branches source_reader none (p ∷ parts) (from_parts n w))
            bytes
            (h, (x, y))
            tt
            (k, (x, z))
    unfolding branches
    others-Fills n w bytes h k x y z low kind unmatched f =
        let other : p.matches (field_num (from_parts n w)) ≡ false =
          rw (tag_parts n w low kind).0 unmatched in
        rw other
          (record { reads = λ rest fault idx ignore. rw (f.reads rest fault idx ignore) refl })

    pub first-Records :
        {bytes : List ℕ} {s t : With p.State}
        → Records E p bytes s t
        → (z : Struct none parts)
        → Records E (whole (p ∷ parts)) bytes (s.0, (s.1, z)) (t.0, (t.1, z))
    first-Records (no_more s) z = no_more (s.0, (s.1, z))
    first-Records (then_more {n} {w} {bytes} {s} {t} a b c d f q) z =
        then_more a b c (rw d refl) (first-Fills n w bytes s.0 t.0 s.1 t.1 z b c d f)
          (first-Records q z)

    pub others-Records :
        {bytes : List ℕ} {s t : With (Struct none parts)}
        → Apart p (whole parts)
        → Records E (whole parts) bytes s t
        → (x : p.State) → Records E (whole (p ∷ parts)) bytes (s.0, (x, s.1)) (t.0, (x, t.1))
    others-Records h (no_more s) x = no_more (s.0, (x, s.1))
    others-Records h (then_more {n} {w} {bytes} {s} {t} a b c d f q) x =
        then_more a b c (rw (h n d) d) (others-Fills n w bytes s.0 t.0 x s.1 t.1 b c (h n d) f)
          (others-Records h q x)

  -- The records are rounds of the message's loop.
  pub Records-Rounds :
      (parts : List Part) {bytes : List ℕ} {s t : With (Struct none parts)}
      → Records E (whole parts) bytes s t
      → Rounds {E = E} (message_round source_reader none parts) bytes s t
  unfolding message_round
  Records-Rounds parts (no_more s) = done s
  Records-Rounds parts (then_more {n} {w} {bytes} {s} a b c d f q) =
      let nonzero : (field_num (from_parts n w) == 0) ≡ false =
        rw (tag_parts n w b c).0 (ne→==_false n 0 (λ e. omega (arith, a, e))) in
      more (>>=-Fills _ (on_decoder-Fills (tag_bytes-Decodes n w b c) s) (rw nonzero f))
        (omega (
          arith,
          length-append (tag_bytes n w) bytes,
          varint_bytes-takes (varint (from_parts n w)),
        ))
        (Records-Rounds parts q)
