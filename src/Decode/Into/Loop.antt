-- ===== src/Decode/Into/Loop.antt =====
-- `decode_len_record` and the loops inside it.
use micropb.Prelude.{ℕ, zero, suc, ◌+◌, ◌-◌, ◌%◌, ◌^◌, ◌≤◌, ◌<◌, ◌≡◌, ap, arith}
use micropb.Prelude.{List, [], ◌++◌, length, append_assoc, length-append, Option, Bool, true}
use micropb.Prelude.{false, ltb, ◌==◌, Bool-cases, inl, inr, if◌then◌else◌, lt→ltb, le→ltb_false}
use micropb.Monad.{ok, err}
use micropb.Encode.Bytes.{varint_bytes}
use micropb.Reader.Source.{Source, source_reader}
use micropb.Decode.{PbDecoder, wrong_len, check_len, bytes_read}
use micropb.Decode.Expect.{at}
use micropb.Decode.Varint32.{decode_varint32-Decodes}
use micropb.Decode.Into.{Into, decode_len_record, read_while}
use micropb.Decode.Into.Expect.{Fills}

check_len_lem :
    {E T : Type 0} (len before : ℕ) (val : T) (d : PbDecoder (Source E))
    → check_len source_reader len before val d
      ≡ (if (d.idx - before) == len then ok val else err wrong_len, d)
unfolding check_len bytes_read
check_len_lem len before val d = elim (Bool-cases ((d.idx - before) == len)) [
  | inl same ↦ rw same
  | inr other ↦ rw other
]

module _ {E S : Type 0} where
  -- When the callback of `decode_len_record`, given the length from a prefix below 2 ^ 32,
  -- succeeds, its result is returned if it counted as many bytes as the prefix says, and `WrongLen`
  -- otherwise, with the decoder as the callback left it.
  pub decode_len_record_lem :
      {T : Type 0} (f : ℕ → ℕ → Into (source_reader {E = E}) S T) (len : ℕ)
      → len < 2 ^ 32
      → (bytes rest : List ℕ) (fault : Option E) (idx j : ℕ) (ignore : Bool) (s t : S) (x : T)
      → f len
          (idx + length (varint_bytes len))
          (at bytes fault (idx + length (varint_bytes len)) ignore, s)
        ≡ (ok x, (at rest fault j ignore, t))
      → decode_len_record source_reader f (at (varint_bytes len ++ bytes) fault idx ignore, s) ≡ (
        if (j - (idx + length (varint_bytes len))) == len then ok x else err wrong_len,
        (at rest fault j ignore, t),
      )
  unfolding decode_len_record bytes_read
  decode_len_record_lem f len h bytes rest fault idx j ignore s t x e =
      let low : len % 2 ^ 32 ≡ len = omega arith in
      let prefix =
        rw low at
          ((decode_varint32-Decodes {E = E} len (omega arith)).reads bytes fault idx ignore) in
      rw (prefix, e)
        (ap (λ out. (out.0, (out.1, t)))
          (check_len_lem len (idx + length (varint_bytes len)) x (at rest fault j ignore)))

  -- Rounds of a loop, each of which takes a byte or more.
  pub data Rounds (round : Into (source_reader {E = E}) S (Unit {0}))
      : List ℕ → S → S → Type 0 where
    done : (s : S) → Rounds round [] s s
    more :
        {b bs : List ℕ} {s t u : S}
        → Fills round b s tt t
        → 0 < length b
        → Rounds round bs t u
        → Rounds round (b ++ bs) s u

  pub read_while-Rounds :
      {round : Into (source_reader {E = E}) S (Unit {0})} {bytes : List ℕ} {s t : S}
      → Rounds round bytes s t
      → (fuel len before idx : ℕ) → length bytes ≤ fuel
      → before ≤ idx
      → idx + length bytes ≡ before + len
      → (rest : List ℕ) (fault : Option E) (ignore : Bool)
      → read_while source_reader round fuel len before (at (bytes ++ rest) fault idx ignore, s)
        ≡ (ok tt, (at rest fault (idx + length bytes) ignore, t))
  unfolding read_while bytes_read
  read_while-Rounds (done s) zero len before idx h k e rest fault ignore =
      let stop : ltb (idx - before) len ≡ false = le→ltb_false _ _ (omega (arith, e)) in
      let same : idx + 0 ≡ idx = omega arith in rw (stop, same)
  read_while-Rounds (done s) (suc fuel) len before idx h k e rest fault ignore =
      let stop : ltb (idx - before) len ≡ false = le→ltb_false _ _ (omega (arith, e)) in
      let same : idx + 0 ≡ idx = omega arith in rw (stop, same)
  read_while-Rounds (more {b} {bs} f p r) zero len before idx h k e rest fault ignore =
      absurd (omega (arith, h, p, length-append b bs))
  read_while-Rounds (more {b} {bs} f p r) (suc fuel) len before idx h k e rest fault ignore =
      let go : ltb (idx - before) len ≡ true =
        lt→ltb _ _ (omega (arith, e, p, length-append b bs)) in
      let all : idx + length (b ++ bs) ≡ idx + length b + length bs =
        omega (arith, length-append b bs) in
      rw (go, append_assoc, all)
        (rw (f.reads (bs ++ rest) fault idx ignore) (
          read_while-Rounds r fuel len before (idx + length b)
            (omega (arith, h, p, length-append b bs)) (omega arith)
            (omega (arith, e, length-append b bs)) rest fault ignore))
