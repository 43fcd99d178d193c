-- ===== src/Decode/Counts.antt =====
-- Every method of the decoder ends, and when it succeeds it has counted at least a given number of
-- bytes.
pub mod Methods
use micropb.Prelude.{
  ℕ, zero, suc, ◌+◌, ◌-◌, ◌*◌, ◌%◌, ◌^◌, ◌<◌, ◌≤◌, ◌≡◌, refl, sym, arith, Bool, true, false,
}
use micropb.Prelude.{
  List, [], ◌∷◌, length, Option, none, some, if◌then◌else◌, ◌==◌, ltb, leb, Bool-cases, inl, inr,
}
use micropb.Prelude.{ltb_false→le, take, leb→le}
use micropb.Prelude.{bit_and, bit_or}
use micropb.Monad.{Result, ok, err, out_of_fuel, M, ◌>>=◌, go_on, pure, fail, map_ok}
use micropb.Wire.{tag, Tag, wire_type_varint, wire_type_i64, wire_type_len, wire_type_i32}
use micropb.Reader.Source.{Source, source_reader, exactly, at_end, skip}
use micropb.Reader.Laws.{source_reader-IsReader}
use micropb.Decode
use micropb.Decode.{PbDecoder, DecodeError}
use micropb.Decode.Ahead.{byte_of, skipped}
use micropb.Decode.Primitives.{get_byte-byte_of, skip_bytes-skipped}

-- Success after `n` bytes or more, or a failure.
abbrev pub Counted : {E A : Type 0} → ℕ → ℕ → Result (DecodeError E) A → ℕ → Type 0
Counted n idx (ok x) after = idx + n ≤ after
Counted n idx (err x) after = Unit {0}
Counted n idx out_of_fuel after = ⊥

module _ {E : Type 0} where
  pub record Counts {A : Type 0} (n : ℕ) (m : M (PbDecoder (Source E)) (DecodeError E) A)
      : Type 0 where
    pub counts : (d : PbDecoder (Source E)) → Counted n d.idx (m d).0 (m d).1.idx

  pub fewer :
      {A : Type 0} (n k : ℕ) (idx : ℕ) (r : Result (DecodeError E) A) (after : ℕ)
      → k ≤ n
      → Counted n idx r after
      → Counted k idx r after
  fewer n k idx (ok x) after h c = omega (arith, c)
  fewer n k idx (err x) after h c = tt
  fewer n k idx out_of_fuel after h c = c

  pub Counts-fewer :
      {A : Type 0} {m : M (PbDecoder (Source E)) (DecodeError E) A} (n k : ℕ)
      → k ≤ n
      → Counts n m
      → Counts k m
  Counts-fewer {m} n k h c = record {
    counts = λ d. fewer n k d.idx (m d).0 (m d).1.idx h (c.counts d);
  }

  pub pure-Counts : {A : Type 0} (x : A) → Counts 0 (pure x)
  pure-Counts x = record { counts = λ d. omega arith }

  pub fail-Counts : {A : Type 0} (n : ℕ) (x : DecodeError E) → Counts {A = A} n (fail x)
  fail-Counts n x = record { counts = λ d. tt }

  pub Counted-after :
      {A : Type 0} (n k idx between : ℕ) (r : Result (DecodeError E) A) (after : ℕ)
      → idx + n ≤ between
      → Counted k between r after
      → Counted (n + k) idx r after
  Counted-after n k idx between (ok x) after h c = omega (arith, h, c)
  Counted-after n k idx between (err x) after h c = tt
  Counted-after n k idx between out_of_fuel after h c = c

  go_on-Counted :
      {A B : Type 0} (n k idx : ℕ) (f : A → M (PbDecoder (Source E)) (DecodeError E) B)
      → ((x : A) → Counts k (f x))
      → (r : Result (DecodeError E) A) (d : PbDecoder (Source E)) → Counted n idx r d.idx
      → Counted (n + k) idx (go_on f r d).0 (go_on f r d).1.idx
  go_on-Counted n k idx f h (ok x) d c =
      Counted-after n k idx d.idx (f x d).0 (f x d).1.idx c ((h x).counts d)
  go_on-Counted n k idx f h (err x) d c = tt
  go_on-Counted n k idx f h out_of_fuel d c = absurd c

  pub >>=-Counts :
      {A B : Type 0} {m : M (PbDecoder (Source E)) (DecodeError E) A}
      {f : A → M (PbDecoder (Source E)) (DecodeError E) B} (n k : ℕ)
      → Counts n m
      → ((x : A) → Counts k (f x))
      → Counts (n + k) (m >>= f)
  >>=-Counts {m} {f} n k c h = record {
    counts = λ d. go_on-Counted n k d.idx f h (m d).0 (m d).1 (c.counts d);
  }

  pub map_ok-Counts :
      {A B : Type 0} {m : M (PbDecoder (Source E)) (DecodeError E) A} (n : ℕ) (f : A → B)
      → Counts n m
      → Counts n (map_ok f m)
  map_ok-Counts n f c =
      let same : n + 0 ≡ n = omega arith in rw same at (>>=-Counts n 0 c (λ x. pure-Counts (f x)))

  pub if-Counts :
      {A : Type 0} {m k : M (PbDecoder (Source E)) (DecodeError E) A} (n : ℕ) (b : Bool)
      → Counts n m
      → Counts n k
      → Counts n (if b then m else k)
  if-Counts n true c d = c
  if-Counts n false c d = d

  byte_of-Counted :
      (bytes : List ℕ) (fault : Option E) (d : PbDecoder (Source E))
      → Counted 1 d.idx (byte_of bytes fault d).0 (byte_of bytes fault d).1.idx
  byte_of-Counted [] fault d = tt
  byte_of-Counted (b ∷ bs) fault d = omega arith

  pub get_byte-Counts : Counts 1 (Decode.get_byte (source_reader {E = E}))
  get_byte-Counts = record {
    counts = λ d.
        rw (get_byte-byte_of source_reader-IsReader d)
          (byte_of-Counted d.reader.bytes d.reader.fault d);
  }

  pub skip_bytes-Counts : (n : ℕ) → Counts n (Decode.skip_bytes (source_reader {E = E}) n)
  skip_bytes-Counts n = record {
    counts = λ d. elim (Bool-cases (leb n (length d.reader.bytes))) [
      | inl fits ↦ rw (skip_bytes-skipped source_reader-IsReader n d, fits) (omega arith)
      | inr short ↦ rw (skip_bytes-skipped source_reader-IsReader n d, short) tt
    ];
  }

  pub any :
      {A : Type 0} {m : M (PbDecoder (Source E)) (DecodeError E) A} (n : ℕ)
      → Counts n m
      → Counts 0 m
  any n c = Counts-fewer n 0 (omega arith) c
