-- ===== src/Decode/Expect.antt =====
-- What a decoding operation makes of given bytes, whatever comes behind them.
use micropb.Prelude.{ℕ, ◌+◌, ◌≡◌, refl, ◌∙◌, arith, List, [], ◌∷◌, ◌++◌}
use micropb.Prelude.{length, append_assoc, length-append, Option, Bool, true}
use micropb.Prelude.{false, le→leb, leb, take-length_append, drop-length_append, le→ltb_false, ltb}
use native.Mathlib.Nat.{le_refl}
use micropb.Monad.{ok, M, ◌>>=◌, pure, map_ok}
use micropb.Reader.Source.{Source, source_reader}
use micropb.Reader.Laws.{source_reader-IsReader}
use micropb.Decode.{PbDecoder, DecodeError, get_byte, read_chunk, advance, read_exact, count_read}
use micropb.Decode.{skip_bytes}
use micropb.Decode.Primitives.{skip_bytes-skipped}

module _ {E : Type 0} where
  -- The decoder with these bytes to come.
  abbrev pub at : List ℕ → Option E → ℕ → Bool → PbDecoder (Source E)
  at bytes fault idx ignore = record {
    reader = record { bytes = bytes; fault = fault };
    idx = idx;
    ignore_repeated_cap_err = ignore;
  }

  -- The operation takes exactly `bytes` from the front of what is to come and returns `x`.
  pub record Decodes {A : Type 0} (m : M (PbDecoder (Source E)) (DecodeError E) A) (bytes : List ℕ)
      (x : A) : Type 0 where
    pub reads :
        (rest : List ℕ) (fault : Option E) (idx : ℕ) (ignore : Bool)
        → m (at (bytes ++ rest) fault idx ignore)
          ≡ (ok x, at rest fault (idx + length bytes) ignore)

  pub pure-Decodes : {A : Type 0} (x : A) → Decodes (pure x) [] x
  pure-Decodes x = record {
    reads = λ rest fault idx ignore. let same : idx + 0 ≡ idx = omega arith in rw same;
  }

  pub >>=-Decodes :
      {A B : Type 0} {m : M (PbDecoder (Source E)) (DecodeError E) A} {bytes more : List ℕ} {x : A}
      {y : B} (f : A → M (PbDecoder (Source E)) (DecodeError E) B)
      → Decodes m bytes x
      → Decodes (f x) more y
      → Decodes (m >>= f) (bytes ++ more) y
  >>=-Decodes {m} {bytes} {more} {x} {y} f h k = record {
    reads = λ rest fault idx ignore.
        let all : idx + length (bytes ++ more) ≡ idx + length bytes + length more =
          omega (arith, length-append bytes more) in
        rw (append_assoc, h.reads (more ++ rest) fault idx ignore, all)
          (k.reads rest fault (idx + length bytes) ignore);
  }

  pub map_ok-Decodes :
      {A B : Type 0} {m : M (PbDecoder (Source E)) (DecodeError E) A} {bytes : List ℕ} {x : A}
      {y : B} (f : A → B)
      → f x ≡ y
      → Decodes m bytes x
      → Decodes (map_ok f m) bytes y
  map_ok-Decodes f e h = record {
    reads = λ rest fault idx ignore. rw (h.reads rest fault idx ignore, e);
  }

  pub get_byte-Decodes : (b : ℕ) → Decodes (get_byte source_reader) (b ∷ []) b
  unfolding get_byte read_chunk advance
  get_byte-Decodes b = record { reads = λ rest fault idx ignore. refl }

  pub read_exact-Decodes :
      (bytes : List ℕ) → Decodes (read_exact source_reader (length bytes)) bytes bytes
  unfolding read_exact count_read
  read_exact-Decodes bytes = record {
    reads = λ rest fault idx ignore.
        let fits : leb (length bytes) (length (bytes ++ rest)) ≡ true =
          le→leb _ _ (omega (arith, length-append bytes rest)) in
        let whole : ltb (length bytes) (length bytes) ≡ false = le→ltb_false _ _ (le_refl _) in
        rw (fits, take-length_append bytes rest, drop-length_append bytes rest) (rw whole);
  }

  pub skip_bytes-Decodes :
      (bytes : List ℕ) → Decodes (skip_bytes source_reader (length bytes)) bytes tt
  skip_bytes-Decodes bytes = record {
    reads = λ rest fault idx ignore.
        let fits : leb (length bytes) (length (bytes ++ rest)) ≡ true =
          le→leb _ _ (omega (arith, length-append bytes rest)) in
        skip_bytes-skipped source_reader-IsReader (length bytes)
          (at (bytes ++ rest) fault idx ignore)
        ∙ rw (fits, drop-length_append bytes rest);
  }
