-- ===== src/Reader/Source.antt =====
-- The plainest reader: the bytes still to come, and what a read past them reports. It hands out
-- everything at once. Other readers are compared with it.
use micropb.Prelude.{ℕ, List, [], ◌∷◌, Option, none, some, length, take, drop, leb, if◌then◌else◌}
use micropb.Monad.{Result, ok, err}
use micropb.Reader.{PbRead}

-- With `fault = none` the end of the bytes is the end of the input; else reading on fails with it.
pub record Source (E : Type 0) : Type 0 where
  pub bytes : List ℕ
  pub fault : Option E

module _ {E : Type 0} where
  -- What is left at the end of the bytes, after `got` was read.
  abbrev pub at_end : Option E → List ℕ → Result E (List ℕ)
  at_end none got = ok got
  at_end (some e) got = err e

  abbrev pub next_chunk : List ℕ → Option E → Result E (List ℕ)
  next_chunk [] fault = at_end fault []
  next_chunk (b ∷ bs) fault = ok (b ∷ bs)

  abbrev pub skip : ℕ → Source E → Source E
  skip n s = record s { bytes = drop n s.bytes }

  abbrev pub exactly : ℕ → Source E → Result E (List ℕ)
  exactly n s = if leb n (length s.bytes) then ok (take n s.bytes) else at_end s.fault s.bytes

  abbrev pub source_reader : PbRead (Source E) E
  source_reader = record {
    pb_read_chunk = λ s. (next_chunk s.bytes s.fault, s);
    pb_advance = λ s n. skip n s;
    pb_read_exact = λ s n. (exactly n s, skip n s);
  }
