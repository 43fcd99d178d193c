-- ===== src/Decode/Counts/Methods.antt =====
-- The methods of the decoder.
use micropb.Prelude.{ℕ, zero, suc, ◌+◌, arith}
use micropb.Prelude.{List, length, Option, none, some, ◌==◌, ltb, leb, Bool-cases, inl, inr}
use micropb.Prelude.{ltb_false→le}
use micropb.Prelude.{bit_and}
use micropb.Monad.{Result, ok, err, out_of_fuel, M, ◌>>=◌, pure}
use micropb.Wire.{tag, wire_type_varint, wire_type_i64, wire_type_len, wire_type_i32}
use micropb.Reader.Source.{Source, source_reader, exactly, at_end, skip}
use micropb.Decode
use micropb.Decode.{PbDecoder, DecodeError}
use micropb.Decode.Counts.{Counted, Counts, Counts-fewer, pure-Counts, fail-Counts, >>=-Counts}
use micropb.Decode.Counts.{map_ok-Counts, if-Counts, get_byte-Counts, skip_bytes-Counts, any}

abbrev pub IsDone : {E A : Type 0} → Result E A → Type 0
IsDone (ok x) = Unit {0}
IsDone (err x) = Unit {0}
IsDone out_of_fuel = ⊥

at_end-IsDone : {E : Type 0} (fault : Option E) (bytes : List ℕ) → IsDone (at_end fault bytes)
at_end-IsDone none bytes = tt
at_end-IsDone (some e) bytes = tt

module _ {E : Type 0} where
  varint32_loop-Counts :
      (rounds i varint bitpos : ℕ)
      → Counts 0 (Decode.varint32_loop (source_reader {E = E}) rounds i varint bitpos)
  unfolding Decode.varint32_loop
  varint32_loop-Counts zero i varint bitpos = fail-Counts 0 _
  varint32_loop-Counts (suc rounds) i varint bitpos = Counts-fewer 1 0 (omega arith) (
      >>=-Counts 1 0 get_byte-Counts
        λ b. if-Counts 0 (bit_and b 0x80 == 0) (pure-Counts _) (varint32_loop-Counts rounds _ _ _))

  pub decode_varint32-Counts : Counts 1 (Decode.decode_varint32 (source_reader {E = E}))
  unfolding Decode.decode_varint32
  decode_varint32-Counts =
      >>=-Counts 1 0 get_byte-Counts
        λ b. if-Counts 0 (bit_and b 0x80 == 0) (pure-Counts b) (varint32_loop-Counts 9 _ _ _)

  varint64_loop-Counts :
      (rounds varint bitpos : ℕ)
      → Counts 0 (Decode.varint64_loop (source_reader {E = E}) rounds varint bitpos)
  unfolding Decode.varint64_loop
  varint64_loop-Counts zero varint bitpos = fail-Counts 0 _
  varint64_loop-Counts (suc rounds) varint bitpos = Counts-fewer 1 0 (omega arith) (
      >>=-Counts 1 0 get_byte-Counts
        λ b. if-Counts 0 (bit_and b 0x80 == 0) (pure-Counts _) (varint64_loop-Counts rounds _ _))

  pub decode_varint64-Counts : Counts 1 (Decode.decode_varint64 (source_reader {E = E}))
  unfolding Decode.decode_varint64
  decode_varint64-Counts =
      >>=-Counts 1 0 get_byte-Counts
        λ b. if-Counts 0 (bit_and b 0x80 == 0) (pure-Counts b) (varint64_loop-Counts 9 _ _)

  count_read-Counts :
      (n : ℕ) (bytes : List ℕ) → Counts n (Decode.count_read (source_reader {E = E}) n bytes)
  unfolding Decode.count_read
  count_read-Counts n bytes = record {
    counts = λ d. elim (Bool-cases (ltb (length bytes) n)) [
      | inl short ↦ rw short tt
      | inr whole ↦ rw whole (omega (arith, ltb_false→le (length bytes) n whole))
    ];
  }

  -- The reader's call moves no count.
  from_reader-Counted :
      {A : Type 0} (d : PbDecoder (Source E)) (r : Result E A) (s : Source E)
      → IsDone r
      → Counted 0 d.idx (Decode.from_reader d r s).0 (Decode.from_reader d r s).1.idx
  from_reader-Counted d (ok x) s h = omega arith
  from_reader-Counted d (err x) s h = tt
  from_reader-Counted d out_of_fuel s h = h

  exactly-IsDone : (n : ℕ) (s : Source E) → IsDone (exactly n s)
  exactly-IsDone n s = elim (Bool-cases (leb n (length s.bytes))) [
    | inl fits ↦ rw fits tt
    | inr short ↦ rw short (at_end-IsDone s.fault s.bytes)
  ]

  filled-Counts :
      (n : ℕ) (s : Source E) → Counts 0 (λ d. Decode.from_reader d (exactly n s) (skip n s))
  filled-Counts n s = record {
    counts = λ d. from_reader-Counted d (exactly n s) (skip n s) (exactly-IsDone n s);
  }

  pub read_exact-Counts : (n : ℕ) → Counts n (Decode.read_exact (source_reader {E = E}) n)
  unfolding Decode.read_exact
  read_exact-Counts n = record {
    counts = λ d.
        (Counts-fewer (0 + n) n (omega arith)
            (>>=-Counts 0 n (filled-Counts n d.reader) (count_read-Counts n))).counts
          d;
  }

  pub decode_fixed32-Counts : Counts 4 (Decode.decode_fixed32 (source_reader {E = E}))
  unfolding Decode.decode_fixed32
  decode_fixed32-Counts = map_ok-Counts 4 _ (read_exact-Counts 4)

  pub decode_fixed64-Counts : Counts 8 (Decode.decode_fixed64 (source_reader {E = E}))
  unfolding Decode.decode_fixed64
  decode_fixed64-Counts = map_ok-Counts 8 _ (read_exact-Counts 8)

  then_skip-Counts :
      {A : Type 0} {m : M (PbDecoder (Source E)) (DecodeError E) A} (n k : ℕ)
      → Counts n m
      → Counts n (m >>= λ x. Decode.skip_bytes source_reader k >>= λ u. pure x)
  then_skip-Counts n k c =
      Counts-fewer (n + (k + 0)) n (omega arith)
        (>>=-Counts n (k + 0) c λ x. >>=-Counts k 0 (skip_bytes-Counts k) λ u. pure-Counts x)

  pub decode_tag-Counts : Counts 1 (Decode.decode_tag (source_reader {E = E}))
  unfolding Decode.decode_tag
  decode_tag-Counts = map_ok-Counts 1 tag decode_varint32-Counts

  pub read_into_buf-Counts :
      (size len : ℕ) → Counts 0 (Decode.read_into_buf (source_reader {E = E}) size len)
  unfolding Decode.read_into_buf
  read_into_buf-Counts size len =
      if-Counts 0 (ltb size len) (fail-Counts 0 _)
        (Counts-fewer len 0 (omega arith) (read_exact-Counts len))

  skip_varint_loop-Counts :
      (rounds : ℕ) → Counts 0 (Decode.skip_varint_loop (source_reader {E = E}) rounds)
  unfolding Decode.skip_varint_loop
  skip_varint_loop-Counts zero = fail-Counts 0 _
  skip_varint_loop-Counts (suc rounds) = Counts-fewer 1 0 (omega arith) (
      >>=-Counts 1 0 get_byte-Counts
        λ b. if-Counts 0 (bit_and b 0x80 == 0) (pure-Counts tt) (skip_varint_loop-Counts rounds))

  pub skip_wire_value-Counts : (w : ℕ) → Counts 0 (Decode.skip_wire_value (source_reader {E = E}) w)
  unfolding Decode.skip_wire_value Decode.skip_varint Decode.skip_len
  skip_wire_value-Counts w = if-Counts 0 (w == wire_type_varint) (skip_varint_loop-Counts 10) (
      if-Counts 0 (w == wire_type_i64) (any 8 (skip_bytes-Counts 8)) (
        if-Counts 0 (w == wire_type_len)
          (any 1 (>>=-Counts 1 0 decode_varint32-Counts λ n. any n (skip_bytes-Counts n)))
          (if-Counts 0 (w == 3) (fail-Counts 0 _) (
            if-Counts 0 (w == 4) (fail-Counts 0 _)
              (if-Counts 0 (w == wire_type_i32) (any 4 (skip_bytes-Counts 4)) (fail-Counts 0 _))))))

  pub decode_int32-Counts : Counts 1 (Decode.decode_int32 (source_reader {E = E}))
  unfolding Decode.decode_int32
  decode_int32-Counts = map_ok-Counts 1 _ decode_varint32-Counts

  pub decode_int64-Counts : Counts 1 (Decode.decode_int64 (source_reader {E = E}))
  unfolding Decode.decode_int64
  decode_int64-Counts = map_ok-Counts 1 _ decode_varint64-Counts

  pub decode_sint32-Counts : Counts 1 (Decode.decode_sint32 (source_reader {E = E}))
  unfolding Decode.decode_sint32
  decode_sint32-Counts = map_ok-Counts 1 _ decode_varint32-Counts

  pub decode_sint64-Counts : Counts 1 (Decode.decode_sint64 (source_reader {E = E}))
  unfolding Decode.decode_sint64
  decode_sint64-Counts = map_ok-Counts 1 _ decode_varint64-Counts

  pub decode_bool-Counts : Counts 1 (Decode.decode_bool (source_reader {E = E}))
  unfolding Decode.decode_bool
  decode_bool-Counts = map_ok-Counts 1 _ decode_varint32-Counts

  pub decode_sfixed32-Counts : Counts 4 (Decode.decode_sfixed32 (source_reader {E = E}))
  unfolding Decode.decode_sfixed32
  decode_sfixed32-Counts = map_ok-Counts 4 _ decode_fixed32-Counts

  pub decode_sfixed64-Counts : Counts 8 (Decode.decode_sfixed64 (source_reader {E = E}))
  unfolding Decode.decode_sfixed64
  decode_sfixed64-Counts = map_ok-Counts 8 _ decode_fixed64-Counts

  pub decode_fixed64_as_32-Counts : Counts 4 (Decode.decode_fixed64_as_32 (source_reader {E = E}))
  unfolding Decode.decode_fixed64_as_32
  decode_fixed64_as_32-Counts = then_skip-Counts 4 4 decode_fixed32-Counts

  pub decode_sfixed64_as_32-Counts : Counts 4 (Decode.decode_sfixed64_as_32 (source_reader {E = E}))
  unfolding Decode.decode_sfixed64_as_32
  decode_sfixed64_as_32-Counts = then_skip-Counts 4 4 decode_sfixed32-Counts

  pub decode_float-Counts : Counts 4 (Decode.decode_float (source_reader {E = E}))
  unfolding Decode.decode_float
  decode_float-Counts = decode_fixed32-Counts

  pub decode_double-Counts : Counts 8 (Decode.decode_double (source_reader {E = E}))
  unfolding Decode.decode_double
  decode_double-Counts = map_ok-Counts 8 _ (read_exact-Counts 8)
