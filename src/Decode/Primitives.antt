-- ===== src/Decode/Primitives.antt =====
-- `get_byte`, `read_exact` and `skip_bytes` see only the bytes to come, not how the reader cuts them
-- into chunks.
use Prim.Native.Nat.{min}
use micropb.Prelude.{ℕ, zero, suc, ◌+◌, ◌-◌, ◌≤◌, ◌<◌, ◌≡◌, refl, sym, ◌∙◌, arith}
use micropb.Prelude.{List, [], ◌∷◌, ◌++◌, Option, none, some, length, ltb, ◌==◌}
use micropb.Prelude.{false, lt→ltb, Bool-cases, inl, inr}
use micropb.Prelude.{length-append, ltb→lt, ltb_false→le, le→ltb_false}
use micropb.Monad.{Result, ok, err, out_of_fuel}
use micropb.Reader.{PbRead}
use micropb.Reader.Source.{exactly, source_reader, skip}
use micropb.Reader.Laws.{IsReader, IsChunk, source_reader-IsReader}
use micropb.Decode.{PbDecoder, get_byte, read_chunk}
use micropb.Decode.{advance, from_reader, read_exact, count_read, skip_loop, skip_bytes}
use micropb.Decode.Ahead.{byte_of, skipped, skipped_none, skipped_at_end}
use micropb.Decode.Ahead.{skipped_in_parts}
use micropb.Decode.Agree.{abstract, seen, Agree, >>=-Agree}

module _ {R E : Type 0} {rd : PbRead R E} (h : IsReader rd) where
  get_byte_by :
      (bs : List ℕ) (fault : Option E) (d : PbDecoder R)
      → (h.chunks.view d.reader).bytes ≡ bs
      → (h.chunks.view d.reader).fault ≡ fault
      → IsChunk bs fault (rd.pb_read_chunk d.reader).0
      → seen h (get_byte rd d) ≡ byte_of bs fault (abstract h d)
  unfolding get_byte read_chunk advance
  get_byte_by [] none d b f c = rw c (rw (h.chunks.keeps d.reader, f))
  get_byte_by [] (some e) d b f c = rw c (rw (h.chunks.keeps d.reader, f))
  get_byte_by (b ∷ bs) fault d p f (c, cs, t, front, split) =
      let same : c ≡ b = cc in
      rw (front, h.chunks.advances d.reader 1 (c ∷ cs) front (omega arith), same)

  pub get_byte-byte_of :
      (d : PbDecoder R)
      → seen h (get_byte rd d)
        ≡ byte_of (abstract h d).reader.bytes (abstract h d).reader.fault (abstract h d)
  get_byte-byte_of d = get_byte_by _ _ d refl refl (h.chunks.reads d.reader)

  -- The loop of `skip_bytes` at the end of the bytes, and with a chunk.
  skip_at_end :
      (fuel bytes total : ℕ) (fault : Option E) (d : PbDecoder R)
      → total < bytes
      → (h.chunks.view d.reader).bytes ≡ []
      → (h.chunks.view d.reader).fault ≡ fault
      → IsChunk [] fault (rd.pb_read_chunk d.reader).0
      → seen h (skip_loop rd (suc fuel) bytes total d) ≡ skipped (bytes - total) (abstract h d)
  unfolding skip_loop read_chunk
  skip_at_end fuel bytes total none d lt b f c =
      rw (lt→ltb total bytes lt, c)
        (rw (
          h.chunks.keeps d.reader,
          skipped_at_end (bytes - total) (abstract h d) (omega arith) b,
          f,
        ))
  skip_at_end fuel bytes total (some e) d lt b f c =
      rw (lt→ltb total bytes lt, c)
        (rw (
          h.chunks.keeps d.reader,
          skipped_at_end (bytes - total) (abstract h d) (omega arith) b,
          f,
        ))

  skip_with_chunk :
      (fuel bytes total : ℕ) (d : PbDecoder R) (c : ℕ) (cs t : List ℕ)
      → total < bytes
      → ((total' : ℕ) (d' : PbDecoder R)
          → bytes - total' ≤ fuel
          → seen h (skip_loop rd fuel bytes total' d') ≡ skipped (bytes - total') (abstract h d'))
      → bytes - total ≤ suc fuel
      → (rd.pb_read_chunk d.reader).0 ≡ ok (c ∷ cs)
      → (c ∷ cs) ++ t ≡ (h.chunks.view d.reader).bytes
      → seen h (skip_loop rd (suc fuel) bytes total d) ≡ skipped (bytes - total) (abstract h d)
  unfolding skip_loop read_chunk advance
  skip_with_chunk fuel bytes total d c cs t lt ih le front split =
      let more : (length (c ∷ cs) == 0) ≡ false = ground arith in
      let n = min (length (c ∷ cs)) (bytes - total) in
      let d' = record d {
        reader = rd.pb_advance (rd.pb_read_chunk d.reader).1 n;
        idx = d.idx + n;
      } in
      let there : h.chunks.view d'.reader ≡ skip n (h.chunks.view d.reader) =
        h.chunks.advances d.reader n (c ∷ cs) front (omega arith) in
      let part : n ≤ length (h.chunks.view d.reader).bytes =
        rw (← split) (omega (arith, length-append (c ∷ cs) t)) in
      let left : bytes - (total + n) ≡ bytes - total - n = omega arith in
      rw (lt→ltb total bytes lt, front, more)
        (ih (total + n) d' (omega arith)
          ∙ rw (there, left) (skipped_in_parts n (bytes - total) (abstract h d) (omega arith) part))

  skip_round :
      (fuel bytes total : ℕ) (d : PbDecoder R) (bs : List ℕ)
      → total < bytes
      → ((total' : ℕ) (d' : PbDecoder R)
          → bytes - total' ≤ fuel
          → seen h (skip_loop rd fuel bytes total' d') ≡ skipped (bytes - total') (abstract h d'))
      → bytes - total ≤ suc fuel
      → (h.chunks.view d.reader).bytes ≡ bs
      → IsChunk bs (h.chunks.view d.reader).fault (rd.pb_read_chunk d.reader).0
      → seen h (skip_loop rd (suc fuel) bytes total d) ≡ skipped (bytes - total) (abstract h d)
  skip_round fuel bytes total d [] lt ih le e c = skip_at_end fuel bytes total _ d lt e refl c
  skip_round fuel bytes total d (b ∷ bs) lt ih le e (c, cs, t, front, split) =
      skip_with_chunk fuel bytes total d c cs t lt ih le front (split ∙ sym e)

  skip_done :
      (fuel bytes total : ℕ) (d : PbDecoder R)
      → bytes ≤ total
      → seen h (skip_loop rd fuel bytes total d) ≡ skipped (bytes - total) (abstract h d)
  unfolding skip_loop
  skip_done zero bytes total d le =
      let none_left : bytes - total ≡ 0 = omega arith in
      rw (le→ltb_false total bytes le, none_left, skipped_none (abstract h d))
  skip_done (suc fuel) bytes total d le =
      let none_left : bytes - total ≡ 0 = omega arith in
      rw (le→ltb_false total bytes le, none_left, skipped_none (abstract h d))

  -- The loop of `skip_bytes` with enough rounds.
  skip_loop-skipped :
      (fuel bytes total : ℕ) (d : PbDecoder R)
      → bytes - total ≤ fuel
      → seen h (skip_loop rd fuel bytes total d) ≡ skipped (bytes - total) (abstract h d)
  skip_loop-skipped zero bytes total d le = skip_done zero bytes total d (omega arith)
  skip_loop-skipped (suc fuel) bytes total d le = elim (Bool-cases (ltb total bytes)) [
    | inl more ↦
        skip_round fuel bytes total d (h.chunks.view d.reader).bytes (ltb→lt total bytes more)
          (λ total' d' le'. skip_loop-skipped fuel bytes total' d' le') le refl
          (h.chunks.reads d.reader)
    | inr done ↦ skip_done (suc fuel) bytes total d (ltb_false→le total bytes done)
  ]

  pub skip_bytes-skipped :
      (n : ℕ) (d : PbDecoder R) → seen h (skip_bytes rd n d) ≡ skipped n (abstract h d)
  unfolding skip_bytes
  skip_bytes-skipped n d =
      let all : n - 0 ≡ n = omega arith in rw all at (skip_loop-skipped n n 0 d (omega arith))

-- The primitives agree, as both do what the bytes to come say.
module _ {R E : Type 0} {rd : PbRead R E} (h : IsReader rd) where
  pub get_byte-Agree : Agree h (get_byte rd) (get_byte source_reader)
  get_byte-Agree = record {
    same = λ d. get_byte-byte_of source_reader-IsReader (abstract h d) ∙ sym (get_byte-byte_of h d);
  }

  pub skip_bytes-Agree : (n : ℕ) → Agree h (skip_bytes rd n) (skip_bytes source_reader n)
  skip_bytes-Agree n = record {
    same = λ d.
        skip_bytes-skipped source_reader-IsReader n (abstract h d) ∙ sym (skip_bytes-skipped h n d);
  }

  from_reader-Agree :
      (d : PbDecoder R) (a : Result E (List ℕ)) (r : R)
      → from_reader (abstract h d) a (h.chunks.view r) ≡ seen h (from_reader d a r)
  from_reader-Agree d (ok a) r = refl
  from_reader-Agree d (err e) r = refl
  from_reader-Agree d out_of_fuel r = refl

  count_read-Agree :
      (n : ℕ) (bytes : List ℕ) → Agree h (count_read rd n bytes) (count_read source_reader n bytes)
  unfolding count_read
  count_read-Agree n bytes = record {
    same = λ d. elim (Bool-cases (ltb (length bytes) n)) [ inl e ↦ rw e | inr e ↦ rw e ];
  }

  fill-Agree :
      (n : ℕ)
      → Agree h
          (λ d. from_reader d (rd.pb_read_exact d.reader n).0 (rd.pb_read_exact d.reader n).1)
          (λ d. from_reader d (exactly n d.reader) (skip n d.reader))
  fill-Agree n = record {
    same = λ d. rw (← h.fills d.reader n, ← h.fills_from d.reader n) (from_reader-Agree d _ _);
  }

  pub read_exact-Agree : (n : ℕ) → Agree h (read_exact rd n) (read_exact source_reader n)
  unfolding read_exact
  read_exact-Agree n = >>=-Agree h (fill-Agree n) (λ bytes. count_read-Agree n bytes)
