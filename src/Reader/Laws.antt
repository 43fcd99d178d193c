-- ===== src/Reader/Laws.antt =====
-- What `trait PbRead` promises, and that the provided method and the slices keep the promise.
use micropb.Prelude.{ℕ, zero, suc, ◌-◌, ◌≤◌, ◌<◌, ◌≡◌, refl, ap, sym, ◌∙◌, arith}
use micropb.Prelude.{
  List, [], ◌∷◌, ◌++◌, Option, none, some, length, take, drop, leb, if◌then◌else◌,
}
use micropb.Prelude.{
  drop_all, append-nil, append_assoc, true, false, le→leb, leb→le, lt→leb_false, leb_false→lt, ◌==◌,
}
use Prim.Native.Nat.{min}
use micropb.Prelude.{
  take_all, Bool-cases, inl, inr, length-append, length-drop, drop-drop, take_in_parts,
  take_then_drop,
}
use micropb.Monad.{Result, ok, M, ◌>>=◌}
use micropb.Reader.{PbRead, default_reader, slice_reader, pb_read_exact, read_exact_loop, fill_from}
use micropb.Reader.{maybe_uninit_write_slice}
use micropb.Reader.Source.{source_reader, next_chunk, Source, at_end, skip, exactly}

-- A chunk read from a source is a front part of its bytes, and is empty only at the end; the source
-- is not moved. `r` is the result of the read, `s` the source afterwards.
abbrev pub IsChunk : {E : Type 0} → List ℕ → Option E → Result E (List ℕ) → Type 0
IsChunk [] fault r = r ≡ at_end fault []
IsChunk (b ∷ bs) fault r = (c : ℕ) × (cs t : List ℕ) × (r ≡ ok (c ∷ cs)) × ((c ∷ cs) ++ t ≡ b ∷ bs)

-- The promises about `pb_read_chunk` and `pb_advance`: a chunk is a front part of the bytes to
-- come, empty only at their end, reading it moves nothing, and advancing within it drops as many
-- bytes. A fault stays: a reader that failed fails again.
pub record HasChunks {R E : Type 0} (chunk : R → Result E (List ℕ) × R) (advance : R → ℕ → R)
    : Type 0 where
  pub view : R → Source E
  pub reads : (r : R) → IsChunk (view r).bytes (view r).fault (chunk r).0
  pub keeps : (r : R) → view (chunk r).1 ≡ view r
  pub advances :
      (r : R) (n : ℕ) (c : List ℕ)
      → (chunk r).0 ≡ ok c
      → n ≤ length c
      → view (advance (chunk r).1 n) ≡ skip n (view r)

-- All of `trait PbRead`: `pb_read_exact` fills the buffer from the bytes to come, or gives what
-- there is at the end of the input.
pub record IsReader {R E : Type 0} (rd : PbRead R E) : Type 0 where
  pub chunks : HasChunks rd.pb_read_chunk rd.pb_advance
  pub fills : (r : R) (n : ℕ) → (rd.pb_read_exact r n).0 ≡ exactly n (chunks.view r)
  pub fills_from : (r : R) (n : ℕ) → chunks.view (rd.pb_read_exact r n).1 ≡ skip n (chunks.view r)

abbrev filled : {E : Type 0} → List ℕ → Option E → ℕ → List ℕ → Result E (List ℕ)
filled bytes fault remaining got =
    if leb remaining (length bytes)
    then ok (got ++ take remaining bytes)
    else at_end fault (got ++ bytes)

-- A first part from a chunk and the rest behind it fill as much as the whole.
filled_in_parts :
    {E : Type 0} (n m : ℕ) (xs ys : List ℕ) (fault : Option E) (got : List ℕ)
    → n ≤ m
    → n ≤ length xs
    → filled (drop n (xs ++ ys)) fault (m - n) (got ++ take n xs) ≡ filled (xs ++ ys) fault m got
filled_in_parts n m xs ys fault got le front = elim (Bool-cases (leb m (length (xs ++ ys)))) [
  | inl fits ↦
      let rest_fits : leb (m - n) (length (drop n (xs ++ ys))) ≡ true =
        le→leb (m - n) (length (drop n (xs ++ ys)))
          (omega (arith, leb→le m (length (xs ++ ys)) fits, left_over)) in
      rw (fits, rest_fits)
        (ap ok (
          append_assoc got (take n xs) (take (m - n) (drop n (xs ++ ys)))
          ∙ ap (λ (t : List ℕ). got ++ t) (take_in_parts n m xs ys le front)))
  | inr short ↦
      let rest_short : leb (m - n) (length (drop n (xs ++ ys))) ≡ false =
        lt→leb_false (m - n) (length (drop n (xs ++ ys))) (
          omega
            (arith, leb_false→lt m (length (xs ++ ys)) short, left_over, length-append xs ys)) in
      rw (short, rest_short, append_assoc, take_then_drop n xs ys front)
]
  where
    left_over : length (drop n (xs ++ ys)) ≡ length (xs ++ ys) - n
    left_over = length-drop n (xs ++ ys)

pub source-IsChunk :
    {E : Type 0} (bs : List ℕ) (fault : Option E) → IsChunk bs fault (next_chunk bs fault)
source-IsChunk [] fault = refl
source-IsChunk (b ∷ bs) fault = (b, bs, [], refl, append-nil (b ∷ bs))

abbrev pub source_reader-IsReader : {E : Type 0} → IsReader (source_reader {E = E})
source_reader-IsReader = record {
  chunks = record {
    view = λ s. s;
    reads = λ s. source-IsChunk s.bytes s.fault;
    keeps = λ s. refl;
    advances = λ s n c e le. refl;
  };
  fills = λ s n. refl;
  fills_from = λ s n. refl;
}

module _ {R E : Type 0} {chunk : R → Result E (List ℕ) × R} {advance : R → ℕ → R}
    (h : HasChunks chunk advance) where
  abbrev Filled : R → ℕ → List ℕ → Result E (List ℕ) × R → Type 0
  Filled r remaining got out =
      (out.0 ≡ filled (h.view r).bytes (h.view r).fault remaining got)
      × (h.view out.1 ≡ skip remaining (h.view r))

  skip_at_end : (n : ℕ) (s : Source E) → s.bytes ≡ [] → skip n s ≡ s
  skip_at_end n s e =
      ap (λ (bs : List ℕ). record s { bytes = bs }) (rw e (drop_all n [] (omega arith)))

  -- One round at the end of the bytes.
  round_at_end :
      (rest : ℕ → List ℕ → M R E (List ℕ)) (m : ℕ) (got : List ℕ) (r : R) (fault : Option E)
      → (h.view r).bytes ≡ []
      → (h.view r).fault ≡ fault
      → (chunk r).0 ≡ at_end fault []
      → Filled r (suc m) got ((chunk >>= fill_from chunk advance rest (suc m) got) r)
  unfolding fill_from
  round_at_end rest m got r none b f c =
      let none_left : leb (suc m) 0 ≡ false = ground arith in
      rw c (rw (b, f, none_left, append-nil), h.keeps r ∙ sym (skip_at_end (suc m) (h.view r) b))
  round_at_end rest m got r (some e) b f c =
      let none_left : leb (suc m) 0 ≡ false = ground arith in
      rw c (rw (b, f, none_left), h.keeps r ∙ sym (skip_at_end (suc m) (h.view r) b))

  -- One round with a chunk.
  round_with_chunk :
      (rest : ℕ → List ℕ → M R E (List ℕ)) (m : ℕ) (got : List ℕ) (r : R) (c : ℕ) (cs t : List ℕ)
      → ((k : ℕ) (got' : List ℕ) (r' : R) → k ≤ m → Filled r' k got' (rest k got' r'))
      → (chunk r).0 ≡ ok (c ∷ cs)
      → (c ∷ cs) ++ t ≡ (h.view r).bytes
      → Filled r (suc m) got ((chunk >>= fill_from chunk advance rest (suc m) got) r)
  unfolding fill_from
  round_with_chunk rest m got r c cs t ih e split =
      let n = maybe_uninit_write_slice (suc m) (c ∷ cs) in
      let got' = got ++ take n (c ∷ cs) in
      let r' = advance (chunk r).1 n in
      let bounds : (0 < n) × (n ≤ suc m) × (n ≤ length (c ∷ cs)) =
        unfold maybe_uninit_write_slice in omega arith in
      let moved : h.view r' ≡ skip n (h.view r) = h.advances r n (c ∷ cs) e bounds.2 in
      let (value, left) = ih (suc m - n) got' r' (omega arith) in
      rw e (
        value
            ∙ rw (moved, ← split)
                (filled_in_parts n (suc m) (c ∷ cs) t (h.view r).fault got bounds.1 bounds.2),
        left
            ∙ rw moved (
                ap (λ (bs : List ℕ). record (h.view r) { bytes = bs })
                  (drop-drop n (suc m) (h.view r).bytes bounds.1)),
      )

  round :
      (rest : ℕ → List ℕ → M R E (List ℕ)) (m : ℕ) (got : List ℕ) (r : R) (bs : List ℕ)
      → ((k : ℕ) (got' : List ℕ) (r' : R) → k ≤ m → Filled r' k got' (rest k got' r'))
      → (h.view r).bytes ≡ bs
      → IsChunk bs (h.view r).fault (chunk r).0
      → Filled r (suc m) got ((chunk >>= fill_from chunk advance rest (suc m) got) r)
  round rest m got r [] ih e c = round_at_end rest m got r (h.view r).fault e refl c
  round rest m got r (b ∷ bs) ih e (c, cs, t, front, split) =
      round_with_chunk rest m got r c cs t ih front (split ∙ sym e)

  -- The provided method's loop with enough rounds.
  read_exact_loop_lem :
      (fuel remaining : ℕ) (got : List ℕ) (r : R)
      → remaining ≤ fuel
      → Filled r remaining got (read_exact_loop chunk advance fuel remaining got r)
  unfolding read_exact_loop
  read_exact_loop_lem zero zero got r le = (
    let all : leb 0 (length (h.view r).bytes) ≡ true = le→leb _ _ (omega arith) in
        rw (all, append-nil),
    refl,
  )
  read_exact_loop_lem zero (suc m) got r le = absurd (omega arith)
  read_exact_loop_lem (suc fuel) zero got r le = (
    let all : leb 0 (length (h.view r).bytes) ≡ true = le→leb _ _ (omega arith) in
        rw (all, append-nil),
    refl,
  )
  read_exact_loop_lem (suc fuel) (suc m) got r le =
      let more : (suc m == 0) ≡ false = ground arith in
      rw more (
        round (read_exact_loop chunk advance fuel) m got r (h.view r).bytes
          (λ k got' r' le'. read_exact_loop_lem fuel k got' r' (omega arith)) refl (h.reads r))

-- Over any reader whose chunks and advances keep their promises, the provided `pb_read_exact` gives
-- the next `n` bytes, or at the end what is left or the error that is met there, and moves past
-- what it read.
pub pb_read_exact_lem :
    {R E : Type 0} {chunk : R → Result E (List ℕ) × R} {advance : R → ℕ → R}
    (h : HasChunks chunk advance) (r : R) (n : ℕ)
    → ((pb_read_exact chunk advance r n).0 ≡ exactly n (h.view r))
      × (h.view (pb_read_exact chunk advance r n).1 ≡ skip n (h.view r))
unfolding pb_read_exact
pb_read_exact_lem h r n = read_exact_loop_lem h n n [] r (omega arith)

-- A reader that keeps the provided `pb_read_exact` keeps all the promises.
abbrev pub default_reader-IsReader :
    {R E : Type 0} {chunk : R → Result E (List ℕ) × R} {advance : R → ℕ → R}
    → HasChunks chunk advance
    → IsReader (default_reader chunk advance)
default_reader-IsReader h = record {
  chunks = h;
  fills = λ r n. (pb_read_exact_lem h r n).0;
  fills_from = λ r n. (pb_read_exact_lem h r n).1;
}

slice-IsChunk : (s : List ℕ) → IsChunk {E = ⊥} s none (ok s)
slice-IsChunk [] = refl
slice-IsChunk (b ∷ bs) = (b, bs, [], refl, append-nil (b ∷ bs))

-- Reading the lesser of what is asked and what there is.
slice_exact :
    (s : List ℕ) (n : ℕ)
    → let k = maybe_uninit_write_slice n s in
      (ok (take k s) ≡ exactly {E = ⊥} n (record { bytes = s; fault = none }))
      × (drop k s ≡ drop n s)
unfolding maybe_uninit_write_slice
slice_exact s n = elim (Bool-cases (leb n (length s))) [
  | inl fits ↦
      let same : min n (length s) ≡ n = omega (arith, leb→le n (length s) fits) in
      rw (same, fits) (refl, refl)
  | inr short ↦
      let less : length s < n = leb_false→lt n (length s) short in
      let same : min n (length s) ≡ length s = omega arith in
      rw (same, short)
        (
          ap ok (take_all (length s) s (omega arith)),
          drop_all (length s) s (omega arith) ∙ sym (drop_all n s (omega arith)),
        )
]

-- `&[u8]`, with its own `pb_read_exact`, keeps them: what is to come is the slice.
pub slice_reader-IsReader : IsReader slice_reader
unfolding slice_reader
slice_reader-IsReader = record {
  chunks = record {
    view = λ s. record { bytes = s; fault = none };
    reads = slice-IsChunk;
    keeps = λ s. refl;
    advances = λ s n c e le. refl;
  };
  fills = λ s n. (slice_exact s n).0;
  fills_from = λ s n. ap (λ (bs : List ℕ). record { bytes = bs; fault = none }) (slice_exact s n).1;
}
