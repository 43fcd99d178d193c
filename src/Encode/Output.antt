-- ===== src/Encode/Output.antt =====
-- What an encoder call writes, over any writer that appends to a buffer.
use micropb.Prelude.{ℕ, ◌+◌, ◌≡◌, refl, sym, ◌∙◌, ap, arith, Bool, true, false, Option, none, some}
use micropb.Prelude.{List, [], ◌++◌, length, length-append, append_assoc, append-nil, leb}
use micropb.Prelude.{Bool-cases, inl, inr, leb→le, le→leb}
use mathlib.Core.Bool.{false≢true}
use native.Mathlib.Nat.{add-zero}
use micropb.Monad.{Result, ok, err, M, ◌>>◌, pure}
use micropb.Writer.{PbWrite, vec_writer}
use micropb.Encode.{PbEncoder, write}

-- Whether a buffer of a capacity holds `n` bytes; `none` is a buffer that grows.
abbrev pub holds : Option ℕ → ℕ → Bool
holds none n = true
holds (some c) n = leb n c

pub holds_less : (c : Option ℕ) (m n : ℕ) → holds c (m + n) ≡ true → holds c m ≡ true
holds_less none m n h = refl
holds_less (some c) m n h = le→leb m c (omega (arith, leb→le (m + n) c h))

-- A writer that appends what it is given to a buffer, or refuses it whole if it does not fit.
pub record IsAppender {W E : Type 0} (wr : PbWrite W E) : Type 0 where
  pub contents : W → List ℕ
  pub capacity : Option ℕ
  pub within : (w : W) → holds capacity (length (contents w)) ≡ true
  pub appends :
      (w : W) (bytes : List ℕ)
      → holds capacity (length (contents w) + length bytes) ≡ true
      → ((wr.pb_write w bytes).0 ≡ ok tt) × (contents (wr.pb_write w bytes).1 ≡ contents w ++ bytes)
  pub refuses :
      (w : W) (bytes : List ℕ)
      → holds capacity (length (contents w) + length bytes) ≡ false
      → ((x : E) × ((wr.pb_write w bytes).0 ≡ err x))
        × (contents (wr.pb_write w bytes).1 ≡ contents w)

module _ {W E : Type 0} {wr : PbWrite W E} (a : IsAppender wr) where
  abbrev pub EncodeResult : Type 0
  EncodeResult = Result E (Unit {0}) × PbEncoder W

  -- The call returned and all of `bytes` was appended.
  abbrev pub Done : List ℕ → W → EncodeResult → Type 0
  Done bytes w r = (r.0 ≡ ok tt) × (a.contents r.1.writer ≡ a.contents w ++ bytes)

  -- The call failed with the writer's error after a part of `bytes` was appended.
  abbrev pub Cut : List ℕ → W → EncodeResult → Type 0
  Cut bytes w r =
      (x : E) × (r.0 ≡ err x)
      × (p q : List ℕ) × (p ++ q ≡ bytes)
      × (a.contents r.1.writer ≡ a.contents w ++ p)

  abbrev pub fits_all : List ℕ → W → Bool
  fits_all bytes w = holds a.capacity (length (a.contents w) + length bytes)

  -- All of `bytes` was written if it fits, and if not the call failed with a part written.
  abbrev pub Ends : Bool → List ℕ → W → EncodeResult → Type 0
  Ends true bytes w r = Done bytes w r
  Ends false bytes w r = Cut bytes w r

  pub record Writes (m : M (PbEncoder W) E (Unit {0})) (bytes : List ℕ) : Type 0 where
    pub ends : (e : PbEncoder W) → Ends (fits_all bytes e.writer) bytes e.writer (m e)

  module _ {m : M (PbEncoder W) E (Unit {0})} {bytes : List ℕ} (h : Writes m bytes)
      (e : PbEncoder W) where
    pub Writes-Done : fits_all bytes e.writer ≡ true → Done bytes e.writer (m e)
    Writes-Done f = rw f at (h.ends e)

    pub Writes-Cut : fits_all bytes e.writer ≡ false → Cut bytes e.writer (m e)
    Writes-Cut f = rw f at (h.ends e)

  -- To show that a call writes `bytes`, show both cases.
  Writes-by_cases :
      (m : M (PbEncoder W) E (Unit {0})) (bytes : List ℕ)
      → ((e : PbEncoder W) → fits_all bytes e.writer ≡ true → Done bytes e.writer (m e))
      → ((e : PbEncoder W) → fits_all bytes e.writer ≡ false → Cut bytes e.writer (m e))
      → Writes m bytes
  Writes-by_cases m bytes all part = record {
    ends = λ e. elim (Bool-cases (fits_all bytes e.writer)) [
      | inl f ↦ rw f (all e f)
      | inr f ↦ rw f (part e f)
    ];
  }

  -- After `b` was appended, the rest fits exactly when the whole did.
  fits_rest :
      (b c : List ℕ) (w w' : W)
      → a.contents w' ≡ a.contents w ++ b
      → fits_all c w' ≡ fits_all (b ++ c) w
  fits_rest b c w w' e =
      ap (holds a.capacity)
        (rw e (omega (arith, length-append (a.contents w) b, length-append b c)))

  fits_front : (b c : List ℕ) (w : W) → fits_all (b ++ c) w ≡ true → fits_all b w ≡ true
  fits_front b c w f =
      let same : length (a.contents w) + length (b ++ c)
          ≡ length (a.contents w) + length b + length c =
        omega (arith, length-append b c) in
      holds_less a.capacity (length (a.contents w) + length b) (length c) (rw same at f)

  pub pure-Writes : Writes (pure tt) []
  pure-Writes =
      Writes-by_cases (pure tt) [] (λ e f. (refl, sym (append-nil _)))
        λ e f.
          let room : holds a.capacity (length (a.contents e.writer) + 0) ≡ true =
            rw add-zero (a.within e.writer) in
          cc

  pub write-Writes : (bytes : List ℕ) → Writes (write wr bytes) bytes
  unfolding write
  write-Writes bytes =
      Writes-by_cases (write wr bytes) bytes (λ e f. a.appends e.writer bytes f)
        λ e f.
          let (x, c) = a.refuses e.writer bytes f in
          (x.0, x.1, [], bytes, refl, c ∙ sym (append-nil _))

  pub >>-Writes :
      {m k : M (PbEncoder W) E (Unit {0})} {b c : List ℕ}
      → Writes m b
      → Writes k c
      → Writes (m >> k) (b ++ c)
  >>-Writes {m} {k} {b} {c} h g = Writes-by_cases (m >> k) (b ++ c) all part
    where
      after : (e : PbEncoder W) → Done b e.writer (m e) → (m >> k) e ≡ k (m e).1
      after e d = rw d.0

      all :
          (e : PbEncoder W)
          → fits_all (b ++ c) e.writer ≡ true
          → Done (b ++ c) e.writer ((m >> k) e)
      all e f =
          let d = Writes-Done h e (fits_front b c e.writer f) in
          let d' = Writes-Done g (m e).1 (fits_rest b c e.writer _ d.1 ∙ f) in
          rw (after e d) (d'.0, d'.1 ∙ ap (λ (t : List ℕ). t ++ c) d.1 ∙ append_assoc _ b c)

      part :
          (e : PbEncoder W)
          → fits_all (b ++ c) e.writer ≡ false
          → Cut (b ++ c) e.writer ((m >> k) e)
      part e f = elim (Bool-cases (fits_all b e.writer)) [
        | inl fb ↦
            let d = Writes-Done h e fb in
            let (x, r, p, q, whole, there) =
              Writes-Cut g (m e).1 (fits_rest b c e.writer _ d.1 ∙ f) in
            rw (after e d) (
              x,
              r,
              b ++ p,
              q,
              append_assoc b p q ∙ ap (λ (t : List ℕ). b ++ t) whole,
              there ∙ ap (λ (t : List ℕ). t ++ p) d.1 ∙ append_assoc _ b p,
            )
        | inr fb ↦
            let (x, r, p, q, whole, there) = Writes-Cut h e fb in
            let stop : (m >> k) e ≡ (err x, (m e).1) = rw r in
            rw stop (
              x,
              refl,
              p,
              q ++ c,
              sym (append_assoc p q c) ∙ ap (λ (t : List ℕ). t ++ c) whole,
              there,
            )
      ]

-- `Vec<u8>` grows, and appends all that it is given.
abbrev pub vec_appender : IsAppender vec_writer
vec_appender = record {
  contents = λ v. v;
  capacity = none;
  within = λ v. refl;
  appends = λ v bytes fits. (refl, refl);
  refuses = λ v bytes full. absurd (false≢true (sym full));
}
