-- ===== src/Decode/Ahead.antt =====
-- What a read of one byte and a skip do, told by the bytes to come.

use micropb.Prelude.{ℕ, ◌+◌, ◌-◌, ◌≤◌, ◌<◌, ◌≡◌, ap, sym, ◌∙◌, arith}
use micropb.Prelude.{List, [], ◌∷◌, Option, none, some, length, drop, leb}
use micropb.Prelude.{
  if◌then◌else◌, true, false, lt→leb_false, drop_all, Bool-cases, inl, inr, leb→le, le→leb,
}
use micropb.Prelude.{leb_false→lt, length-drop, drop-drop}
use native.Mathlib.Nat.{le_refl}
use micropb.Monad.{Result, ok, err}
use micropb.Reader.Source.{Source, skip}
use micropb.Decode.{PbDecoder, DecodeError, unexpected_eof, reader_error}

abbrev pub Over : Type 0 → Type 0 → Type 0
Over E A = Result (DecodeError E) A × PbDecoder (Source E)

-- What a read of one byte and a skip do, told by the bytes to come.
module _ {E : Type 0} where
  abbrev pub moved : ℕ → PbDecoder (Source E) → PbDecoder (Source E)
  moved n d = record d { reader = skip n d.reader; idx = d.idx + n }

  -- The error at the end of the bytes.
  abbrev pub end_error : Option E → DecodeError E
  end_error none = unexpected_eof
  end_error (some e) = reader_error e

  abbrev pub byte_of : List ℕ → Option E → PbDecoder (Source E) → Over E ℕ
  byte_of [] fault d = (err (end_error fault), d)
  byte_of (b ∷ bs) fault d = (ok b, moved 1 d)

  abbrev pub skipped : ℕ → PbDecoder (Source E) → Over E (Unit {0})
  skipped n d =
      if leb n (length d.reader.bytes)
      then (ok tt, moved n d)
      else (err (end_error d.reader.fault), moved (length d.reader.bytes) d)

module _ {E : Type 0} where
  pub skipped_none : (d : PbDecoder (Source E)) → skipped 0 d ≡ (ok tt, d)
  skipped_none d =
      let fits : leb 0 (length d.reader.bytes) ≡ true = le→leb 0 _ (omega arith) in
      let idx : d.idx + 0 ≡ d.idx = omega arith in rw (fits, idx)

  pub skipped_at_end :
      (n : ℕ) (d : PbDecoder (Source E))
      → 0 < n
      → d.reader.bytes ≡ []
      → skipped n d ≡ (err (end_error d.reader.fault), d)
  skipped_at_end n d pos b =
      let none_left : length d.reader.bytes ≡ 0 = ap (λ (t : List ℕ). length t) b in
      let short : leb n (length d.reader.bytes) ≡ false = lt→leb_false _ _ (omega arith) in
      let bytes : drop (length d.reader.bytes) d.reader.bytes ≡ d.reader.bytes =
        drop_all (length d.reader.bytes) d.reader.bytes (le_refl _) ∙ sym b in
      let idx : d.idx + length d.reader.bytes ≡ d.idx = omega arith in
      rw short λ i. (
        err (end_error d.reader.fault),
        record d { reader = record { bytes = bytes i; fault = d.reader.fault }; idx = idx i },
      )

  pub skipped_in_parts :
      (n m : ℕ) (d : PbDecoder (Source E))
      → n ≤ m
      → n ≤ length d.reader.bytes
      → skipped (m - n) (moved n d) ≡ skipped m d
  skipped_in_parts n m d le front = elim (Bool-cases (leb m (length d.reader.bytes))) [
    | inl fits ↦
        let rest : leb (m - n) (length (drop n d.reader.bytes)) ≡ true =
          le→leb (m - n) (length (drop n d.reader.bytes)) (omega (arith, leb→le _ _ fits, left)) in
        rw (fits, rest) (ap (λ x. (ok tt, x)) (both m le))
    | inr short ↦
        let less : length d.reader.bytes < m = leb_false→lt _ _ short in
        let rest : leb (m - n) (length (drop n d.reader.bytes)) ≡ false =
          lt→leb_false (m - n) (length (drop n d.reader.bytes)) (omega (arith, left)) in
        rw (short, rest, left)
          (ap (λ x. (err (end_error d.reader.fault), x)) (both (length d.reader.bytes) front))
  ]
    where
      left : length (drop n d.reader.bytes) ≡ length d.reader.bytes - n
      left = length-drop n d.reader.bytes

      both : (k : ℕ) → n ≤ k → moved (k - n) (moved n d) ≡ moved k d
      both k below =
          let bytes : drop (k - n) (drop n d.reader.bytes) ≡ drop k d.reader.bytes =
            drop-drop n k d.reader.bytes below in
          let idx : d.idx + n + (k - n) ≡ d.idx + k = omega arith in
          λ i. record d { reader = record { bytes = bytes i; fault = d.reader.fault }; idx = idx i }
