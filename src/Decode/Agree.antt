-- ===== src/Decode/Agree.antt =====
-- A decoder over a reader that keeps the promises of `PbRead` against the decoder over the bytes to
-- come.

use micropb.Prelude.{◌≡◌, refl}
use micropb.Monad.{Result, ok, err, out_of_fuel, M, ◌>>=◌, go_on, pure, fail, map_ok}
use micropb.Reader.{PbRead}
use micropb.Reader.Source.{Source}
use micropb.Reader.Laws.{IsReader}
use micropb.Decode.{PbDecoder, DecodeError}
use micropb.Decode.{lift}
use micropb.Decode.Ahead.{Over}

module _ {R E : Type 0} {rd : PbRead R E} (h : IsReader rd) where
  -- The decoder as it is over the bytes to come.
  abbrev pub abstract : PbDecoder R → PbDecoder (Source E)
  abstract d = record {
    reader = h.chunks.view d.reader;
    idx = d.idx;
    ignore_repeated_cap_err = d.ignore_repeated_cap_err;
  }

  abbrev pub seen : {A : Type 0} → Result (DecodeError E) A × PbDecoder R → Over E A
  seen out = (out.0, abstract out.1)

  -- Two computations, over the reader and over the bytes to come, agree: they have the same results
  -- and leave the same bytes.
  pub record Agree {A : Type 0} (m : M (PbDecoder R) (DecodeError E) A)
      (s : M (PbDecoder (Source E)) (DecodeError E) A) : Type 0 where
    pub same : (d : PbDecoder R) → s (abstract d) ≡ seen (m d)

  pub lift-Agree : {A : Type 0} (r : Result (DecodeError E) A) → Agree (lift r) (lift r)
  lift-Agree r = record { same = λ d. refl }

  pub pure-Agree : {A : Type 0} (x : A) → Agree (pure x) (pure x)
  pure-Agree x = record { same = λ d. refl }

  pub fail-Agree : {A : Type 0} (x : DecodeError E) → Agree (fail {A = A} x) (fail x)
  fail-Agree x = record { same = λ d. refl }

  go_on-same :
      {A B : Type 0} (f : A → M (PbDecoder R) (DecodeError E) B)
      (g : A → M (PbDecoder (Source E)) (DecodeError E) B)
      → ((x : A) → Agree (f x) (g x))
      → (r : Result (DecodeError E) A) (d : PbDecoder R)
      → go_on g r (abstract d) ≡ seen (go_on f r d)
  go_on-same f g k (ok x) d = (k x).same d
  go_on-same f g k (err x) d = refl
  go_on-same f g k out_of_fuel d = refl

  pub >>=-Agree :
      {A B : Type 0} {m : M (PbDecoder R) (DecodeError E) A}
      {s : M (PbDecoder (Source E)) (DecodeError E) A} {f : A → M (PbDecoder R) (DecodeError E) B}
      {g : A → M (PbDecoder (Source E)) (DecodeError E) B}
      → Agree m s
      → ((x : A) → Agree (f x) (g x))
      → Agree (m >>= f) (s >>= g)
  >>=-Agree {m} {s} {f} {g} a k = record {
    same = λ d. rw (a.same d) (go_on-same f g k (m d).0 (m d).1);
  }

  pub map_ok-Agree :
      {A B : Type 0} {m : M (PbDecoder R) (DecodeError E) A}
      {s : M (PbDecoder (Source E)) (DecodeError E) A} (f : A → B)
      → Agree m s
      → Agree (map_ok f m) (map_ok f s)
  map_ok-Agree f a = >>=-Agree a (λ x. pure-Agree (f x))
