-- ===== src/Decode/Into/Expect.antt =====
-- What a method that writes to a destination makes of given bytes, whatever comes behind them.
use micropb.Prelude.{ℕ, ◌+◌, ◌≡◌, arith, List, [], ◌++◌}
use micropb.Prelude.{length, append_assoc, length-append, Option, Bool}
use micropb.Monad.{ok, M, ◌>>=◌, ◌>>◌}
use micropb.Reader.Source.{Source, source_reader}
use micropb.Decode.{PbDecoder, DecodeError, lift}
use micropb.Decode.Expect.{at, Decodes}
use micropb.Decode.Into.{Into, on_decoder, update}

module _ {E : Type 0} where
  -- The operation takes exactly `bytes` from the front of what is to come, returns `x` and takes
  -- the destination from `s` to `t`.
  pub record Fills {S A : Type 0} (m : Into (source_reader {E = E}) S A) (bytes : List ℕ) (s : S)
      (x : A) (t : S) : Type 0 where
    pub reads :
        (rest : List ℕ) (fault : Option E) (idx : ℕ) (ignore : Bool)
        → m (at (bytes ++ rest) fault idx ignore, s)
          ≡ (ok x, (at rest fault (idx + length bytes) ignore, t))

  module _ {S : Type 0} where
    pub on_decoder-Fills :
        {A : Type 0} {m : M (PbDecoder (Source E)) (DecodeError E) A} {bytes : List ℕ} {x : A}
        → Decodes m bytes x
        → (s : S) → Fills (on_decoder source_reader m) bytes s x s
    on_decoder-Fills h s = record {
      reads = λ rest fault idx ignore. rw (h.reads rest fault idx ignore);
    }

    pub lift-Fills : {A : Type 0} (x : A) (s : S) → Fills (lift (ok x)) [] s x s
    lift-Fills x s = record {
      reads = λ rest fault idx ignore. let same : idx + 0 ≡ idx = omega arith in rw same;
    }

    pub update-Fills : (f : S → S) (s : S) → Fills (update source_reader f) [] s tt (f s)
    update-Fills f s = record {
      reads = λ rest fault idx ignore. let same : idx + 0 ≡ idx = omega arith in rw same;
    }

    pub >>=-Fills :
        {A B : Type 0} {m : Into source_reader S A} {bytes more : List ℕ} {x : A} {y : B}
        {s t u : S} (f : A → Into source_reader S B)
        → Fills m bytes s x t
        → Fills (f x) more t y u
        → Fills (m >>= f) (bytes ++ more) s y u
    >>=-Fills {m} {bytes} {more} {x} {y} {s} {t} f h k = record {
      reads = λ rest fault idx ignore.
          let all : idx + length (bytes ++ more) ≡ idx + length bytes + length more =
            omega (arith, length-append bytes more) in
          rw (append_assoc, h.reads (more ++ rest) fault idx ignore, all)
            (k.reads rest fault (idx + length bytes) ignore);
    }

    pub >>-Fills :
        {B : Type 0} {m : Into source_reader S (Unit {0})} {k : Into source_reader S B}
        {bytes more : List ℕ} {y : B} {s t u : S}
        → Fills m bytes s tt t
        → Fills k more t y u
        → Fills (m >> k) (bytes ++ more) s y u
    >>-Fills {k} h g = >>=-Fills (λ v. k) h g
