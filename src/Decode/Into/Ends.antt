-- ===== src/Decode/Into/Ends.antt =====
-- The loops over a record end when each round takes a byte.
use micropb.Prelude.{ℕ, zero, suc, ◌+◌, ◌-◌, ◌≤◌, ◌<◌, ◌≡◌, ◌≢◌, arith, false, ltb}
use micropb.Prelude.{le→ltb_false, Bool-cases, inl, inr}
use micropb.Monad.{Result, ok, err, out_of_fuel, go_on}
use micropb.Reader.{PbRead}
use micropb.Decode.{PbDecoder, DecodeError, bytes_read}
use micropb.Decode.Into.{Into, read_while}
use micropb.Decode.Into.Texts.{ok_ends, err_ends}

-- What a round came to, from one count of bytes to another: it counted a byte or more, or failed.
abbrev pub Moves : {E : Type 0} → ℕ → Result (DecodeError E) (Unit {0}) → ℕ → Type 0
Moves idx (ok x) after = idx < after
Moves idx (err x) after = Unit {0}
Moves idx out_of_fuel after = ⊥

module _ {R E S : Type 0} (rd : PbRead R E) where
  go_on-ends :
      (k : Into rd S (Unit {0})) (idx : ℕ) (r : Result (DecodeError E) (Unit {0}))
      (p : PbDecoder R × S)
      → Moves idx r p.0.idx
      → (idx < p.0.idx → (k p).0 ≢ out_of_fuel)
      → (go_on (λ u. k) r p).0 ≢ out_of_fuel
  go_on-ends k idx (ok x) p m h = h m
  go_on-ends k idx (err x) p m h = err_ends
  go_on-ends k idx out_of_fuel p m h = absurd m

  -- If every round of a loop over a record fails or counts a byte or more, the loop over a record
  -- of `len` bytes does not run out when it has as many rounds as there are bytes left.
  pub read_while-ends :
      (round : Into rd S (Unit {0}))
      → ((d : PbDecoder R) (s : S) → Moves d.idx (round (d, s)).0 (round (d, s)).1.0.idx)
      → (fuel len before : ℕ) (d : PbDecoder R) (s : S) → before + len ≤ d.idx + fuel
      → (read_while rd round fuel len before (d, s)).0 ≢ out_of_fuel
  unfolding read_while bytes_read
  read_while-ends round moves zero len before d s h =
      let stop : ltb (d.idx - before) len ≡ false = le→ltb_false _ _ (omega (arith, h)) in
      rw stop ok_ends
  read_while-ends round moves (suc fuel) len before d s h =
      elim (Bool-cases (ltb (d.idx - before) len)) [
        | inl more ↦ rw more (
            go_on-ends (read_while rd round fuel len before) d.idx (round (d, s)).0 (round (d, s)).1
              (moves d s)
              (λ further.
                read_while-ends round moves fuel len before (round (d, s)).1.0 (round (d, s)).1.1
                  (omega (arith, h, further))))
        | inr stop ↦ rw stop ok_ends
      ]
