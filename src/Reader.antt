-- ===== src/Reader.antt =====
-- `trait PbRead` of micropb/src/decode.rs with its provided method `pb_read_exact`, its
-- implementation for `&[u8]`, and `maybe_uninit_write_slice` of micropb/src/misc.rs.
pub mod Source
pub mod Laws
use micropb.Prelude.{ℕ, zero, suc, ◌-◌, ◌==◌, if◌then◌else◌, List, [], ◌∷◌, ◌++◌}
use micropb.Prelude.{length, take, drop}
use Prim.Native.Nat.{min}
use micropb.Monad.{Result, ok, out_of_fuel, M, ◌>>=◌, go_on, pure}

-- A buffer `buf` to fill is its length; a call that fills it returns the bytes that it wrote.
pub record PbRead (R E : Type 0) : Type 0 where
  pub pb_read_chunk : R → Result E (List ℕ) × R
  pub pb_advance : R → ℕ → R
  pub pb_read_exact : R → ℕ → Result E (List ℕ) × R

-- How many items of `src` go into the `n` free places of the slice `this`.
unfoldable pub maybe_uninit_write_slice : ℕ → List ℕ → ℕ
maybe_uninit_write_slice n src = min n (length src)

module _ {R E : Type 0} (chunk : R → Result E (List ℕ) × R) (advance : R → ℕ → R) where
  -- One round with the chunk that was read: the end of the input ends the loop early.
  unfoldable pub fill_from : (ℕ → List ℕ → M R E (List ℕ)) → ℕ → List ℕ → List ℕ → M R E (List ℕ)
  fill_from rest remaining got [] r = (ok got, r)
  fill_from rest remaining got (b ∷ bs) r =
      let n = maybe_uninit_write_slice remaining (b ∷ bs) in
      rest (remaining - n) (got ++ take n (b ∷ bs)) (advance r n)

  -- The loop of `pb_read_exact`: `remaining` places are left after the bytes `got`. Each round fills
  -- one at least, so `remaining` rounds are enough.
  unfoldable pub read_exact_loop : ℕ → ℕ → List ℕ → M R E (List ℕ)
  unfolding fill_from
  read_exact_loop zero remaining got r = if remaining == 0 then (ok got, r) else (out_of_fuel, r)
  read_exact_loop (suc fuel) remaining got r =
      let more = (chunk >>= fill_from (read_exact_loop fuel) remaining got) r in
      if remaining == 0 then (ok got, r) else more

  unfoldable pub pb_read_exact : R → ℕ → Result E (List ℕ) × R
  pb_read_exact r n = read_exact_loop n n [] r

-- A reader that keeps the provided method.
abbrev pub default_reader : {R E : Type 0} → (R → Result E (List ℕ) × R) → (R → ℕ → R) → PbRead R E
default_reader chunk advance = record {
  pb_read_chunk = chunk;
  pb_advance = advance;
  pb_read_exact = pb_read_exact chunk advance;
}

-- `impl PbRead for &[u8]`; past the end `get(bytes..)` gives the empty slice.
unfoldable pub slice_reader : PbRead (List ℕ) ⊥
slice_reader = record {
  pb_read_chunk = λ s. (ok s, s);
  pb_advance = λ s n. drop n s;
  pb_read_exact = λ s n. let k = maybe_uninit_write_slice n s in (ok (take k s), drop k s);
}
