-- ===== src/Writer.antt =====
-- `trait PbWrite` of micropb/src/encode.rs, and its implementation for `Vec<u8>`.
use micropb.Prelude.{ℕ, List, ◌++◌}
use micropb.Monad.{Result, ok}

-- The writer is its state, `pb_write` gives the result and the writer afterwards.
pub record PbWrite (W E : Type 0) : Type 0 where
  pub pb_write : W → List ℕ → Result E (Unit {0}) × W

-- `impl PbWrite for Vec<u8>`: `extend_from_slice`, which cannot fail (`Never` has no value).
abbrev pub vec_writer : PbWrite (List ℕ) ⊥
vec_writer = record { pb_write = λ v bytes. (ok tt, v ++ bytes) }
