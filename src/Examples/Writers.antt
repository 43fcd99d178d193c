-- ===== src/Examples/Writers.antt =====
-- A writer and a reader to instantiate the theorems with: a buffer of fixed capacity, as the
-- `heapless` and `arrayvec` vectors are, and a reader that hands out one or two bytes at a time, as
-- `Multichunk` of the crate's tests does.
use micropb.Prelude.{ℕ, ◌%◌, refl, none}
use micropb.Prelude.{List, [], ◌∷◌, length, drop, if◌then◌else◌, ◌==◌, Bool-cases}
use micropb.Prelude.{inl, inr}
use micropb.Monad.{ok}
use micropb.Reader.{PbRead, default_reader}
use micropb.Reader.Laws.{HasChunks, IsChunk, IsReader, default_reader-IsReader}

abbrev pub chunk_of : List ℕ → List ℕ
chunk_of [] = []
chunk_of (b ∷ []) = b ∷ []
chunk_of (b ∷ c ∷ bs) = if length bs % 2 == 0 then b ∷ c ∷ [] else b ∷ []

abbrev pub multichunk : PbRead (List ℕ) ⊥
multichunk = default_reader (λ s. (ok (chunk_of s), s)) (λ s n. drop n s)

pub chunk_of-IsChunk : (s : List ℕ) → IsChunk {E = ⊥} s none (ok (chunk_of s))
chunk_of-IsChunk [] = refl
chunk_of-IsChunk (b ∷ []) = (b, [], [], refl, refl)
chunk_of-IsChunk (b ∷ c ∷ bs) = elim (Bool-cases (length bs % 2 == 0)) [
  | inl even ↦ rw even (b, c ∷ [], bs, refl, refl)
  | inr odd ↦ rw odd (b, [], c ∷ bs, refl, refl)
]

abbrev pub multichunk-HasChunks :
    HasChunks {R = List ℕ} {E = ⊥} (λ s. (ok (chunk_of s), s)) (λ s n. drop n s)
multichunk-HasChunks = record {
  view = λ s. record { bytes = s; fault = none };
  reads = chunk_of-IsChunk;
  keeps = λ s. refl;
  advances = λ s n c e le. refl;
}

abbrev pub multichunk-IsReader : IsReader multichunk
multichunk-IsReader = default_reader-IsReader multichunk-HasChunks
