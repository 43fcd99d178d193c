-- ===== src/Generated/Hazzer/Calls.antt =====
-- Any calls of the methods of a `_Hazzer`, against the set of the fields that are present.
use Prim.Native.Nat.{bit_and-bitwise}
use micropb.Prelude.{ℕ, zero, suc, ◌/◌, ◌<◌, ◌≡◌, refl, ap, ◌∙◌, arith, Bool, true, false}
use micropb.Prelude.{List, [], ◌∷◌, length, replicate, All, ◌==◌, if◌then◌else◌}
use micropb.Prelude.{bit_and}
use micropb.Generated.Hazzer.{hazzer_bytes, new, byte_at, mask, has, set, clear}
use micropb.Generated.Hazzer.Laws.{hazzer_index-lt}
use micropb.Generated.Hazzer.Laws.{
  IsHazzer, IsByte, set-IsHazzer, clear-IsHazzer, has-set, has-clear,
}

pub data Call : Type 0 where
  set_call clear_call : ℕ → Call

abbrev pub field_of : Call → ℕ
field_of (set_call i) = i
field_of (clear_call i) = i

abbrev pub call : Call → List ℕ → List ℕ
call (set_call i) bytes = set i bytes
call (clear_call i) bytes = clear i bytes

abbrev pub calls : List Call → List ℕ → List ℕ
calls [] bytes = bytes
calls (c ∷ cs) bytes = calls cs (call c bytes)

-- The abstract state: which fields are present.
abbrev pub Present : Type 0
Present = ℕ → Bool

abbrev pub step : Call → Present → Present
step (set_call i) present j = if i == j then true else present j
step (clear_call i) present j = if i == j then false else present j

abbrev pub steps : List Call → Present → Present
steps [] present = present
steps (c ∷ cs) present = steps cs (step c present)

length-zeros : (n : ℕ) → length (replicate {A = ℕ} n 0) ≡ n
length-zeros zero = refl
length-zeros (suc n) = ap suc (length-zeros n)

zeros-All : (n : ℕ) → All IsByte (replicate n 0)
zeros-All zero = tt
zeros-All (suc n) = (omega arith, zeros-All n)

byte_at-zeros : (k n : ℕ) → byte_at k (replicate n 0) ≡ 0
byte_at-zeros k zero = refl
byte_at-zeros zero (suc n) = refl
byte_at-zeros (suc k) (suc n) = byte_at-zeros k n

pub new-IsHazzer : (count : ℕ) → IsHazzer count (new count)
unfolding new
new-IsHazzer count = record {
  size = length-zeros (hazzer_bytes count);
  each = zeros-All (hazzer_bytes count);
}

zero-bit_and : (b : ℕ) → bit_and 0 b ≡ 0
zero-bit_and b = bit_and-bitwise 0 b

pub has-new : (count j : ℕ) → has j (new count) ≡ false
unfolding has new
has-new count j = rw (byte_at-zeros (j / 8) (hazzer_bytes count), zero-bit_and (mask j)) refl

module _ (count : ℕ) where
  call-IsHazzer : (c : Call) (bytes : List ℕ) → IsHazzer count bytes → IsHazzer count (call c bytes)
  call-IsHazzer (set_call i) bytes h = set-IsHazzer count i bytes h
  call-IsHazzer (clear_call i) bytes h = clear-IsHazzer count i bytes h

  has-call :
      (c : Call) (bytes : List ℕ) (present : Present)
      → IsHazzer count bytes
      → field_of c < count
      → ((j : ℕ) → has j bytes ≡ present j)
      → (j : ℕ) → has j (call c bytes) ≡ step c present j
  has-call (set_call i) bytes present h k same j = has-set count i j bytes h k ∙ rw (same j) refl
  has-call (clear_call i) bytes present h k same j =
      has-clear count i j bytes h k ∙ rw (same j) refl

  calls_from :
      (cs : List Call) (bytes : List ℕ) (present : Present)
      → All (λ c. field_of c < count) cs
      → IsHazzer count bytes
      → ((j : ℕ) → has j bytes ≡ present j)
      → IsHazzer count (calls cs bytes) × ((j : ℕ) → has j (calls cs bytes) ≡ steps cs present j)
  calls_from [] bytes present k h same = (h, same)
  calls_from (c ∷ cs) bytes present k h same =
      calls_from cs (call c bytes) (step c present) k.1 (call-IsHazzer c bytes h)
        (has-call c bytes present h k.0 same)

  -- After any calls of the setters and clearers of the fields that have a presence bit, on a new
  -- array, the getter of each field answers as the set of present fields does to which the same
  -- calls were made.
  pub hazzer_calls_lem :
      (cs : List Call)
      → All (λ c. field_of c < count) cs
      → (j : ℕ) → has j (calls cs (new count)) ≡ steps cs (λ i. false) j
  hazzer_calls_lem cs k =
      (calls_from cs (new count) (λ i. false) k (new-IsHazzer count) (has-new count)).1

  -- Any calls of the setters and clearers keep the array at the length that the count of the fields
  -- gives, with every element a byte, and the index of every field's byte is inside it.
  pub calls-IsHazzer :
      (cs : List Call)
      → All (λ c. field_of c < count) cs
      → IsHazzer count (calls cs (new count))
        × ((i : ℕ) → i < count → i / 8 < length (calls cs (new count)))
  calls-IsHazzer cs k =
      let good =
        (calls_from cs (new count) (λ i. false) k (new-IsHazzer count) (has-new count)).0 in
      (good, λ i h. omega (arith, good.size, hazzer_index-lt count i h))
