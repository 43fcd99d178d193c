-- ===== src/Generated/Hazzer/Laws.antt =====
-- The methods of a `_Hazzer` on its whole array.
use micropb.Prelude.{ℕ, zero, suc, ◌/◌, ◌%◌, ◌^◌, ◌<◌, ◌≡◌, refl, ◌∙◌, ap, arith, Bool, true, false}
use micropb.Prelude.{List, [], ◌∷◌, length, All, ◌==◌, if◌then◌else◌, Bool-cases, inl, inr}
use micropb.Prelude.{==→eq, eq→==, ne→==_false}
use micropb.Generated.Hazzer.{hazzer_bytes, byte_at, change_at, mask, bit, with_bit}
use micropb.Generated.Hazzer.{without_bit, has, set, clear}
use micropb.Generated.Hazzer.Bytes.{with_bit-bit, without_bit-bit, with_bit-lt, without_bit-lt}

-- The index of every optional field's byte is inside the array.
pub hazzer_index-lt : (count i : ℕ) → i < count → i / 8 < hazzer_bytes count
unfolding hazzer_bytes
hazzer_index-lt count i h = omega arith

abbrev pub IsByte : ℕ → Type 0
IsByte b = b < 256

-- An array of bytes of the length that `count` fields need.
pub record IsHazzer (count : ℕ) (bytes : List ℕ) : Type 0 where
  pub size : length bytes ≡ hazzer_bytes count
  pub each : All IsByte bytes

byte_at-lt : (k : ℕ) (bytes : List ℕ) → All IsByte bytes → byte_at k bytes < 256
byte_at-lt k [] h = omega arith
byte_at-lt zero (b ∷ bytes) h = h.0
byte_at-lt (suc k) (b ∷ bytes) h = byte_at-lt k bytes h.1

length-change_at :
    (k : ℕ) (f : ℕ → ℕ) (bytes : List ℕ) → length (change_at k f bytes) ≡ length bytes
length-change_at k f [] = refl
length-change_at zero f (b ∷ bytes) = refl
length-change_at (suc k) f (b ∷ bytes) = ap suc (length-change_at k f bytes)

change_at-All :
    (k : ℕ) (f : ℕ → ℕ) (bytes : List ℕ)
    → ((b : ℕ) → b < 256 → f b < 256)
    → All IsByte bytes
    → All IsByte (change_at k f bytes)
change_at-All k f [] keeps h = tt
change_at-All zero f (b ∷ bytes) keeps h = (keeps b h.0, h.1)
change_at-All (suc k) f (b ∷ bytes) keeps h = (h.0, change_at-All k f bytes keeps h.1)

byte_at-change_at_same :
    (k : ℕ) (f : ℕ → ℕ) (bytes : List ℕ)
    → k < length bytes
    → byte_at k (change_at k f bytes) ≡ f (byte_at k bytes)
byte_at-change_at_same k f [] h = absurd (omega arith)
byte_at-change_at_same zero f (b ∷ bytes) h = refl
byte_at-change_at_same (suc k) f (b ∷ bytes) h = byte_at-change_at_same k f bytes (omega arith)

byte_at-change_at_other :
    (k m : ℕ) (f : ℕ → ℕ) (bytes : List ℕ)
    → (k ≡ m → ⊥)
    → byte_at m (change_at k f bytes) ≡ byte_at m bytes
byte_at-change_at_other k m f [] h = refl
byte_at-change_at_other zero zero f (b ∷ bytes) h = absurd (h refl)
byte_at-change_at_other zero (suc m) f (b ∷ bytes) h = refl
byte_at-change_at_other (suc k) zero f (b ∷ bytes) h = refl
byte_at-change_at_other (suc k) (suc m) f (b ∷ bytes) h =
    byte_at-change_at_other k m f bytes (λ e. h (ap suc e))

-- A change of the bit of one field, for a method that changes only that bit of a byte.
change_bit :
    (f : ℕ → ℕ → ℕ) (value : Bool)
    → ((i j b : ℕ)
        → i < 8
        → j < 8
        → b < 256
        → bit (2 ^ j) (f (2 ^ i) b) ≡ (if i == j then value else bit (2 ^ j) b))
    → (i j : ℕ) (bytes : List ℕ) → i / 8 < length bytes
    → All IsByte bytes
    → bit (mask j) (byte_at (j / 8) (change_at (i / 8) (f (mask i)) bytes))
      ≡ (if i == j then value else bit (mask j) (byte_at (j / 8) bytes))
change_bit f value law i j bytes h each = elim (Bool-cases (i / 8 == j / 8)) [
  | inl same ↦
      let e : j / 8 ≡ i / 8 = omega (arith, ==→eq (i / 8) (j / 8) same) in
      rw (e, byte_at-change_at_same (i / 8) (f (mask i)) bytes h)
        (law (i % 8) (j % 8) (byte_at (i / 8) bytes) (omega arith) (omega arith)
            (byte_at-lt (i / 8) bytes each)
          ∙ ap (λ t. if t then value else bit (mask j) (byte_at (i / 8) bytes)) (rest e))
  | inr other ↦
      let apart : i / 8 ≡ j / 8 → ⊥ = λ e. absurd (cc (other, eq→== (i / 8) (j / 8) e)) in
      let no : (i == j) ≡ false = ne→==_false i j (λ e. apart (ap (λ t. t / 8) e)) in
      rw (no, byte_at-change_at_other (i / 8) (j / 8) (f (mask i)) bytes apart)
]
  where
    rest : j / 8 ≡ i / 8 → (i % 8 == j % 8) ≡ (i == j)
    rest e = elim (Bool-cases (i == j)) [
      | inl y ↦ rw y (eq→== _ _ (ap (λ t. t % 8) (==→eq i j y)))
      | inr n ↦ rw n (ne→==_false _ _ λ r. absurd (cc (n, eq→== i j (omega (arith, e, r)))))
    ]

module _ (count : ℕ) where
  pub set-IsHazzer : (i : ℕ) (bytes : List ℕ) → IsHazzer count bytes → IsHazzer count (set i bytes)
  unfolding set
  set-IsHazzer i bytes h = record {
    size = length-change_at (i / 8) (with_bit (mask i)) bytes ∙ h.size;
    each =
        change_at-All (i / 8) (with_bit (mask i)) bytes
          (λ b k. with_bit-lt (i % 8) b (omega arith) k) h.each;
  }

  pub clear-IsHazzer :
      (i : ℕ) (bytes : List ℕ) → IsHazzer count bytes → IsHazzer count (clear i bytes)
  unfolding clear
  clear-IsHazzer i bytes h = record {
    size = length-change_at (i / 8) (without_bit (mask i)) bytes ∙ h.size;
    each =
        change_at-All (i / 8) (without_bit (mask i)) bytes
          (λ b k. without_bit-lt (i % 8) b (omega arith) k) h.each;
  }

  inside : (i : ℕ) (bytes : List ℕ) → IsHazzer count bytes → i < count → i / 8 < length bytes
  inside i bytes h k = omega (arith, h.size, hazzer_index-lt count i k)

  pub has-set :
      (i j : ℕ) (bytes : List ℕ)
      → IsHazzer count bytes
      → i < count
      → has j (set i bytes) ≡ (if i == j then true else has j bytes)
  unfolding has set
  has-set i j bytes h k =
      change_bit with_bit true with_bit-bit i j bytes (inside i bytes h k) h.each

  pub has-clear :
      (i j : ℕ) (bytes : List ℕ)
      → IsHazzer count bytes
      → i < count
      → has j (clear i bytes) ≡ (if i == j then false else has j bytes)
  unfolding has clear
  has-clear i j bytes h k =
      change_bit without_bit false without_bit-bit i j bytes (inside i bytes h k) h.each
