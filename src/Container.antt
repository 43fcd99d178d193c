-- ===== src/Container.antt =====
-- micropb/src/container.rs: the container traits as interfaces, and what the decoder relies on of
-- an implementation. `MaybeUninit` slots are a length and a way of writing to their front.
pub mod Alloc
pub mod Maps
use micropb.Prelude.{ℕ, suc, ◌+◌, ◌≤◌, ◌≡◌, true, false, List, [], ◌∷◌, ◌++◌, length, leb, Option}
use micropb.Monad.{Result, ok, err}
use micropb.Encode.Output.{holds}

pub record PbContainer (S : Type 0) : Type 0 where
  pub pb_set_len : S → ℕ → S
  pub pb_reserve : S → ℕ → S
  pub pb_clear : S → S

-- The spare capacity `&mut [MaybeUninit<T>]`: its length, and the container after items were
-- written to the front of it.
abbrev pub Spare : Type 0 → Type 0 → Type 0
Spare S T = S → ℕ × (List T → S)

-- `deref` is the supertrait `Deref<Target = [T]>`.
pub record PbVec (S T : Type 0) : Type 0 where
  pub container : PbContainer S
  pub deref : S → List T
  pub pb_push : S → T → Result (Unit {0}) (Unit {0}) × S
  pub pb_spare_cap : Spare S T
  pub pb_from_slice : List T → Result (Unit {0}) S

-- `deref` is the supertrait `Deref<Target = str>`, the string's UTF-8 bytes.
pub record PbString (S : Type 0) : Type 0 where
  pub container : PbContainer S
  pub deref : S → List ℕ
  pub pb_spare_cap : Spare S ℕ
  pub pb_from_str : List ℕ → Result (Unit {0}) S

pub record PbMap (S K V : Type 0) : Type 0 where
  pub pb_insert : S → K → V → Result (Unit {0}) (Unit {0}) × S
  pub pb_iter : S → List (K × V)

-- A container whose spare capacity can be filled: reserving gives room for `n` more items exactly
-- when the capacity has it.
pub record IsStorage {S T : Type 0} (c : PbContainer S) (deref : S → List T) (spare : Spare S T)
    : Type 0 where
  pub capacity : Option ℕ
  pub clear : (s : S) → deref (c.pb_clear s) ≡ []
  pub reserve : (s : S) (n : ℕ) → deref (c.pb_reserve s n) ≡ deref s
  pub room :
      (s : S) (n : ℕ) → leb n (spare (c.pb_reserve s n)).0 ≡ holds capacity (length (deref s) + n)
  pub unseen : (s : S) (xs : List T) → deref ((spare s).1 xs) ≡ deref s
  pub fill :
      (s : S) (xs : List T)
      → length xs ≤ (spare s).0
      → deref (c.pb_set_len ((spare s).1 xs) (length (deref s) + length xs)) ≡ deref s ++ xs

pub record IsVec {S T : Type 0} (v : PbVec S T) : Type 0 where
  pub storage : IsStorage v.container v.deref v.pb_spare_cap
  pub pushes :
      (s : S) (x : T)
      → holds storage.capacity (length (v.deref s) + 1) ≡ true
      → ((v.pb_push s x).0 ≡ ok tt) × (v.deref (v.pb_push s x).1 ≡ v.deref s ++ (x ∷ []))
  pub full :
      (s : S) (x : T)
      → holds storage.capacity (length (v.deref s) + 1) ≡ false
      → ((v.pb_push s x).0 ≡ err tt) × (v.deref (v.pb_push s x).1 ≡ v.deref s)
