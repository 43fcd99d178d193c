-- ===== src/Container/Maps.antt =====
-- What the decoder of a map field relies on in a `PbMap`, and the insertion of several pairs.
use mathlib.Core.List.{Permᴰ}
use mathlib.Core.List.Permᴰ
use mathlib.Core.Path.{subst}
use micropb.Prelude.{
  ℕ, ◌+◌, ◌≡◌, ◌≢◌, refl, sym, ◌∙◌, true, arith, List, [], ◌∷◌, ◌++◌, length, All, Option,
}
use micropb.Monad.{ok}
use micropb.Encode.Output.{holds, holds_less}
use micropb.Container.{PbMap}

module _ {K V : Type 0} where
  abbrev pub Absent : K → List (K × V) → Type 0
  Absent key pairs = All (λ p. key ≢ p.0) pairs

  abbrev pub DistinctKeys : List (K × V) → Type 0
  DistinctKeys [] = Unit {0}
  DistinctKeys (p ∷ pairs) = Absent p.0 pairs × DistinctKeys pairs

-- A pair with a new key is one more of the pairs that the iterator gives, in whatever order.
pub record IsMap {S K V : Type 0} (map : PbMap S K V) : Type 0 where
  pub capacity : Option ℕ
  pub inserts :
      (s : S) (key : K) (val : V)
      → Absent key (map.pb_iter s)
      → holds capacity (length (map.pb_iter s) + 1) ≡ true
      → ((map.pb_insert s key val).0 ≡ ok tt)
        × Permᴰ (map.pb_iter (map.pb_insert s key val).1) ((key, val) ∷ map.pb_iter s)

All-Perm : {A : Type 0} (P : A → Type 0) {xs ys : List A} → Permᴰ xs ys → All P xs → All P ys
All-Perm P Permᴰ.nil h = tt
All-Perm P (Permᴰ.cons e d) h = (subst P e h.0, All-Perm P d h.1)
All-Perm P (Permᴰ.swap e f) h = (subst P f h.1.0, (subst P e h.0, h.1.1))
All-Perm P (Permᴰ.trans d e) h = All-Perm P e (All-Perm P d h)

length-Perm : {A : Type 0} {xs ys : List A} → Permᴰ xs ys → length xs ≡ length ys
length-Perm Permᴰ.nil = refl
length-Perm (Permᴰ.cons e d) = cc (length-Perm d)
length-Perm (Permᴰ.swap e f) = refl
length-Perm (Permᴰ.trans d e) = length-Perm d ∙ length-Perm e

module _ {S K V : Type 0} (map : PbMap S K V) (law : IsMap map) where
  -- Whether `n` more pairs fit.
  abbrev pub HasRoom : ℕ → S → Type 0
  HasRoom n s = holds law.capacity (length (map.pb_iter s) + n) ≡ true

  abbrev pub insert_all : List (K × V) → S → S
  insert_all [] s = s
  insert_all (p ∷ pairs) s = insert_all pairs (map.pb_insert s p.0 p.1).1

  -- The keys are new to the map.
  abbrev pub AllNew : List (K × V) → S → Type 0
  AllNew pairs s = All (λ p. Absent p.0 (map.pb_iter s)) pairs

  pub HasRoom-first : (n : ℕ) (s : S) → HasRoom (1 + n) s → HasRoom 1 s
  HasRoom-first n s h =
      let same : length (map.pb_iter s) + (1 + n) ≡ length (map.pb_iter s) + 1 + n = omega arith in
      holds_less law.capacity (length (map.pb_iter s) + 1) n (rw same at h)

  module _ (s : S) (key : K) (val : V) (new : Absent key (map.pb_iter s)) (room : HasRoom 1 s) where
    abbrev inserted : S
    inserted = (map.pb_insert s key val).1

    shown : Permᴰ (map.pb_iter inserted) ((key, val) ∷ map.pb_iter s)
    shown = (law.inserts s key val new room).1

    pub HasRoom-rest : (n : ℕ) → HasRoom (1 + n) s → HasRoom n inserted
    HasRoom-rest n h =
        let same : length (map.pb_iter s) + (1 + n) ≡ length (map.pb_iter inserted) + n =
          omega (arith, length-Perm shown) in
        rw same at h

    pub AllNew-insert :
        (pairs : List (K × V)) → Absent key pairs → AllNew pairs s → AllNew pairs inserted
    AllNew-insert [] a h = tt
    AllNew-insert (p ∷ pairs) a h = (
      All-Perm (λ q. p.0 ≢ q.0) (Permᴰ.symm shown) ((λ e. a.0 (sym e)), h.0),
      AllNew-insert pairs a.1 h.1,
    )

  pub insert_all_lem :
      (pairs : List (K × V)) (s : S)
      → DistinctKeys pairs
      → AllNew pairs s
      → HasRoom (length pairs) s
      → Permᴰ (map.pb_iter (insert_all pairs s)) (pairs ++ map.pb_iter s)
  insert_all_lem [] s d h room = Permᴰ.refl (map.pb_iter s)
  insert_all_lem (p ∷ pairs) s d h room =
      let same : 1 + length pairs ≡ length (p ∷ pairs) = omega arith in
      let first = rw (sym same) at room in
      let one = HasRoom-first (length pairs) s first in
      Permᴰ.trans
        (insert_all_lem pairs (map.pb_insert s p.0 p.1).1 d.1
          (AllNew-insert s p.0 p.1 h.0 one pairs d.0 h.1)
          (HasRoom-rest s p.0 p.1 h.0 one (length pairs) first))
        (Permᴰ.trans (Permᴰ.append_left pairs (shown s p.0 p.1 h.0 one))
          (Permᴰ.middle p pairs (map.pb_iter s)))
