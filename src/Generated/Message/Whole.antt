-- ===== src/Generated/Message/Whole.antt =====
-- The round trip of a generated message without an unknown handler, from those of its members.
use micropb.Prelude.{ℕ, ◌≡◌, refl, ◌∙◌, Bool, true, false, ◌||◌, List, [], ◌∷◌, none}
use micropb.Prelude.{eq→==, All, Bool-cases, inl, inr}
use micropb.Writer.{PbWrite}
use micropb.Encode.Output.{IsAppender}
use micropb.Reader.{PbRead}
use micropb.Reader.Source.{source_reader}
use micropb.Reader.Laws.{IsReader}
use micropb.RoundTrip.{CarriesInto}
use micropb.Generated.Hazzer
use micropb.Generated.Hazzer.Laws.{IsHazzer}
use micropb.Generated.Types.{Paths}
use micropb.Generated.Agree.{PathsAgree}
use micropb.Generated.Parts.{With, Part}
use micropb.Generated.Field.{FieldType, map_field, single, optional, hazzer, option, repeated}
use micropb.Generated.Field.{custom, accessor, FieldState}
use micropb.Generated.Field.Agree.{field-PartAgrees}
use micropb.Generated.Oneof.Agree.{oneof-PartAgrees}
use micropb.Generated.Message.{Struct, decode, encode, compute_size}
use micropb.Generated.Message.Records.{Distinct}
use micropb.Generated.Message.Carried.{PartAgrees, PartsCarry, message-CarriesInto}
use micropb.Generated.Message.Members.{Member, field, oneof, member_part, owns, owns_type}
use micropb.Generated.Message.Members.{LikeMember, LikeField, MemberReady}

abbrev pub parts_of : {P : Type 0} → Paths P → List (Member P) → List Part
parts_of paths [] = []
parts_of paths (m ∷ members) = member_part paths m ∷ parts_of paths members

abbrev pub any_owns : {P : Type 0} → List (Member P) → ℕ → Bool
any_owns [] j = false
any_owns (m ∷ members) j = owns m j || any_owns members j

-- No two members have one presence bit.
abbrev pub DistinctBits : {P : Type 0} → List (Member P) → Type 0
DistinctBits [] = Unit {0}
DistinctBits (m ∷ members) =
    ((j : ℕ) → owns m j ≡ true → any_owns members j ≡ false) × DistinctBits members

module _ {P R E : Type 0} {rd : PbRead R E} (h : IsReader rd) (paths : Paths P)
    (k : PathsAgree h paths) where
  member-PartAgrees : (m : Member P) → PartAgrees h (member_part paths m)
  member-PartAgrees (field f) = field-PartAgrees h paths k f
  member-PartAgrees (oneof o) = oneof-PartAgrees h paths k o

  pub All-PartAgrees : (members : List (Member P)) → All (PartAgrees h) (parts_of paths members)
  All-PartAgrees [] = tt
  All-PartAgrees (m ∷ members) = (member-PartAgrees m, All-PartAgrees members)

module _ {P W F R E : Type 0} {wr : PbWrite W F} {rd : PbRead R E} (a : IsAppender wr)
    (h : IsReader rd) (paths : Paths P) (k : PathsAgree h paths)
    (LikeMessage : (path : P)
      → (paths.message_at path).Msg
      → (paths.message_at path).Msg
      → Type 0) where
  abbrev pub LikeEach :
      (members : List (Member P)) → (s r : With (Struct none (parts_of paths members))) → Type 0
  LikeEach [] s r = Unit {0}
  LikeEach (m ∷ members) s r =
      LikeMember a h paths k LikeMessage m (s.0, s.1.0) (r.0, r.1.0)
      × LikeEach members (s.0, s.1.1) (r.0, r.1.1)

  LikeField-kept :
      (i : ℕ) (ftype : FieldType P) (s : With (FieldState paths ftype)) (has after : List ℕ)
      (x : FieldState paths ftype)
      → ((j : ℕ) → owns_type i ftype j ≡ true → Hazzer.has j after ≡ Hazzer.has j has)
      → LikeField a h paths k LikeMessage i ftype s (has, x)
      → LikeField a h paths k LikeMessage i ftype s (after, x)
  unfolding accessor
  LikeField-kept i (map_field key val path max) s has after x e l = l
  LikeField-kept i (single t) s has after x e l = l
  LikeField-kept i (optional t hazzer) s has after x e l = rw (e i (eq→== i i refl)) l
  LikeField-kept i (optional t option) s has after x e l = l
  LikeField-kept i (repeated t packed path max) s has after x e l = l
  LikeField-kept i (custom path) s has after x e l = l

  LikeMember-kept :
      (m : Member P) (s : With (member_part paths m).State) (has after : List ℕ)
      (x : (member_part paths m).State)
      → ((j : ℕ) → owns m j ≡ true → Hazzer.has j after ≡ Hazzer.has j has)
      → LikeMember a h paths k LikeMessage m s (has, x)
      → LikeMember a h paths k LikeMessage m s (after, x)
  LikeMember-kept (field f) s has after x e l =
      LikeField-kept f.hazzer_index f.ftype s has after x e l
  LikeMember-kept (oneof o) s has after x e l = l

  module _ (count : ℕ) where
    abbrev pub AllReady :
        (members : List (Member P))
        → With (Struct none (parts_of paths members))
        → Struct none (parts_of paths members)
        → Type 0
    AllReady [] msg old = Unit {0}
    AllReady (m ∷ members) msg old =
        MemberReady a h paths k LikeMessage count m (msg.0, msg.1.0) old.0
        × AllReady members (msg.0, msg.1.1) old.1

    record AllCarry (members : List (Member P))
        (msg start : With (Struct none (parts_of paths members))) : Type 0 where
      result : With (Struct none (parts_of paths members))
      like : LikeEach members msg result
      kept : (j : ℕ) → any_owns members j ≡ false → Hazzer.has j result.0 ≡ Hazzer.has j start.0
      parts : PartsCarry a E (parts_of paths members) msg start result

    all_carry :
        (members : List (Member P)) (msg : With (Struct none (parts_of paths members)))
        (old : Struct none (parts_of paths members)) (has : List ℕ)
        → DistinctBits members
        → IsHazzer count has
        → ((j : ℕ) → any_owns members j ≡ true → Hazzer.has j has ≡ false)
        → AllReady members msg old
        → AllCarry members msg (has, old)
    all_carry [] msg old has d good unset ready = record {
      result = (has, old);
      like = tt;
      kept = λ j e. refl;
      parts = refl;
    }
    all_carry (m ∷ members) msg old has d good unset ready =
        let c = ready.0.carries has good (λ j e. unset j (rw e refl)) in
        let rest =
          all_carry members (msg.0, msg.1.1) old.1 c.after d.1 c.good
            (λ j e. c.kept j (apart j e) ∙ unset j (any_true j e)) ready.1 in
        record {
          result = (rest.result.0, (c.value, rest.result.1));
          like = (
            LikeMember-kept m (msg.0, msg.1.0) c.after rest.result.0 c.value
                (λ j e. rest.kept j (d.0 j e)) c.like,
            rest.like,
          );
          kept = λ j e.
              rest.kept j (or_false (owns m j) (any_owns members j) e).1
              ∙ c.kept j (or_false (owns m j) (any_owns members j) e).0;
          parts = (c.after, c.part, rest.parts);
        }
      where
        apart : (j : ℕ) → any_owns members j ≡ true → owns m j ≡ false
        apart j e = elim (Bool-cases (owns m j)) [
          | inl mine ↦ absurd (cc (d.0 j mine, e))
          | inr other ↦ other
        ]

        any_true : (j : ℕ) → any_owns members j ≡ true → (owns m j || any_owns members j) ≡ true
        any_true j e = rw (apart j e) e

        or_false : (x y : Bool) → (x || y) ≡ false → (x ≡ false) × (y ≡ false)
        or_false true y e = absurd cc
        or_false false y e = (refl, e)

    -- For a generated message without an unknown handler, of any fields and oneofs with distinct
    -- numbers and presence bits, each of which is ready (its own code reads back what it writes
    -- into the place that it starts from), `encode` writes exactly `compute_size` bytes over any
    -- appending writer, and `decode` told that size reads them over any reader, from a message
    -- whose optional fields are unset, to a message each of whose members shows the same as the one
    -- that was written.
    pub generated-round_trip :
        (members : List (Member P)) (msg : With (Struct none (parts_of paths members)))
        (old : Struct none (parts_of paths members)) (has : List ℕ)
        → Distinct (parts_of paths members)
        → DistinctBits members
        → IsHazzer count has
        → ((j : ℕ) → any_owns members j ≡ true → Hazzer.has j has ≡ false)
        → AllReady members msg old
        → (result : With (Struct none (parts_of paths members))) × LikeEach members msg result
          × CarriesInto a h
              (encode wr none (parts_of paths members) msg)
              (decode rd none
                (parts_of paths members)
                (compute_size none (parts_of paths members) msg))
              (decode source_reader none
                (parts_of paths members)
                (compute_size none (parts_of paths members) msg))
              (compute_size none (parts_of paths members) msg)
              (has, old)
              result
    generated-round_trip members msg old has d bits good unset ready =
        let c = all_carry members msg old has bits good unset ready in
        (
          c.result,
          c.like,
          message-CarriesInto a h (parts_of paths members) msg (has, old) c.result d
              (All-PartAgrees h paths k members) c.parts,
        )
