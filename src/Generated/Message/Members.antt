-- ===== src/Generated/Message/Members.antt =====
-- The members of a message, fields and oneofs: what each of them needs of the message that is
-- written and of the one that is read into, and how what is read is like what was written.
use micropb.Prelude.{ℕ, ◌≡◌, Bool, true, false, ◌==◌}
use micropb.Prelude.{List}
use mathlib.Core.List.{Permᴰ}
use micropb.Writer.{PbWrite}
use micropb.Encode.Output.{IsAppender}
use micropb.Reader.{PbRead}
use micropb.Reader.Laws.{IsReader}
use micropb.TypeSpec.{TypeSpec}
use micropb.Generated.Hazzer
use micropb.Generated.Hazzer.Laws.{IsHazzer}
use micropb.Generated.Types.{Paths, RustType}
use micropb.Generated.Types.Carried.{Alike}
use micropb.Generated.Agree.{PathsAgree}
use micropb.Generated.Parts.{With, Part}
use micropb.Generated.Field.{
  Field, FieldType, map_field, single, optional, hazzer, option, repeated,
}
use micropb.Generated.Field.{custom, field_part, FieldState, accessor}
use micropb.Generated.Field.Values.{LikeOption, AllLike}
use micropb.Generated.Field.Present.{implicit_value}
use micropb.Generated.Oneof.{OneofType, enum_oneof, custom_oneof, oneof_part}
use micropb.Generated.Oneof.Carried.{LikeOneof}
use micropb.Generated.Message.Carried.{PartCarries}

pub data Member (P : Type 0) : Type 0 where
  field : Field P → Member P
  oneof : OneofType P → Member P

abbrev pub member_part : {P : Type 0} → Paths P → Member P → Part
member_part paths (field f) = field_part paths f
member_part paths (oneof o) = oneof_part paths o

-- Whether the presence bit `j` is the member's.
abbrev pub owns_type : {P : Type 0} → ℕ → FieldType P → ℕ → Bool
owns_type i (map_field key val path max) j = false
owns_type i (single t) j = false
owns_type i (optional t hazzer) j = i == j
owns_type i (optional t option) j = false
owns_type i (repeated t packed path max) j = false
owns_type i (custom path) j = false

abbrev pub owns : {P : Type 0} → Member P → ℕ → Bool
owns (field f) j = owns_type f.hazzer_index f.ftype j
owns (oneof o) j = false

module _ {P W F R E : Type 0} {wr : PbWrite W F} {rd : PbRead R E} (a : IsAppender wr)
    (h : IsReader rd) (paths : Paths P) (k : PathsAgree h paths)
    (LikeMessage : (path : P)
      → (paths.message_at path).Msg
      → (paths.message_at path).Msg
      → Type 0) where
  abbrev pub Same : (t : TypeSpec P) → RustType paths t → RustType paths t → Type 0
  Same = Alike paths LikeMessage

  -- A map may give the same pairs in another order.
  abbrev pub LikeField :
      (i : ℕ) (ftype : FieldType P)
      → With (FieldState paths ftype)
      → With (FieldState paths ftype)
      → Type 0
  LikeField i (map_field key val path max) s r =
      Permᴰ ((paths.map_at path max (RustType paths key) (RustType paths val)).pb_map.pb_iter r.1)
        ((paths.map_at path max (RustType paths key) (RustType paths val)).pb_map.pb_iter s.1)
  LikeField i (single t) s r =
      LikeOption a h paths Same t (implicit_value a h paths Same t s.1)
        (implicit_value a h paths Same t r.1)
  LikeField i (optional t repr) s r =
      LikeOption a h paths Same t (accessor paths i t repr s) (accessor paths i t repr r)
  LikeField i (repeated t packed path max) s r =
      AllLike a h paths Same t ((paths.vec_at path max (RustType paths t)).pb_vec.deref s.1)
        ((paths.vec_at path max (RustType paths t)).pb_vec.deref r.1)
  LikeField i (custom path) s r = r.1 ≡ s.1

  abbrev pub LikeUnion :
      (o : OneofType P) → (oneof_part paths o).State → (oneof_part paths o).State → Type 0
  LikeUnion (enum_oneof fields) x y = LikeOneof a h paths Same fields x y
  LikeUnion (custom_oneof path nums) x y = y ≡ x

  -- What the accessors of the member show is alike.
  abbrev pub LikeMember :
      (m : Member P) → With (member_part paths m).State → With (member_part paths m).State → Type 0
  LikeMember (field f) s r = LikeField f.hazzer_index f.ftype s r
  LikeMember (oneof o) s r = LikeUnion o s.1 r.1

  module _ (count : ℕ) where
    -- The member is carried: the presence bits of the others are as they were.
    pub record MemberCarries (m : Member P) (msg start : With (member_part paths m).State)
        : Type 0 where
      pub after : List ℕ
      pub value : (member_part paths m).State
      pub like : LikeMember m msg (after, value)
      pub good : IsHazzer count after
      pub kept : (j : ℕ) → owns m j ≡ false → Hazzer.has j after ≡ Hazzer.has j start.0
      pub part : PartCarries a E (member_part paths m) msg start (after, value)

    -- Whatever the presence bits of the others are, when its own are not set.
    pub record MemberReady (m : Member P) (msg : With (member_part paths m).State)
        (old : (member_part paths m).State) : Type 0 where
      pub carries :
          (has : List ℕ)
          → IsHazzer count has
          → ((j : ℕ) → owns m j ≡ true → Hazzer.has j has ≡ false)
          → MemberCarries m msg (has, old)
