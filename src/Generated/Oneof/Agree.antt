-- ===== src/Generated/Oneof/Agree.antt =====
-- The branches of oneofs over a reader and over the bytes to come.
use micropb.Prelude.{ℕ, List, [], ◌∷◌, Option, ◌==◌, ◌⊎◌}
use micropb.Monad.{ok}
use micropb.Wire.{field_num, explicit}
use micropb.Reader.{PbRead}
use micropb.Reader.Source.{source_reader}
use micropb.Reader.Laws.{IsReader}
use micropb.Decode.Into.{Into, get_or}
use micropb.Decode.Into.Agree as Over
use micropb.Generated.Types.{Paths, type_default}
use micropb.Generated.Oneof.{OneofField, OneofType, enum_oneof, custom_oneof, oneof_part}
use micropb.Generated.Oneof.{variant_branches, on_variant, on_other, as_first, as_other}
use micropb.Generated.Agree.{PathsAgree, decode_mut-Agree}
use micropb.Generated.Field.Agree.{on_value-Agree, or_custom_field-Agree}
use micropb.Generated.Message.Carried.{PartAgrees}

module _ {P R E : Type 0} {rd : PbRead R E} (h : IsReader rd) (paths : Paths P)
    (k : PathsAgree h paths) where
  on_variant-Agree :
      {A B : Type 0} (default : A) {m : Into rd A (Unit {0})} {s : Into source_reader A (Unit {0})}
      → Over.Agree h m s
      → Over.Agree h {S = Option (A ⊎ B)}
          (on_variant paths rd default m)
          (on_variant paths source_reader default s)
  on_variant-Agree default a = record { same = λ d x. rw (a.same d (get_or default (as_first x))) }

  on_other-Agree :
      {A B : Type 0} {m : Into rd (Option B) (Unit {0})}
      {s : Into source_reader (Option B) (Unit {0})}
      → Over.Agree h m s
      → Over.Agree h {S = Option (A ⊎ B)} (on_other paths rd m) (on_other paths source_reader s)
  on_other-Agree a = record { same = λ d x. rw (a.same d (as_other x)) }

  variant_branches-Agree :
      (fields : List (OneofField P)) (n : ℕ)
      → Over.Agree h
          (variant_branches paths rd fields n)
          (variant_branches paths source_reader fields n)
  unfolding variant_branches
  variant_branches-Agree [] n = Over.lift-Agree h (ok tt)
  variant_branches-Agree (f ∷ fields) n =
      Over.if-Agree h (n == f.num)
        (on_variant-Agree (type_default paths f.tspec)
          (decode_mut-Agree h paths k f.tspec explicit))
        (on_other-Agree (variant_branches-Agree fields n))

  pub oneof-PartAgrees : (o : OneofType P) → PartAgrees h (oneof_part paths o)
  oneof-PartAgrees (enum_oneof fields) = record {
    agrees =
        λ read_tag. on_value-Agree h paths k (variant_branches-Agree fields (field_num read_tag));
  }
  oneof-PartAgrees (custom_oneof path nums) = record {
    agrees = λ read_tag.
        on_value-Agree h paths k (or_custom_field-Agree h paths k (k.customs path read_tag));
  }
