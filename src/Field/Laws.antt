-- ===== src/Field/Laws.antt =====
-- Fields wrapped in `Option`.
use micropb.Prelude.{ℕ, ◌<◌, ◌≢◌, arith, Option, none, some, List, [], length}
use micropb.Writer.{PbWrite}
use micropb.Encode.Output.{IsAppender, Writes, pure-Writes}
use micropb.Field.{FieldEncode, option_encode}

module _ {W E F : Type 0} {wr : PbWrite W E} (a : IsAppender wr) (f : FieldEncode wr F)
    (wire : F → List ℕ) where
  abbrev pub option_wire : Option F → List ℕ
  option_wire none = []
  option_wire (some x) = wire x

  -- An absent field writes nothing and a present one writes what the field itself does.
  pub option_encode-Writes :
      ((x : F) → Writes a (f.encode_fields x) (wire x))
      → (o : Option F) → Writes a ((option_encode wr f).encode_fields o) (option_wire o)
  unfolding option_encode
  option_encode-Writes each none = pure-Writes a
  option_encode-Writes each (some x) = each x

  -- For a field type whose encoder writes known bytes, a present field in an `Option` writes the
  -- same bytes, but `compute_fields_size` of the `Option` is not their number, whenever there is a
  -- byte or more.
  pub option_size_lem :
      ((x : F) → Writes a (f.encode_fields x) (wire x))
      → (x : F) → 0 < length (wire x)
      → Writes a ((option_encode wr f).encode_fields (some x)) (wire x)
        × ((option_encode wr f).compute_fields_size (some x) ≢ length (wire x))
  unfolding option_encode
  option_size_lem each x h = (each x, λ same. omega (arith, h, same))
