-- ===== src/Generated/Field/Values.antt =====
-- A value of a field behind its tag.
use micropb.Prelude.{ℕ, ◌^◌, ◌<◌, ◌≡◌, refl, arith, true, List, [], ◌∷◌, ◌++◌}
use micropb.Prelude.{length, append-nil, Option, none, some}
use micropb.Monad.{M}
use micropb.Wire.{from_parts, varint, Presence}
use micropb.Wire.Tags.{varint-from_parts}
use micropb.Writer.{PbWrite}
use micropb.Encode.{PbEncoder}
use micropb.Encode.Output.{IsAppender, Writes, >>-Writes}
use micropb.Encode.Values.{varint32-Writes}
use micropb.Size.{sizeof_tag}
use micropb.Size.Laws.{sizeof_varint32_lem}
use micropb.Reader.{PbRead}
use micropb.Reader.Source.{source_reader}
use micropb.Reader.Laws.{IsReader}
use micropb.Decode.Into.Expect.{Fills}
use micropb.RoundTrip.{CarriesInto}
use micropb.TypeSpec.{TypeSpec}
use micropb.Generated.Types.{Paths, RustType, value_size, encode_value, decode_mut}
use micropb.Generated.Parts.{With, Part, tagged, tag_len, on_value, on_some}
use micropb.Generated.Message.Records.{Records, no_more, then_more, tag_bytes}

-- A field number that fits a tag, and a wire type.
pub record IsTag (n w : ℕ) : Type 0 where
  pub positive : 0 < n
  pub low : n < 2 ^ 29
  pub kind : w < 8

tag-low : (n w : ℕ) → IsTag n w → varint (from_parts n w) < 2 ^ 32
tag-low n w h = omega (arith, varint-from_parts n w h.low h.kind, h.low, h.kind)

pub tag_len_lem : (n w : ℕ) → IsTag n w → tag_len n w ≡ length (tag_bytes n w)
unfolding sizeof_tag
tag_len_lem n w h = sizeof_varint32_lem (varint (from_parts n w)) (tag-low n w h)

pub tagged-Writes :
    {W F : Type 0} {wr : PbWrite W F} (a : IsAppender wr) (n w : ℕ)
    → IsTag n w
    → {m : M (PbEncoder W) F (Unit {0})} {bytes : List ℕ} → Writes a m bytes
    → Writes a (tagged wr n w m) (tag_bytes n w ++ bytes)
tagged-Writes a n w h k =
    >>-Writes a (varint32-Writes a (varint (from_parts n w)) (tag-low n w h)) k

pub one-Records :
    {E : Type 0} (part : Part) (n w : ℕ) {bytes : List ℕ} {s t : With part.State}
    → IsTag n w
    → part.matches n ≡ true
    → Fills {E = E} (part.decode_branch source_reader (from_parts n w)) bytes s tt t
    → Records E part (tag_bytes n w ++ bytes) s t
one-Records part n w {bytes} {s} {t} h m f =
    let one : Records _ part ((tag_bytes n w ++ bytes) ++ []) s t =
      then_more h.positive h.low h.kind m f (no_more t) in
    rw (append-nil (tag_bytes n w ++ bytes)) at one

pub on_value-Fills :
    {E A : Type 0} {m : _} {bytes : List ℕ} {x y : A} (has : List ℕ)
    → Fills {E = E} m bytes x tt y
    → Fills {E = E} {S = With A} (on_value source_reader m) bytes (has, x) tt (has, y)
on_value-Fills has f = record {
  reads = λ rest fault idx ignore. rw (f.reads rest fault idx ignore) refl;
}

pub on_some-Fills :
    {E A : Type 0} {m : _} {bytes : List ℕ} {default y : A}
    → Fills {E = E} m bytes default tt y
    → Fills {E = E} {S = Option A} (on_some source_reader default m) bytes none tt (some y)
on_some-Fills f = record {
  reads = λ rest fault idx ignore. rw (f.reads rest fault idx ignore) refl;
}

module _ {P W F R E : Type 0} {wr : PbWrite W F} {rd : PbRead R E} (a : IsAppender wr)
    (h : IsReader rd) (paths : Paths P)
    (Like : (t : TypeSpec P) → RustType paths t → RustType paths t → Type 0) where
  -- A value of a field's type that the code for the type writes, and reads back into a place that
  -- holds `old` as a value that is like it.
  pub record ValueCarries (t : TypeSpec P) (presence : Presence) (x old : RustType paths t)
      : Type 0 where
    pub read_back : RustType paths t
    pub like : Like t x read_back
    pub carried :
        CarriesInto a h
          (encode_value paths wr t x)
          (decode_mut paths rd t presence)
          (decode_mut paths source_reader t presence)
          (value_size paths t x)
          old
          read_back

  -- Both absent, or both present and alike.
  abbrev pub LikeOption :
      (t : TypeSpec P) → Option (RustType paths t) → Option (RustType paths t) → Type 0
  LikeOption t none none = Unit {0}
  LikeOption t none (some y) = ⊥
  LikeOption t (some x) none = ⊥
  LikeOption t (some x) (some y) = Like t x y

  -- Lists of values that are alike one by one.
  abbrev pub AllLike : (t : TypeSpec P) → List (RustType paths t) → List (RustType paths t) → Type 0
  AllLike t [] [] = Unit {0}
  AllLike t [] (y ∷ ys) = ⊥
  AllLike t (x ∷ xs) [] = ⊥
  AllLike t (x ∷ xs) (y ∷ ys) = Like t x y × AllLike t xs ys

  pub AllLike-refl :
      (t : TypeSpec P)
      → ((x : RustType paths t) → Like t x x)
      → (xs : List (RustType paths t)) → AllLike t xs xs
  AllLike-refl t each [] = tt
  AllLike-refl t each (x ∷ xs) = (each x, AllLike-refl t each xs)
