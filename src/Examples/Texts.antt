-- ===== src/Examples/Texts.antt =====
-- Strings and bytes, written and read back, at concrete inputs.
use micropb.Prelude.{ℕ, ◌≡◌, refl, arith, List, [], ◌∷◌, length}
use micropb.Wire
use micropb.Writer.{vec_writer}
use micropb.Encode
use micropb.Encode.Output.{vec_appender}
use micropb.Size
use micropb.Reader.Source.{source_reader}
use micropb.Container.Alloc
use micropb.Utf8.{is_utf8}
use micropb.Decode.Into
use micropb.RoundTrip.{CarriesInto}
use micropb.RoundTrip.Texts
use micropb.Examples.Writers.{multichunk, multichunk-IsReader}

abbrev old : Alloc.Vec ℕ
old = record { items = 7 ∷ []; slots = []; spare = 0 }

-- The letters h, é.
abbrev text : List ℕ
text = 0x68 ∷ 0xc3 ∷ 0xa9 ∷ []

string-CarriesInto_example :
    (t : Alloc.Vec ℕ) × (Alloc.string.deref t ≡ text)
    × CarriesInto vec_appender multichunk-IsReader
        (Encode.encode_string vec_writer text)
        (Into.decode_string multichunk Alloc.string Wire.implicit)
        (Into.decode_string source_reader Alloc.string Wire.implicit)
        (Size.sizeof_len_record (length text))
        old
        t
unfolding is_utf8
string-CarriesInto_example =
    Texts.string-CarriesInto vec_appender multichunk-IsReader Alloc.string Alloc.string-IsStorage
      Wire.implicit text (omega arith) refl refl (Alloc.string_holds 3) old

bytes-CarriesInto_example :
    (t : Alloc.Vec ℕ) × (Alloc.vec.deref t ≡ [])
    × CarriesInto vec_appender multichunk-IsReader
        (Encode.encode_bytes vec_writer [])
        (Into.decode_bytes multichunk Alloc.vec Wire.explicit)
        (Into.decode_bytes source_reader Alloc.vec Wire.explicit)
        (Size.sizeof_len_record (length {A = ℕ} []))
        old
        t
bytes-CarriesInto_example =
    Texts.bytes-CarriesInto vec_appender multichunk-IsReader Alloc.vec
      (Alloc.vec-IsVec {T = ℕ}).storage Wire.explicit [] (omega arith) refl (Alloc.vec_holds ℕ 0)
      old
