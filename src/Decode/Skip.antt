-- ===== src/Decode/Skip.antt =====
-- `skip_wire_value` takes one value off the wire.

use micropb.Prelude.{ℕ, zero, suc, ◌+◌, ◌/◌, ◌%◌, ◌^◌, ◌<◌, ◌*◌, ◌≡◌, sym, ap, ◌∙◌, arith}
use micropb.Prelude.{List, [], ◌++◌, length, ltb, ltb→lt, Bool-cases, inl, inr}
use micropb.Monad.{ok}
use micropb.Reader.{PbRead}
use micropb.Reader.Laws.{IsReader}
use micropb.Decode.{PbDecoder}
use micropb.Decode.Agree.{seen}
use micropb.Decode.Refine.{skip_wire_value-Agree}
use micropb.Wire.{wire_type_varint, wire_type_i64, wire_type_len, wire_type_i32}
use micropb.Encode.Bytes.{varint_bytes, groups}
use micropb.Reader.Source.{source_reader}
use micropb.Decode.{skip_varint, skip_varint_loop, skip_len, skip_wire_value, skip_bytes}
use micropb.Decode.Expect.{at, Decodes, skip_bytes-Decodes, pure-Decodes, >>=-Decodes}
use micropb.Decode.Groups.{get_more, last_test, more_test}
use micropb.Decode.Into.Storage.{prefix-Decodes}

-- One value on the wire, by its wire type.
pub data WireValue : ℕ → List ℕ → Type 0 where
  varint_value : (v : ℕ) → v < 2 ^ 64 → WireValue wire_type_varint (varint_bytes v)
  i64_value : (bytes : List ℕ) → length bytes ≡ 8 → WireValue wire_type_i64 bytes
  i32_value : (bytes : List ℕ) → length bytes ≡ 4 → WireValue wire_type_i32 bytes
  len_value :
      (bytes : List ℕ)
      → length bytes < 2 ^ 32
      → WireValue wire_type_len (varint_bytes (length bytes) ++ bytes)

power_suc : (k : ℕ) → 128 ^ suc k ≡ 128 * 128 ^ k
power_suc k = omega arith

module _ {E : Type 0} where
  skip_groups-Decodes :
      (k v : ℕ)
      → v < 128 ^ suc k
      → Decodes {E = E} (skip_varint_loop source_reader (suc k)) (groups k v) tt
  unfolding skip_varint_loop groups
  skip_groups-Decodes zero v h =
      get_more v [] _ tt (rw (last_test v (omega (arith, h))) (pure-Decodes tt))
  skip_groups-Decodes (suc k) v h = elim (Bool-cases (ltb v 128)) [
    | inl small ↦
        rw small (get_more v [] _ tt (rw (last_test v (ltb→lt v 128 small)) (pure-Decodes tt)))
    | inr large ↦ rw large (
        get_more (v % 128 + 128) (groups k (v / 128)) _ tt (
          rw (more_test (v % 128) (omega arith))
            (skip_groups-Decodes k (v / 128) (omega (arith, h, power_suc (suc k))))))
  ]

  pub skip_value-Decodes :
      {t : ℕ} {bytes : List ℕ}
      → WireValue t bytes
      → Decodes {E = E} (skip_wire_value source_reader t) bytes tt
  unfolding skip_wire_value skip_varint skip_len varint_bytes
  skip_value-Decodes (varint_value v h) = skip_groups-Decodes 9 v (omega arith)
  skip_value-Decodes (i64_value bytes h) = rw h at (skip_bytes-Decodes {E = E} bytes)
  skip_value-Decodes (i32_value bytes h) = rw h at (skip_bytes-Decodes {E = E} bytes)
  skip_value-Decodes (len_value bytes h) =
      >>=-Decodes (skip_bytes source_reader) (prefix-Decodes (length bytes) h)
        (skip_bytes-Decodes bytes)

module _ {R E : Type 0} {rd : PbRead R E} (h : IsReader rd) where
  -- Over any reader, `skip_wire_value` told the wire type of a value that comes next (a varint
  -- below 2 ^ 64, eight bytes, four bytes, or a length below 2 ^ 32 with its bytes) succeeds and
  -- takes exactly that value.
  pub skip_wire_value_lem :
      (t : ℕ) (bytes rest : List ℕ)
      → WireValue t bytes
      → (d : PbDecoder R) → (h.chunks.view d.reader).bytes ≡ bytes ++ rest
      → seen h (skip_wire_value rd t d) ≡ (
        ok tt,
        at rest (h.chunks.view d.reader).fault (d.idx + length bytes) d.ignore_repeated_cap_err,
      )
  skip_wire_value_lem t bytes rest w d e =
      sym ((skip_wire_value-Agree h t).same d)
      ∙ ap
          (λ u.
            skip_wire_value source_reader t
              (at u (h.chunks.view d.reader).fault d.idx d.ignore_repeated_cap_err))
          e
      ∙ (skip_value-Decodes w).reads rest _ d.idx _
