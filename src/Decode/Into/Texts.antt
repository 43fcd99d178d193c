-- ===== src/Decode/Into/Texts.antt =====
-- `decode_string` and `decode_bytes` on every branch.
use micropb.Prelude.{ℕ, ◌+◌, ◌^◌, ◌<◌, ◌≡◌, ◌≢◌, refl, sym, ap, ◌∙◌, arith, inl, inr, Bool-cases}
use micropb.Prelude.{List, [], ◌++◌, length, Option, Bool, true, false, ◌==◌, ◌&&◌}
use micropb.Prelude.{if◌then◌else◌}
use micropb.Monad.{Result, ok, err, out_of_fuel}
use micropb.Wire.{Presence}
use micropb.Encode.Bytes.{varint_bytes}
use micropb.Encode.Output.{holds}
use micropb.Reader.Source.{Source, source_reader}
use micropb.Container.{PbContainer, PbVec, PbString, Spare, IsStorage}
use micropb.Utf8.{is_utf8}
use micropb.Decode.{PbDecoder, DecodeError, capacity, utf8}
use micropb.Decode.Expect.{at}
use micropb.Decode.Into.{decode_string, decode_bytes, is_implicit}
use micropb.Decode.Into.Storage as Fill
use micropb.Decode.Into.Agree as Over
use micropb.Reader.{PbRead}
use micropb.Reader.Laws.{IsReader}

-- A result, the decoder and what the container holds.
abbrev pub Outcome : Type 0 → Type 0
Outcome E = Result (DecodeError E) (Unit {0}) × PbDecoder (Source E) × List ℕ

abbrev pub shown :
    {E S : Type 0}
    → (S → List ℕ)
    → Result (DecodeError E) (Unit {0}) × (PbDecoder (Source E) × S)
    → Outcome E
shown deref out = (out.0, out.1.0, deref out.1.1)

-- The test that `decode_string` makes and `decode_bytes` does not.
abbrev pub utf8_test : {E : Type 0} → List ℕ → Result (DecodeError E) (Unit {0})
utf8_test bytes = if is_utf8 bytes then ok tt else err utf8

pub ok_ends : {E A : Type 0} {x : A} → ◌≢◌ {A = Result E A} (ok x) out_of_fuel
ok_ends h = ground arith

pub err_ends : {E A : Type 0} {x : E} → ◌≢◌ {A = Result E A} (err x) out_of_fuel
err_ends h = ground arith

module _ {E : Type 0} where
  module _ (bytes rest : List ℕ) (fault : Option E) (idx : ℕ) (ignore : Bool) where
    -- A field that fits and passes its test replaces the contents. Else the container is emptied:
    -- before the read if the field does not fit, behind it if the test fails.
    abbrev pub refilled : Bool → Result (DecodeError E) (Unit {0}) → Outcome E
    refilled true (ok x) = (ok tt, at rest fault (idx + length bytes) ignore, bytes)
    refilled true (err e) = (err e, at rest fault (idx + length bytes) ignore, [])
    refilled true out_of_fuel = (out_of_fuel, at rest fault (idx + length bytes) ignore, [])
    refilled false r = (err capacity, at (bytes ++ rest) fault idx ignore, [])

    -- An empty field with implicit presence leaves the contents alone.
    abbrev pub replaced : Presence → Bool → Result (DecodeError E) (Unit {0}) → List ℕ → Outcome E
    replaced presence fits check old =
        if (length bytes == 0) && is_implicit presence
        then (ok tt, at (bytes ++ rest) fault idx ignore, old)
        else refilled fits check

  module _ {S : Type 0} (c : PbContainer S) {deref : S → List ℕ} (spare : Spare S ℕ)
      (law : IsStorage c deref spare) where
    refill_lem :
        (check : List ℕ → Result (DecodeError E) (Unit {0})) (bytes : List ℕ) (s : S)
        (r : Result (DecodeError E) (Unit {0}))
        → check bytes ≡ r
        → (b : Bool) → holds law.capacity (length bytes) ≡ b
        → (r ≢ out_of_fuel)
        → (rest : List ℕ) (fault : Option E) (idx : ℕ) (ignore : Bool)
        → shown deref
            (Fill.refill c spare check (length bytes) (at (bytes ++ rest) fault idx ignore, s))
          ≡ refilled bytes rest fault idx ignore b r
    refill_lem check bytes s (ok tt) e true h n rest fault idx ignore =
        rw
          (
            (Fill.refill-Fills c spare law check bytes s e h).reads rest fault idx ignore,
            Fill.refilled_lem c spare law bytes s h,
          )
          refl
    refill_lem check bytes s (err x) e true h n rest fault idx ignore =
        rw (Fill.refill_refused c spare law check bytes s x e h rest fault idx ignore) (
          ap (λ t. (err x, at rest fault (idx + length bytes) ignore, t))
            (law.unseen _ bytes ∙ Fill.emptied_lem c spare law (length bytes) s))
    refill_lem check bytes s out_of_fuel e b h n rest fault idx ignore = absurd (n refl)
    refill_lem check bytes s r e false h n rest fault idx ignore =
        rw (Fill.refill_full c spare law check (length bytes) h (bytes ++ rest) fault idx ignore s)
          (ap (λ t. (err capacity, at (bytes ++ rest) fault idx ignore, t))
            (Fill.emptied_lem c spare law (length bytes) s))

  utf8_test-ends : (bytes : List ℕ) → utf8_test {E = E} bytes ≢ out_of_fuel
  utf8_test-ends bytes h = elim (Bool-cases (is_utf8 bytes)) [
    | inl good ↦ absurd (ok_ends (rw good at h))
    | inr bad ↦ absurd (err_ends (rw bad at h))
  ]

  decode_string-source :
      {S : Type 0} (string : PbString S)
      (law : IsStorage string.container string.deref string.pb_spare_cap) (presence : Presence)
      (bytes : List ℕ)
      → length bytes < 2 ^ 32
      → (rest : List ℕ) (fault : Option E) (idx : ℕ) (ignore : Bool) (s : S)
      → shown string.deref (
          decode_string source_reader string presence
            (at (varint_bytes (length bytes) ++ (bytes ++ rest)) fault idx ignore, s))
        ≡ replaced bytes rest fault
            (idx + length (varint_bytes (length bytes)))
            ignore
            presence
            (holds law.capacity (length bytes))
            (utf8_test bytes)
            (string.deref s)
  unfolding decode_string
  decode_string-source string law presence bytes low rest fault idx ignore s =
      rw ((Fill.prefix-Decodes {E = E} (length bytes) low).reads (bytes ++ rest) fault idx ignore)
        (elim (Bool-cases ((length bytes == 0) && is_implicit presence)) [
          | inl keep ↦ rw keep refl
          | inr replace ↦ rw replace (
              refill_lem string.container string.pb_spare_cap law (λ w. utf8_test w) bytes s _ refl
                _ refl (utf8_test-ends _) rest fault _ ignore)
        ])

  decode_bytes-source :
      {S : Type 0} (vec : PbVec S ℕ) (law : IsStorage vec.container vec.deref vec.pb_spare_cap)
      (presence : Presence) (bytes : List ℕ)
      → length bytes < 2 ^ 32
      → (rest : List ℕ) (fault : Option E) (idx : ℕ) (ignore : Bool) (s : S)
      → shown vec.deref (
          decode_bytes source_reader vec presence
            (at (varint_bytes (length bytes) ++ (bytes ++ rest)) fault idx ignore, s))
        ≡ replaced bytes rest fault
            (idx + length (varint_bytes (length bytes)))
            ignore
            presence
            (holds law.capacity (length bytes))
            (ok tt)
            (vec.deref s)
  unfolding decode_bytes
  decode_bytes-source vec law presence bytes low rest fault idx ignore s =
      rw ((Fill.prefix-Decodes {E = E} (length bytes) low).reads (bytes ++ rest) fault idx ignore)
        (elim (Bool-cases ((length bytes == 0) && is_implicit presence)) [
          | inl keep ↦ rw keep refl
          | inr replace ↦ rw replace (
              refill_lem vec.container vec.pb_spare_cap law (λ w. ok tt) bytes s _ refl _ refl
                ok_ends rest fault _ ignore)
        ])

module _ {R E : Type 0} {rd : PbRead R E} (h : IsReader rd) where
  -- `decode_string` on a record of fewer than 2 ^ 32 bytes, on every branch, over any reader and
  -- any string container: an empty one with implicit presence leaves the string alone; one that
  -- does not fit empties the string and fails with `Capacity` before its bytes are read; one that
  -- is not UTF-8 empties it and fails with `Utf8` behind them; any other replaces the contents.
  pub decode_string_lem :
      {S : Type 0} (string : PbString S)
      (law : IsStorage string.container string.deref string.pb_spare_cap) (presence : Presence)
      (bytes rest : List ℕ)
      → length bytes < 2 ^ 32
      → (d : PbDecoder R) (s : S)
      → (h.chunks.view d.reader).bytes ≡ varint_bytes (length bytes) ++ (bytes ++ rest)
      → shown string.deref (Over.shown h (decode_string rd string presence (d, s)))
        ≡ replaced bytes rest
            (h.chunks.view d.reader).fault
            (d.idx + length (varint_bytes (length bytes)))
            d.ignore_repeated_cap_err
            presence
            (holds law.capacity (length bytes))
            (utf8_test bytes)
            (string.deref s)
  decode_string_lem string law presence bytes rest low d s before =
      ap (shown string.deref) (
        sym ((Over.decode_string-Agree h string presence).same d s)
        ∙ ap
            (λ t.
              decode_string source_reader string presence
                (at t (h.chunks.view d.reader).fault d.idx d.ignore_repeated_cap_err, s))
            before)
      ∙ decode_string-source string law presence bytes low rest _ d.idx _ s

  -- `decode_bytes` on a record of fewer than 2 ^ 32 bytes, on every branch, over any reader and any
  -- byte container: an empty one with implicit presence leaves the container alone, one that does
  -- not fit empties it and fails with `Capacity` before its bytes are read, any other replaces the
  -- contents.
  pub decode_bytes_lem :
      {S : Type 0} (vec : PbVec S ℕ) (law : IsStorage vec.container vec.deref vec.pb_spare_cap)
      (presence : Presence) (bytes rest : List ℕ)
      → length bytes < 2 ^ 32
      → (d : PbDecoder R) (s : S)
      → (h.chunks.view d.reader).bytes ≡ varint_bytes (length bytes) ++ (bytes ++ rest)
      → shown vec.deref (Over.shown h (decode_bytes rd vec presence (d, s)))
        ≡ replaced bytes rest
            (h.chunks.view d.reader).fault
            (d.idx + length (varint_bytes (length bytes)))
            d.ignore_repeated_cap_err
            presence
            (holds law.capacity (length bytes))
            (ok tt)
            (vec.deref s)
  decode_bytes_lem vec law presence bytes rest low d s before =
      ap (shown vec.deref) (
        sym ((Over.decode_bytes-Agree h vec presence).same d s)
        ∙ ap
            (λ t.
              decode_bytes source_reader vec presence
                (at t (h.chunks.view d.reader).fault d.idx d.ignore_repeated_cap_err, s))
            before)
      ∙ decode_bytes-source vec law presence bytes low rest _ d.idx _ s
