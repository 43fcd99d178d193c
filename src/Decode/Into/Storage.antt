-- ===== src/Decode/Into/Storage.antt =====
-- `decode_string` and `decode_bytes`: the spare capacity of a container is filled and then counted
-- in.
use micropb.Prelude.{ℕ, ◌+◌, ◌%◌, ◌^◌, ◌<◌, ◌≡◌, refl, ◌∙◌, ap, arith}
use micropb.Prelude.{List, [], ◌++◌, length, append-nil, Option, Bool, true, false, leb, leb→le}
use micropb.Prelude.{ltb, lt→ltb, leb_false→lt, le→ltb_false}
use micropb.Monad.{Result, ok, err, ◌>>=◌, ◌>>◌}
use micropb.Encode.Bytes.{varint_bytes}
use micropb.Encode.Output.{holds}
use micropb.Reader.Source.{source_reader}
use micropb.Container.{PbContainer, Spare, IsStorage}
use micropb.Decode.{DecodeError, capacity, lift, read_into_buf, decode_varint32}
use micropb.Decode.Expect.{Decodes, at, read_exact-Decodes}
use micropb.Decode.Varint32.{decode_varint32-Decodes}
use micropb.Decode.Into.{Into, update, read_into_spare}
use micropb.Decode.Into.Expect.{Fills, lift-Fills, update-Fills, >>=-Fills, >>-Fills}

module _ {S : Type 0} (c : PbContainer S) {deref : S → List ℕ} (spare : Spare S ℕ)
    (law : IsStorage c deref spare) where
  abbrev pub emptied : ℕ → S → S
  emptied len s = c.pb_reserve (c.pb_clear s) len

  pub emptied_lem : (len : ℕ) (s : S) → deref (emptied len s) ≡ []
  emptied_lem len s = law.reserve _ len ∙ law.clear s

  emptied_room : (len : ℕ) (s : S) → leb len (spare (emptied len s)).0 ≡ holds law.capacity len
  emptied_room len s =
      law.room (c.pb_clear s) len ∙ (rw (law.clear s) (ap (holds law.capacity) (omega arith)))

  -- The storage once its slots are filled and counted in.
  abbrev pub refilled : List ℕ → S → S
  refilled bytes s = c.pb_set_len ((spare (emptied (length bytes) s)).1 bytes) (length bytes)

  pub refilled_lem :
      (bytes : List ℕ) (s : S)
      → holds law.capacity (length bytes) ≡ true
      → deref (refilled bytes s) ≡ bytes
  refilled_lem bytes s h =
      let fits = emptied_room (length bytes) s ∙ h in
      let front : deref (emptied (length bytes) s) ≡ [] = emptied_lem (length bytes) s in
      let none_yet : 0 + length bytes ≡ length bytes = omega arith in
      rw (front, none_yet) at (law.fill (emptied (length bytes) s) bytes (leb→le _ _ fits))

module _ {E : Type 0} where
  pub prefix-Decodes :
      (len : ℕ)
      → len < 2 ^ 32
      → Decodes {E = E} (decode_varint32 source_reader) (varint_bytes len) len
  prefix-Decodes len h =
      let low : len % 2 ^ 32 ≡ len = omega arith in
      rw low at (decode_varint32-Decodes {E = E} len (omega arith))

  read_into_buf-Decodes :
      (size : ℕ) (bytes : List ℕ)
      → leb (length bytes) size ≡ true
      → Decodes {E = E} (read_into_buf source_reader size (length bytes)) bytes bytes
  unfolding read_into_buf
  read_into_buf-Decodes size bytes h =
      let big : ltb size (length bytes) ≡ false = le→ltb_false _ _ (leb→le _ _ h) in
      rw big (read_exact-Decodes bytes)

  module _ {S : Type 0} where
    read_into_spare-Fills :
        (spare : Spare S ℕ) (bytes : List ℕ) (s : S)
        → leb (length bytes) (spare s).0 ≡ true
        → Fills {E = E}
            (read_into_spare source_reader spare (length bytes))
            bytes
            s
            bytes
            ((spare s).1 bytes)
    unfolding read_into_spare
    read_into_spare-Fills spare bytes s h = record {
      reads = λ rest fault idx ignore.
          rw ((read_into_buf-Decodes (spare s).0 bytes h).reads rest fault idx ignore);
    }

    -- What both methods do behind the prefix, with the test that follows the read.
    abbrev pub refill :
        PbContainer S
        → Spare S ℕ
        → (List ℕ → Result (DecodeError E) (Unit {0}))
        → ℕ
        → Into (source_reader {E = E}) S (Unit {0})
    refill c spare check len =
        update source_reader c.pb_clear
        >> update source_reader (λ s. c.pb_reserve s len)
        >> (read_into_spare source_reader spare len >>= λ written. lift (check written))
        >> update source_reader (λ s. c.pb_set_len s len)

    module _ (c : PbContainer S) {deref : S → List ℕ} (spare : Spare S ℕ)
        (law : IsStorage c deref spare) where
      pub refill-Fills :
          (check : List ℕ → Result (DecodeError E) (Unit {0})) (bytes : List ℕ) (s : S)
          → check bytes ≡ ok tt
          → holds law.capacity (length bytes) ≡ true
          → Fills (refill c spare check (length bytes)) bytes s tt (refilled c spare law bytes s)
      refill-Fills check bytes s e h =
          let len = length bytes in
          let fits = emptied_room c spare law len s ∙ h in
          let written = (spare (emptied c spare law len s)).1 bytes in
          let passed : Fills (lift (check bytes)) [] written tt written =
            rw e (lift-Fills tt written) in
          rw (append-nil (bytes ++ []), append-nil bytes) at
            (>>-Fills
              (>>-Fills
                (>>-Fills (update-Fills c.pb_clear s) (update-Fills (λ s. c.pb_reserve s len) _))
                (>>=-Fills (λ written. lift (check written))
                  (read_into_spare-Fills spare bytes (emptied c spare law len s) fits) passed))
              (update-Fills (λ s. c.pb_set_len s len) _))

      pub refill_full :
          (check : List ℕ → Result (DecodeError E) (Unit {0})) (len : ℕ)
          → holds law.capacity len ≡ false
          → (rest : List ℕ) (fault : Option E) (idx : ℕ) (ignore : Bool) (s : S)
          → refill c spare check len (at rest fault idx ignore, s)
            ≡ (err capacity, (at rest fault idx ignore, emptied c spare law len s))
      unfolding read_into_spare read_into_buf
      refill_full check len h rest fault idx ignore s =
          let small : ltb (spare (emptied c spare law len s)).0 len ≡ true =
            lt→ltb _ _ (leb_false→lt _ _ (emptied_room c spare law len s ∙ h)) in
          rw small refl

      pub refill_refused :
          (check : List ℕ → Result (DecodeError E) (Unit {0})) (bytes : List ℕ) (s : S)
          (x : DecodeError E)
          → check bytes ≡ err x
          → holds law.capacity (length bytes) ≡ true
          → (rest : List ℕ) (fault : Option E) (idx : ℕ) (ignore : Bool)
          → refill c spare check (length bytes) (at (bytes ++ rest) fault idx ignore, s) ≡ (
            err x,
            (
              at rest fault (idx + length bytes) ignore,
              (spare (emptied c spare law (length bytes) s)).1 bytes,
            ),
          )
      refill_refused check bytes s x e h rest fault idx ignore =
          let fits = emptied_room c spare law (length bytes) s ∙ h in
          rw
            (
              (read_into_spare-Fills spare bytes (emptied c spare law (length bytes) s) fits).reads
                  rest fault idx ignore,
              e,
            )
            refl
