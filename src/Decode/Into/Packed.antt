-- ===== src/Decode/Into/Packed.antt =====
-- `decode_packed` reads what `encode_packed` writes.
use mathlib.Core.List.{flat_map}
use micropb.Prelude.{All, ℕ, ◌+◌, ◌-◌, ◌^◌, ◌<◌, ◌≡◌, refl, sym, ◌∙◌, arith}
use micropb.Prelude.{List, [], ◌∷◌, ◌++◌, length, append_assoc, append-nil, length-append}
use micropb.Prelude.{Bool, true, ◌==◌, eq→==}
use micropb.Monad.{M}
use micropb.Encode.Bytes.{varint_bytes}
use micropb.Encode.Output.{holds, holds_less}
use micropb.Reader.Source.{Source, source_reader}
use micropb.Container.{PbVec, IsVec}
use micropb.Decode.{PbDecoder, DecodeError}
use micropb.Decode.Expect.{Decodes}
use micropb.Decode.Into.{packed_round, decode_packed}
use micropb.Decode.Into.Expect.{Fills}
use micropb.Decode.Into.Loop.{Rounds, done, more, read_while-Rounds, decode_len_record_lem}

module _ {S T : Type 0} (vec : PbVec S T) (law : IsVec vec) where
  -- Whether `n` more elements fit.
  abbrev pub takes : ℕ → S → Bool
  takes n s = holds law.storage.capacity (length (vec.deref s) + n)

  abbrev pub push_all : List T → S → S
  push_all [] s = s
  push_all (x ∷ xs) s = push_all xs (vec.pb_push s x).1

  pub takes_first : (n : ℕ) (s : S) → takes (1 + n) s ≡ true → takes 1 s ≡ true
  takes_first n s h =
      let same : length (vec.deref s) + (1 + n) ≡ length (vec.deref s) + 1 + n = omega arith in
      holds_less law.storage.capacity (length (vec.deref s) + 1) n (rw same at h)

  pub takes_rest :
      (x : T) (n : ℕ) (s : S) → takes (1 + n) s ≡ true → takes n (vec.pb_push s x).1 ≡ true
  takes_rest x n s h =
      let now = (law.pushes s x (takes_first n s h)).1 in
      let same : length (vec.deref s) + (1 + n) ≡ length (vec.deref s ++ (x ∷ [])) + n =
        omega (arith, length-append (vec.deref s) (x ∷ [])) in
      rw now (rw same at h)

  pub push_all_lem :
      (xs : List T) (s : S)
      → takes (length xs) s ≡ true
      → vec.deref (push_all xs s) ≡ vec.deref s ++ xs
  push_all_lem [] s h = sym (append-nil _)
  push_all_lem (x ∷ xs) s h =
      let same : 1 + length xs ≡ length (x ∷ xs) = omega arith in
      let first = rw (sym same) at h in
      push_all_lem xs (vec.pb_push s x).1 (takes_rest x (length xs) s first)
      ∙ rw (law.pushes s x (takes_first (length xs) s first)).1
          (append_assoc (vec.deref s) (x ∷ []) xs)

  module _ {E : Type 0} (decoder : M (PbDecoder (Source E)) (DecodeError E) T) (wire : T → List ℕ)
      (P : T → Type 0) (reads : (x : T) → P x → Decodes decoder (wire x) x)
      (takes_bytes : (x : T) → 0 < length (wire x)) (ignore : Bool) where
    round-Fills :
        (x : T) (s : S)
        → P x
        → takes 1 s ≡ true
        → Fills (packed_round source_reader vec decoder ignore) (wire x) s tt (vec.pb_push s x).1
    unfolding packed_round
    round-Fills x s k h = record {
      reads = λ rest fault idx flag.
          rw ((reads x k).reads rest fault idx flag, (law.pushes s x h).0) refl;
    }

    packed-Rounds :
        (xs : List T) (s : S)
        → All P xs
        → takes (length xs) s ≡ true
        → Rounds
            (packed_round source_reader vec decoder ignore)
            (flat_map wire xs)
            s
            (push_all xs s)
    unfolding flat_map
    packed-Rounds [] s k h = done s
    packed-Rounds (x ∷ xs) s k h =
        let same : 1 + length xs ≡ length (x ∷ xs) = omega arith in
        let first = rw (sym same) at h in
        more (round-Fills x s k.0 (takes_first (length xs) s first)) (takes_bytes x)
          (packed-Rounds xs (vec.pb_push s x).1 k.1 (takes_rest x (length xs) s first))

  module _ {E : Type 0} (decoder : M (PbDecoder (Source E)) (DecodeError E) T) (wire : T → List ℕ)
      (P : T → Type 0) (reads : (x : T) → P x → Decodes decoder (wire x) x)
      (takes_bytes : (x : T) → 0 < length (wire x)) where
    pub packed-Fills :
        (xs : List T) (s : S)
        → All P xs
        → length (flat_map wire xs) < 2 ^ 32
        → takes (length xs) s ≡ true
        → Fills
            (decode_packed source_reader vec decoder)
            (varint_bytes (length (flat_map wire xs)) ++ flat_map wire xs)
            s
            tt
            (push_all xs s)
    unfolding decode_packed
    packed-Fills xs s k low h = record {
      reads = λ rest fault idx ignore.
          let body = flat_map wire xs in
          let len = length body in
          let start = idx + length (varint_bytes len) in
          let all : idx + length (varint_bytes len ++ body) ≡ start + len =
            omega (arith, length-append (varint_bytes len) body) in
          let whole : ((start + len - start) == len) ≡ true = eq→== _ _ (omega arith) in
          let loop =
            read_while-Rounds (packed-Rounds decoder wire P reads takes_bytes ignore xs s k h) len
              len start start (omega arith) (omega arith) (omega arith) rest fault ignore in
          rw (append_assoc, all)
            (decode_len_record_lem _ len low (body ++ rest) rest fault idx (start + len) ignore s
                (push_all xs s) tt loop
              ∙ rw whole refl);
    }
