-- ===== src/Decode/Into/Counts.antt =====
-- The methods that write to a destination end, with at least a given number of bytes counted.
pub mod Records
use micropb.Prelude.{
  ℕ, zero, suc, ◌+◌, ◌-◌, ◌*◌, ◌%◌, ◌^◌, ◌<◌, ◌≤◌, ◌≡◌, refl, sym, arith, Bool, true, false,
}
use micropb.Prelude.{
  List, [], ◌∷◌, length, Option, none, some, if◌then◌else◌, ◌==◌, ltb, leb, Bool-cases, inl, inr,
}
use micropb.Prelude.{le→ltb_false, ◌&&◌}
use micropb.Monad.{Result, ok, err, out_of_fuel, M, ◌>>=◌, ◌>>◌, go_on}
use micropb.Wire.{Presence, field_num, wire_type}
use micropb.Reader.Source.{Source, source_reader}
use micropb.Container.{PbVec, PbString, IsVec, Spare}
use micropb.Encode.Output.{holds}
use micropb.Utf8.{is_utf8}
use micropb.Decode.{PbDecoder, DecodeError, lift, utf8, bytes_read, check_len}
use micropb.Decode.Counts.{
  Counted, Counts, fewer, Counted-after, if-Counts, pure-Counts, fail-Counts, any,
}
use micropb.Decode.Counts.Methods.{IsDone, decode_varint32-Counts, decode_tag-Counts}
use micropb.Decode.Counts.Methods.{read_into_buf-Counts, skip_wire_value-Counts}
use micropb.Decode.Into

module _ {E : Type 0} where
  pub record CountsInto {S A : Type 0} (n : ℕ) (m : Into.Into (source_reader {E = E}) S A)
      : Type 0 where
    pub counts :
        (d : PbDecoder (Source E)) (s : S) → Counted n d.idx (m (d, s)).0 (m (d, s)).1.0.idx

  pub done-Counted :
      {A : Type 0} (r : Result (DecodeError E) A) (idx : ℕ) → IsDone r → Counted 0 idx r idx
  done-Counted (ok x) idx h = omega arith
  done-Counted (err x) idx h = tt
  done-Counted out_of_fuel idx h = h

  module _ {S : Type 0} where
    pub CountsInto-fewer :
        {A : Type 0} {m : Into.Into source_reader S A} (n k : ℕ)
        → k ≤ n
        → CountsInto n m
        → CountsInto k m
    CountsInto-fewer {m} n k h c = record {
      counts = λ d s. fewer n k d.idx (m (d, s)).0 (m (d, s)).1.0.idx h (c.counts d s);
    }

    pub on_decoder-Counts :
        {A : Type 0} {m : M (PbDecoder (Source E)) (DecodeError E) A} (n : ℕ)
        → Counts n m
        → CountsInto {S = S} n (Into.on_decoder source_reader m)
    on_decoder-Counts n c = record { counts = λ d s. c.counts d }

    pub on_dest-Counts :
        {A : Type 0} (f : S → Result (DecodeError E) A × S)
        → ((s : S) → IsDone (f s).0)
        → CountsInto 0 (Into.on_dest source_reader f)
    on_dest-Counts f h = record { counts = λ d s. done-Counted (f s).0 d.idx (h s) }

    pub lift-Counts :
        {A : Type 0} (r : Result (DecodeError E) A) → IsDone r → CountsInto {S = S} 0 (lift r)
    lift-Counts r h = record { counts = λ d s. done-Counted r d.idx h }

    pub if-CountsInto :
        {A : Type 0} {m k : Into.Into source_reader S A} (n : ℕ) (b : Bool)
        → CountsInto n m
        → CountsInto n k
        → CountsInto n (if b then m else k)
    if-CountsInto n true c d = c
    if-CountsInto n false c d = d

    pub go_on-Counted :
        {A B : Type 0} (n k idx : ℕ) (f : A → Into.Into source_reader S B)
        → ((x : A) → CountsInto k (f x))
        → (r : Result (DecodeError E) A) (d : PbDecoder (Source E)) (s : S) → Counted n idx r d.idx
        → Counted (n + k) idx (go_on f r (d, s)).0 (go_on f r (d, s)).1.0.idx
    go_on-Counted n k idx f h (ok x) d s c =
        Counted-after n k idx d.idx (f x (d, s)).0 (f x (d, s)).1.0.idx c ((h x).counts d s)
    go_on-Counted n k idx f h (err x) d s c = tt
    go_on-Counted n k idx f h out_of_fuel d s c = absurd c

    pub >>=-CountsInto :
        {A B : Type 0} {m : Into.Into source_reader S A} {f : A → Into.Into source_reader S B}
        (n k : ℕ)
        → CountsInto n m
        → ((x : A) → CountsInto k (f x))
        → CountsInto (n + k) (m >>= f)
    >>=-CountsInto {m} {f} n k c h = record {
      counts = λ d s.
          go_on-Counted n k d.idx f h (m (d, s)).0 (m (d, s)).1.0 (m (d, s)).1.1 (c.counts d s);
    }

    -- Steps of which no bytes have to be counted.
    pub chain :
        {A B : Type 0} {m : Into.Into source_reader S A} {f : A → Into.Into source_reader S B}
        (n : ℕ)
        → CountsInto n m
        → ((x : A) → CountsInto 0 (f x))
        → CountsInto n (m >>= f)
    chain {m} {f} n c h =
        CountsInto-fewer {m = m >>= f} (n + 0) n (omega arith) (>>=-CountsInto n 0 c h)

    update-Counts : (f : S → S) → CountsInto 0 (Into.update source_reader f)
    update-Counts f = on_dest-Counts _ (λ s. tt)

    read_into_spare-Counts :
        (spare : Spare S ℕ) (len : ℕ) → CountsInto 0 (Into.read_into_spare source_reader spare len)
    unfolding Into.read_into_spare
    read_into_spare-Counts spare len = record {
      counts = λ d s. (read_into_buf-Counts (spare s).0 len).counts d;
    }

    pub decode_string-Counts :
        (string : PbString S) (presence : Presence)
        → CountsInto 0 (Into.decode_string source_reader string presence)
    unfolding Into.decode_string
    decode_string-Counts string presence = CountsInto-fewer 1 0 (omega arith) (
        chain 1 (on_decoder-Counts 1 decode_varint32-Counts) λ len.
          if-CountsInto 0 ((len == 0) && Into.is_implicit presence) (lift-Counts (ok tt) tt) (
            chain 0
              (chain 0
                (chain 0 (update-Counts string.container.pb_clear)
                  (λ u. update-Counts (λ s. string.container.pb_reserve s len)))
                (λ u.
                  chain 0 (read_into_spare-Counts string.pb_spare_cap len)
                    (λ written. lift-Counts _ (text_done (is_utf8 written)))))
              (λ u. update-Counts (λ s. string.container.pb_set_len s len))))
      where
        text_done :
            (b : Bool) → IsDone {E = DecodeError E} {A = Unit {0}} (if b then ok tt else err utf8)
        text_done true = tt
        text_done false = tt

    pub decode_bytes-Counts :
        (bytes : PbVec S ℕ) (presence : Presence)
        → CountsInto 0 (Into.decode_bytes source_reader bytes presence)
    unfolding Into.decode_bytes
    decode_bytes-Counts bytes presence = CountsInto-fewer 1 0 (omega arith) (
        chain 1 (on_decoder-Counts 1 decode_varint32-Counts) λ len.
          if-CountsInto 0 ((len == 0) && Into.is_implicit presence) (lift-Counts (ok tt) tt) (
            chain 0
              (chain 0
                (chain 0 (update-Counts bytes.container.pb_clear)
                  (λ u. update-Counts (λ s. bytes.container.pb_reserve s len)))
                (λ u.
                  chain 0 (read_into_spare-Counts bytes.pb_spare_cap len)
                    (λ written. lift-Counts (ok tt) tt)))
              (λ u. update-Counts (λ s. bytes.container.pb_set_len s len))))
