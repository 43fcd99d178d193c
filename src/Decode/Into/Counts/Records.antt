-- ===== src/Decode/Into/Counts/Records.antt =====
-- The loops over records end, whatever bytes come.
use micropb.Prelude.{ℕ, zero, suc, ◌+◌, ◌-◌, ◌≤◌, ◌<◌, ◌≡◌, arith, Bool, true, false, ltb}
use micropb.Prelude.{le→ltb_false, Bool-cases, inl, inr, Option, none, ◌==◌}
use micropb.Monad.{Result, ok, err, out_of_fuel, M, go_on}
use micropb.Wire.{field_num, wire_type}
use micropb.Reader.Source.{Source, source_reader}
use micropb.Container.{PbVec}
use micropb.Decode.{PbDecoder, DecodeError, bytes_read, check_len}
use micropb.Decode.Counts.{Counted, Counts, fewer, Counted-after}
use micropb.Decode.Counts.Methods.{IsDone, decode_varint32-Counts, decode_tag-Counts}
use micropb.Decode.Counts.Methods.{skip_wire_value-Counts}
use micropb.Decode.Into
use micropb.Decode.Into.Counts.{CountsInto, on_decoder-Counts, on_dest-Counts}
use micropb.Decode.Into.Counts.{if-CountsInto, chain, go_on-Counted}

module _ {E : Type 0} where
  check_len-Counts :
      {T : Type 0} (len before : ℕ) (val : T)
      → Counts 0 (check_len (source_reader {E = E}) len before val)
  unfolding check_len bytes_read
  check_len-Counts len before val = record {
    counts = λ d. elim (Bool-cases ((d.idx - before) == len)) [
      | inl same ↦ rw same (omega arith)
      | inr other ↦ rw other tt
    ];
  }

module _ {E S : Type 0} where
  rounds-Counted :
      (k : Into.Into (source_reader {E = E}) S (Unit {0})) (idx : ℕ)
      (r : Result (DecodeError E) (Unit {0})) (d : PbDecoder (Source E)) (s : S)
      → Counted 1 idx r d.idx
      → (idx < d.idx → Counted 0 d.idx (k (d, s)).0 (k (d, s)).1.0.idx)
      → Counted 0 idx (go_on (λ u. k) r (d, s)).0 (go_on (λ u. k) r (d, s)).1.0.idx
  rounds-Counted k idx (ok x) d s c h =
      fewer 1 0 idx (k (d, s)).0 (k (d, s)).1.0.idx (omega arith)
        (Counted-after 1 0 idx d.idx (k (d, s)).0 (k (d, s)).1.0.idx c (h (omega (arith, c))))
  rounds-Counted k idx (err x) d s c h = tt
  rounds-Counted k idx out_of_fuel d s c h = absurd c

  pub read_while-Counted :
      (round : Into.Into (source_reader {E = E}) S (Unit {0}))
      → CountsInto 1 round
      → (fuel len before : ℕ) (d : PbDecoder (Source E)) (s : S) → before + len ≤ d.idx + fuel
      → Counted 0 d.idx
          (Into.read_while source_reader round fuel len before (d, s)).0
          (Into.read_while source_reader round fuel len before (d, s)).1.0.idx
  unfolding Into.read_while bytes_read
  read_while-Counted round c zero len before d s h =
      let stop : ltb (d.idx - before) len ≡ false = le→ltb_false _ _ (omega (arith, h)) in
      rw stop (omega arith)
  read_while-Counted round c (suc fuel) len before d s h =
      elim (Bool-cases (ltb (d.idx - before) len)) [
        | inl more ↦ rw more (
            rounds-Counted (Into.read_while source_reader round fuel len before) d.idx
              (round (d, s)).0 (round (d, s)).1.0 (round (d, s)).1.1 (c.counts d s)
              (λ further.
                read_while-Counted round c fuel len before (round (d, s)).1.0 (round (d, s)).1.1
                  (omega (arith, h, further))))
        | inr stop ↦ rw stop (omega arith)
      ]

  -- The callback starts at the count that it is told.
  pub record CountsFrom {T : Type 0} (f : ℕ → ℕ → Into.Into (source_reader {E = E}) S T)
      : Type 0 where
    pub counts :
        (len : ℕ) (d : PbDecoder (Source E)) (s : S)
        → Counted 0 d.idx (f len d.idx (d, s)).0 (f len d.idx (d, s)).1.0.idx

  pub decode_len_record-Counts :
      {T : Type 0} (f : ℕ → ℕ → Into.Into (source_reader {E = E}) S T)
      → CountsFrom f
      → CountsInto 1 (Into.decode_len_record source_reader f)
  unfolding Into.decode_len_record bytes_read
  decode_len_record-Counts f c = chain 1 (on_decoder-Counts 1 decode_varint32-Counts) λ len.
      record {
        counts = λ d s.
            go_on-Counted 0 0 d.idx
              (λ val. Into.on_decoder source_reader (check_len source_reader len d.idx val))
              (λ val. on_decoder-Counts 0 (check_len-Counts len d.idx val)) (f len d.idx (d, s)).0
              (f len d.idx (d, s)).1.0 (f len d.idx (d, s)).1.1 (c.counts len d s);
      }

  -- A loop over the whole record.
  pub loop-CountsFrom :
      (round : Into.Into (source_reader {E = E}) S (Unit {0}))
      → CountsInto 1 round
      → CountsFrom (λ len before. Into.read_while source_reader round len len before)
  loop-CountsFrom round c = record {
    counts = λ len d s. read_while-Counted round c len len d.idx d s (omega arith);
  }

-- A push succeeds or fails.
pub record Pushes {S T : Type 0} (vec : PbVec S T) : Type 0 where
  pub push : (s : S) (x : T) → IsDone (vec.pb_push s x).0

pub pushed-IsDone :
    (E : Type 0) (ignore : Bool) (r : Result (Unit {0}) (Unit {0}))
    → IsDone r
    → IsDone (Into.pushed {E = E} ignore r)
pushed-IsDone E ignore (ok x) h = tt
pushed-IsDone E true (err x) h = tt
pushed-IsDone E false (err x) h = tt
pushed-IsDone E ignore out_of_fuel h = h

module _ {E S T : Type 0} (vec : PbVec S T) (pushes : Pushes vec)
    {decoder : M (PbDecoder (Source E)) (DecodeError E) T} (c : Counts 1 decoder) where
  packed_round-Counts :
      (ignore : Bool) → CountsInto 1 (Into.packed_round source_reader vec decoder ignore)
  unfolding Into.packed_round
  packed_round-Counts ignore = chain 1 (on_decoder-Counts 1 c) λ val.
      on_dest-Counts (λ s. (Into.pushed ignore (vec.pb_push s val).0, (vec.pb_push s val).1))
        (λ s. pushed-IsDone E ignore (vec.pb_push s val).0 (pushes.push s val))

  pub decode_packed-Counts : CountsInto 1 (Into.decode_packed source_reader vec decoder)
  unfolding Into.decode_packed
  decode_packed-Counts = record {
    counts = λ d s.
        (decode_len_record-Counts _
            (loop-CountsFrom _ (packed_round-Counts d.ignore_repeated_cap_err))).counts
          d s;
  }

module _ {E K V : Type 0} (kd : K) (vd : V) {ku : Into.Into (source_reader {E = E}) K (Unit {0})}
    {vu : Into.Into (source_reader {E = E}) V (Unit {0})} (k : CountsInto 0 ku)
    (v : CountsInto 0 vu) where
  on_key-Counts : CountsInto {S = Option K × Option V} 0 (Into.on_key source_reader kd ku)
  on_key-Counts = record { counts = λ d s. k.counts d (Into.get_or kd s.0) }

  on_val-Counts : CountsInto {S = Option K × Option V} 0 (Into.on_val source_reader vd vu)
  on_val-Counts = record { counts = λ d s. v.counts d (Into.get_or vd s.1) }

  map_round-Counts : CountsInto 1 (Into.map_round source_reader kd vd ku vu)
  unfolding Into.map_round
  map_round-Counts = chain 1 (on_decoder-Counts 1 decode_tag-Counts) λ t.
      if-CountsInto 0 (field_num t == 1) on_key-Counts (
        if-CountsInto 0 (field_num t == 2) on_val-Counts
          (on_decoder-Counts 0 (skip_wire_value-Counts (wire_type t))))

  pub decode_map_elem-Counts : Counts 1 (Into.decode_map_elem source_reader kd vd ku vu)
  unfolding Into.decode_map_elem
  decode_map_elem-Counts = record {
    counts = λ d.
        (chain 1 (decode_len_record-Counts _ (loop-CountsFrom _ map_round-Counts))
            (λ u. record { counts = λ d' s. omega arith })).counts
          d (none, none);
  }
