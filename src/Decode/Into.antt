-- ===== src/Decode/Into.antt =====
-- The methods of `PbDecoder` that write to a destination of the caller: `&mut S` is a second part of
-- the state.
pub mod Agree
pub mod Expect
pub mod Loop
pub mod Storage
pub mod Texts
pub mod Packed
pub mod Ends
pub mod Counts
use micropb.Prelude.{ℕ, zero, suc, ◌-◌, ◌%◌, ◌^◌, Bool, true, false, not, ◌&&◌, List, ◌==◌, ltb}
use micropb.Prelude.{if◌then◌else◌, Option, none, some}
use micropb.Monad.{Result, ok, err, out_of_fuel, M, ◌>>=◌, ◌>>◌, pure, fail}
use micropb.Wire.{Tag, wire_type, field_num, Presence, implicit, explicit}
use micropb.Reader.{PbRead}
use micropb.Container.{PbContainer, PbVec, PbString, Spare}
use micropb.Utf8.{is_utf8}
use micropb.Decode.{PbDecoder, DecodeError, capacity, utf8, lift, Decoding, read_into_buf}
use micropb.Decode.{decode_varint32, decode_tag, bytes_read, check_len, skip_wire_value}

abbrev pub is_implicit : Presence → Bool
is_implicit implicit = true
is_implicit explicit = false

abbrev pub stored : {S E : Type 0} → (List ℕ → S) → S → Result E (List ℕ) → S
stored write s (ok bytes) = write bytes
stored write s (err e) = s
stored write s out_of_fuel = s

-- `if let (Err(_), false) = (pushed, ignore_repeated_cap_err)`.
abbrev pub pushed :
    {E : Type 0} → Bool → Result (Unit {0}) (Unit {0}) → Result (DecodeError E) (Unit {0})
pushed ignore (ok x) = ok tt
pushed ignore (err x) = if ignore then ok tt else err capacity
pushed ignore out_of_fuel = out_of_fuel

-- `Option::get_or_insert_with`.
abbrev pub get_or : {A : Type 0} → A → Option A → A
get_or default none = default
get_or default (some x) = x

abbrev pub both : {K V : Type 0} → Option K × Option V → Option (K × V)
both (none, v) = none
both (some k, none) = none
both (some k, some v) = some (k, v)

module _ {R E : Type 0} (rd : PbRead R E) where
  abbrev pub Into : Type 0 → Type 0 → Type 0
  Into S A = M (PbDecoder R × S) (DecodeError E) A

  abbrev pub on_decoder : {S A : Type 0} → Decoding rd A → Into S A
  on_decoder m p = ((m p.0).0, ((m p.0).1, p.1))

  abbrev pub on_dest : {S A : Type 0} → (S → Result (DecodeError E) A × S) → Into S A
  on_dest f p = ((f p.1).0, (p.0, (f p.1).1))

  abbrev pub update : {S : Type 0} → (S → S) → Into S (Unit {0})
  update f = on_dest (λ s. (ok tt, f s))

  -- The slots filled by a failed read stay behind the container's length, where nothing sees them.
  unfoldable pub read_into_spare : {S : Type 0} → Spare S ℕ → ℕ → Into S (List ℕ)
  read_into_spare spare len p =
      let out = read_into_buf rd (spare p.1).0 len p.0 in
      (out.0, (out.1, stored (spare p.1).1 p.1 out.0))

  unfoldable pub decode_string : {S : Type 0} → PbString S → Presence → Into S (Unit {0})
  decode_string string presence = on_decoder (decode_varint32 rd) >>= λ len.
      let c = string.container in
      let replace : Into _ (Unit {0}) =
        update c.pb_clear
        >> update (λ s. c.pb_reserve s len)
        >> (read_into_spare string.pb_spare_cap len >>= λ written.
            lift (if is_utf8 written then ok tt else err utf8))
        >> update (λ s. c.pb_set_len s len) in
      if (len == 0) && is_implicit presence then pure tt else replace

  unfoldable pub decode_bytes : {S : Type 0} → PbVec S ℕ → Presence → Into S (Unit {0})
  decode_bytes bytes presence = on_decoder (decode_varint32 rd) >>= λ len.
      let c = bytes.container in
      let replace : Into _ (Unit {0}) =
        update c.pb_clear
        >> update (λ s. c.pb_reserve s len)
        >> (read_into_spare bytes.pb_spare_cap len >>= λ written. pure tt)
        >> update (λ s. c.pb_set_len s len) in
      if (len == 0) && is_implicit presence then pure tt else replace

  unfoldable pub decode_len_record : {S T : Type 0} → (ℕ → ℕ → Into S T) → Into S T
  decode_len_record decoder = on_decoder (decode_varint32 rd) >>= λ len.
      on_decoder (bytes_read rd) >>= λ before.
      decoder len before >>= λ val. on_decoder (check_len rd len before val)

  -- A loop `while this.bytes_read() - before < len`. When each round reads a byte or more, `len`
  -- rounds are enough.
  unfoldable pub read_while : {S : Type 0} → Into S (Unit {0}) → ℕ → ℕ → ℕ → Into S (Unit {0})
  read_while round zero len before = on_decoder (bytes_read rd) >>= λ now.
      lift (if ltb (now - before) len then out_of_fuel else ok tt)
  read_while round (suc fuel) len before =
      let more = round >> read_while round fuel len before in
      on_decoder (bytes_read rd) >>= λ now. if ltb (now - before) len then more else pure tt

  unfoldable pub packed_round :
      {S T : Type 0} → PbVec S T → Decoding rd T → Bool → Into S (Unit {0})
  packed_round vec decoder ignore = on_decoder decoder >>= λ val.
      on_dest (λ s. (pushed ignore (vec.pb_push s val).0, (vec.pb_push s val).1))

  unfoldable pub decode_packed : {S T : Type 0} → PbVec S T → Decoding rd T → Into S (Unit {0})
  decode_packed vec decoder p =
      decode_len_record
        (λ len before.
          read_while (packed_round vec decoder p.0.ignore_repeated_cap_err) len len before)
        p

  abbrev pub on_key : {K V : Type 0} → K → Into K (Unit {0}) → Into (Option K × Option V) (Unit {0})
  on_key default key_update p =
      let out = key_update (p.0, get_or default p.1.0) in (out.0, (out.1.0, (some out.1.1, p.1.1)))

  abbrev pub on_val : {K V : Type 0} → V → Into V (Unit {0}) → Into (Option K × Option V) (Unit {0})
  on_val default val_update p =
      let out = val_update (p.0, get_or default p.1.1) in (out.0, (out.1.0, (p.1.0, some out.1.1)))

  module _ {K V : Type 0} (key_default : K) (val_default : V) (key_update : Into K (Unit {0}))
      (val_update : Into V (Unit {0})) where
    unfoldable pub map_round : Into (Option K × Option V) (Unit {0})
    map_round = on_decoder (decode_tag rd) >>= λ tag.
        if field_num tag == 1
        then on_key key_default key_update
        else if field_num tag == 2
        then on_val val_default val_update
        else on_decoder (skip_wire_value rd (wire_type tag))

    -- What is left in `key` and `val` behind the record.
    abbrev pub map_pair : Into (Option K × Option V) (Option (K × V))
    map_pair p = (ok (both p.1), p)

    abbrev pub map_record : Into (Option K × Option V) (Unit {0})
    map_record = decode_len_record (λ len before. read_while map_round len len before)

    unfoldable pub decode_map_elem : Decoding rd (Option (K × V))
    decode_map_elem d =
        let out = (map_record >>= λ u. map_pair) (d, (none, none)) in (out.0, out.1.0)
