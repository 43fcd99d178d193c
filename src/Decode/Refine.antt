-- ===== src/Decode/Refine.antt =====
-- Each decoding operation over a reader that keeps the promises of `PbRead` agrees with the same
-- operation over the bytes to come.
use micropb.Prelude.{ℕ, zero, suc, bit_and, ◌==◌}
use micropb.Prelude.{Bool, true, false, if◌then◌else◌, not}
use micropb.Prelude.Int.{to_signed}
use micropb.Prelude.{refl}
use micropb.Monad.{M}
use micropb.Wire.{tag, wire_type_varint, wire_type_i64, wire_type_len, wire_type_i32}
use micropb.Reader.{PbRead}
use micropb.Reader.Source.{Source, source_reader}
use micropb.Reader.Laws.{IsReader}
use micropb.Prelude.{ltb}
use micropb.Decode.{PbDecoder, DecodeError, var_int_limit, wrong_len, unzigzag, from_le_bytes}
use micropb.Decode.{deprecation, unknown_wire_type}
use micropb.Decode.{varint32_loop, decode_varint32, varint64_loop, decode_varint64}
use micropb.Decode.{decode_int32, decode_int64, decode_sint32, decode_sint64, decode_bool}
use micropb.Decode.{decode_fixed32, decode_fixed64, decode_fixed64_as_32, decode_sfixed32}
use micropb.Decode.{decode_sfixed64, decode_sfixed64_as_32, decode_float, decode_double, decode_tag}
use micropb.Decode.{bytes_read, check_len, read_into_buf, capacity, skip_varint_loop, skip_varint}
use micropb.Decode.{skip_len, skip_wire_value}
use micropb.Decode.Agree.{Agree, >>=-Agree, pure-Agree, fail-Agree, map_ok-Agree}
use micropb.Decode.Primitives.{get_byte-Agree, skip_bytes-Agree, read_exact-Agree}

module _ {R E : Type 0} {rd : PbRead R E} (h : IsReader rd) where
  if-Agree :
      {A : Type 0} {m n : M (PbDecoder R) (DecodeError E) A}
      {s t : M (PbDecoder (Source E)) (DecodeError E) A} (b : Bool)
      → Agree h m s
      → Agree h n t
      → Agree h (if b then m else n) (if b then s else t)
  if-Agree true a c = a
  if-Agree false a c = c

  varint32_loop-Agree :
      (rounds i varint bitpos : ℕ)
      → Agree h
          (varint32_loop rd rounds i varint bitpos)
          (varint32_loop source_reader rounds i varint bitpos)
  unfolding varint32_loop
  varint32_loop-Agree zero i varint bitpos = fail-Agree h var_int_limit
  varint32_loop-Agree (suc rounds) i varint bitpos =
      >>=-Agree h (get_byte-Agree h)
        λ b. if-Agree (bit_and b 0x80 == 0) (pure-Agree h _) (varint32_loop-Agree rounds _ _ _)

  pub decode_varint32-Agree : Agree h (decode_varint32 rd) (decode_varint32 source_reader)
  unfolding decode_varint32
  decode_varint32-Agree =
      >>=-Agree h (get_byte-Agree h)
        λ b. if-Agree (bit_and b 0x80 == 0) (pure-Agree h b) (varint32_loop-Agree 9 1 _ 7)

  varint64_loop-Agree :
      (rounds varint bitpos : ℕ)
      → Agree h
          (varint64_loop rd rounds varint bitpos)
          (varint64_loop source_reader rounds varint bitpos)
  unfolding varint64_loop
  varint64_loop-Agree zero varint bitpos = fail-Agree h var_int_limit
  varint64_loop-Agree (suc rounds) varint bitpos =
      >>=-Agree h (get_byte-Agree h)
        λ b. if-Agree (bit_and b 0x80 == 0) (pure-Agree h _) (varint64_loop-Agree rounds _ _)

  pub decode_varint64-Agree : Agree h (decode_varint64 rd) (decode_varint64 source_reader)
  unfolding decode_varint64
  decode_varint64-Agree =
      >>=-Agree h (get_byte-Agree h)
        λ b. if-Agree (bit_and b 0x80 == 0) (pure-Agree h b) (varint64_loop-Agree 9 _ 7)

  pub decode_int32-Agree : Agree h (decode_int32 rd) (decode_int32 source_reader)
  unfolding decode_int32
  decode_int32-Agree = map_ok-Agree h (to_signed 32) decode_varint32-Agree

  pub decode_int64-Agree : Agree h (decode_int64 rd) (decode_int64 source_reader)
  unfolding decode_int64
  decode_int64-Agree = map_ok-Agree h (to_signed 64) decode_varint64-Agree

  pub decode_sint32-Agree : Agree h (decode_sint32 rd) (decode_sint32 source_reader)
  unfolding decode_sint32
  decode_sint32-Agree = map_ok-Agree h (unzigzag 32) decode_varint32-Agree

  pub decode_sint64-Agree : Agree h (decode_sint64 rd) (decode_sint64 source_reader)
  unfolding decode_sint64
  decode_sint64-Agree = map_ok-Agree h (unzigzag 64) decode_varint64-Agree

  pub decode_bool-Agree : Agree h (decode_bool rd) (decode_bool source_reader)
  unfolding decode_bool
  decode_bool-Agree = map_ok-Agree h (λ u. not (u == 0)) decode_varint32-Agree

  pub decode_tag-Agree : Agree h (decode_tag rd) (decode_tag source_reader)
  unfolding decode_tag
  decode_tag-Agree = map_ok-Agree h tag decode_varint32-Agree

  pub decode_fixed32-Agree : Agree h (decode_fixed32 rd) (decode_fixed32 source_reader)
  unfolding decode_fixed32
  decode_fixed32-Agree = map_ok-Agree h from_le_bytes (read_exact-Agree h 4)

  pub decode_fixed64-Agree : Agree h (decode_fixed64 rd) (decode_fixed64 source_reader)
  unfolding decode_fixed64
  decode_fixed64-Agree = map_ok-Agree h from_le_bytes (read_exact-Agree h 8)

  pub decode_sfixed32-Agree : Agree h (decode_sfixed32 rd) (decode_sfixed32 source_reader)
  unfolding decode_sfixed32
  decode_sfixed32-Agree = map_ok-Agree h (to_signed 32) decode_fixed32-Agree

  pub decode_sfixed64-Agree : Agree h (decode_sfixed64 rd) (decode_sfixed64 source_reader)
  unfolding decode_sfixed64
  decode_sfixed64-Agree = map_ok-Agree h (to_signed 64) decode_fixed64-Agree

  pub decode_fixed64_as_32-Agree :
      Agree h (decode_fixed64_as_32 rd) (decode_fixed64_as_32 source_reader)
  unfolding decode_fixed64_as_32
  decode_fixed64_as_32-Agree =
      >>=-Agree h decode_fixed32-Agree λ n. >>=-Agree h (skip_bytes-Agree h 4) λ _. pure-Agree h n

  pub decode_sfixed64_as_32-Agree :
      Agree h (decode_sfixed64_as_32 rd) (decode_sfixed64_as_32 source_reader)
  unfolding decode_sfixed64_as_32
  decode_sfixed64_as_32-Agree =
      >>=-Agree h decode_sfixed32-Agree λ n. >>=-Agree h (skip_bytes-Agree h 4) λ _. pure-Agree h n

  pub decode_float-Agree : Agree h (decode_float rd) (decode_float source_reader)
  unfolding decode_float
  decode_float-Agree = decode_fixed32-Agree

  pub decode_double-Agree : Agree h (decode_double rd) (decode_double source_reader)
  unfolding decode_double
  decode_double-Agree = map_ok-Agree h from_le_bytes (read_exact-Agree h 8)

  pub bytes_read-Agree : Agree h (bytes_read rd) (bytes_read source_reader)
  unfolding bytes_read
  bytes_read-Agree = record { same = λ d. refl }

  pub check_len-Agree :
      {T : Type 0} (len before : ℕ) (val : T)
      → Agree h (check_len rd len before val) (check_len source_reader len before val)
  unfolding check_len
  check_len-Agree len before val =
      >>=-Agree h bytes_read-Agree λ after. if-Agree _ (pure-Agree h val) (fail-Agree h wrong_len)

  pub read_into_buf-Agree :
      (size len : ℕ) → Agree h (read_into_buf rd size len) (read_into_buf source_reader size len)
  unfolding read_into_buf
  read_into_buf-Agree size len =
      if-Agree (ltb size len) (fail-Agree h capacity) (read_exact-Agree h len)

  skip_varint_loop-Agree :
      (rounds : ℕ) → Agree h (skip_varint_loop rd rounds) (skip_varint_loop source_reader rounds)
  unfolding skip_varint_loop
  skip_varint_loop-Agree zero = fail-Agree h var_int_limit
  skip_varint_loop-Agree (suc rounds) =
      >>=-Agree h (get_byte-Agree h)
        λ b. if-Agree (bit_and b 0x80 == 0) (pure-Agree h tt) (skip_varint_loop-Agree rounds)

  pub skip_wire_value-Agree :
      (t : ℕ) → Agree h (skip_wire_value rd t) (skip_wire_value source_reader t)
  unfolding skip_wire_value skip_varint skip_len
  skip_wire_value-Agree t = if-Agree (t == wire_type_varint) (skip_varint_loop-Agree 10) (
      if-Agree (t == wire_type_i64) (skip_bytes-Agree h 8) (
        if-Agree (t == wire_type_len) (>>=-Agree h decode_varint32-Agree (skip_bytes-Agree h)) (
          if-Agree (t == 3) (fail-Agree h deprecation) (
            if-Agree (t == 4) (fail-Agree h deprecation) (
              if-Agree (t == wire_type_i32) (skip_bytes-Agree h 4)
                (fail-Agree h unknown_wire_type))))))
