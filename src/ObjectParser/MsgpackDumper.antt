-- ===== src/ObjectParser/MsgpackDumper.antt =====
-- lib/object_parser/src/msgpack/op_msgpack_dumper.c: the calls of msgpack-c's packer. The packer is a
-- parameter: `pack` is the bytes that a call appends to the `msgpack_sbuffer`. A `float` and a
-- `double` are their bits.
pub mod Numbers
mod Tests
use rmm_2023_pre.Common.{ℕ, ◌-◌, ◌^◌, Bool, List, [], ◌++◌, length, ltb, if◌then◌else◌}
use rmm_2023_pre.Common.Int.{ℤ, pos, negsuc, ltb_ℤ, to_word, of_word}

-- A call of `msgpack_pack_...`.
pub data Call : Type 0 where
  map : ℕ → Call
  array : ℕ → Call
  str : ℕ → Call
  str_body : List ℕ → Call
  bin : ℕ → Call
  bin_body : List ℕ → Call
  int8 : ℤ → Call
  int16 : ℤ → Call
  int32 : ℤ → Call
  int64 : ℤ → Call
  uint8 : ℕ → Call
  uint16 : ℕ → Call
  uint32 : ℕ → Call
  uint64 : ℕ → Call
  float : ℕ → Call
  double : ℕ → Call
  true_value : Call
  false_value : Call
  nil : Call

-- The conversion to a signed type of `w` bits.
abbrev pub cast : ℕ → ℤ → ℤ
cast w value = of_word w (to_word w value)

-- The call for an `int64_t`.
abbrev pub signed_call : ℤ → Call
signed_call value =
    if ltb_ℤ value (pos 0)
    then if ltb_ℤ (negsuc 32767) value
      then if ltb_ℤ (negsuc 127) value then int8 (cast 8 value) else int16 (cast 16 value)
      else if ltb_ℤ (negsuc 2147483647) value
      then int32 (cast 32 value)
      else int64 value
    else if ltb_ℤ value (pos 32767)
    then if ltb_ℤ value (pos 127) then int8 (cast 8 value) else int16 (cast 16 value)
    else if ltb_ℤ value (pos 2147483647)
    then int32 (cast 32 value)
    else int64 value

-- The call for a `uint64_t`: the value is converted to a signed type, and by the call back to an
-- unsigned one.
abbrev pub unsigned_call : ℕ → Call
unsigned_call value =
    if ltb value 32767
    then if ltb value 127
      then uint8 (to_word 8 (cast 8 (pos value)))
      else uint16 (to_word 16 (cast 16 (pos value)))
    else if ltb value 2147483647
    then uint32 (to_word 32 (cast 32 (pos value)))
    else uint64 (to_word 64 (cast 64 (pos value)))

module _ (pack : Call → List ℕ) where
  -- The dumper is the data of its `msgpack_sbuffer`.
  pub create : List ℕ
  create = []

  pub dump_ptr : List ℕ → List ℕ
  dump_ptr sbuf = sbuf

  pub dump_length : List ℕ → ℕ
  dump_length sbuf = length sbuf

  pub dictionary_start : List ℕ → ℕ → List ℕ
  dictionary_start sbuf count = sbuf ++ pack (map count)

  pub dictionary_set_key : List ℕ → List ℕ → List ℕ
  dictionary_set_key sbuf key = (sbuf ++ pack (str (length key))) ++ pack (str_body key)

  pub array_start : List ℕ → ℕ → List ℕ
  array_start sbuf count = sbuf ++ pack (array count)

  pub int_set_signed : List ℕ → ℤ → List ℕ
  int_set_signed sbuf value = sbuf ++ pack (signed_call value)

  pub int_set_unsigned : List ℕ → ℕ → List ℕ
  int_set_unsigned sbuf value = sbuf ++ pack (unsigned_call value)

  pub real_set_float : List ℕ → ℕ → List ℕ
  real_set_float sbuf value = sbuf ++ pack (float value)

  pub real_set_double : List ℕ → ℕ → List ℕ
  real_set_double sbuf value = sbuf ++ pack (double value)

  pub bool_set : List ℕ → Bool → List ℕ
  bool_set sbuf value = sbuf ++ pack (if value then true_value else false_value)

  pub string_set : List ℕ → List ℕ → List ℕ
  string_set sbuf string = (sbuf ++ pack (str (length string))) ++ pack (str_body string)

  pub binary_set : List ℕ → List ℕ → List ℕ
  binary_set sbuf buff = (sbuf ++ pack (bin (length buff))) ++ pack (bin_body buff)

  pub null_set : List ℕ → List ℕ
  null_set sbuf = sbuf ++ pack nil
