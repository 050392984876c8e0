-- ===== src/ObjectParser/MsgpackLoader/Tests.antt =====
-- Objects as msgpack-c unpacks them, for op_msgpack_loader.c.
use rmm_2023_pre.Common.{ℕ, ◌≡◌, refl, arith, none, some, List, [], ◌∷◌}
use rmm_2023_pre.Common.Int.{ℤ, pos, negsuc}
use rmm_2023_pre.ObjectParser.MsgpackDumper.{
  Call, int8, int16, int32, int64, uint8, uint16, uint32, uint64, signed_call, unsigned_call,
}
use rmm_2023_pre.ObjectParser.MsgpackDumper.Numbers.{
  Packs, as_int8, as_int16, as_int32, as_int64, as_uint8, as_uint16, as_uint32, as_uint64,
}
use rmm_2023_pre.ObjectParser.MsgpackLoader.{
  Object, nil, str, bin, int_get_signed, int_get_unsigned, string_get, binary_get_raw,
}
use rmm_2023_pre.ObjectParser.MsgpackLoader.Integers.{integer_object, int_get-int_set}

-- The object of a number that is packed, and nil for what is no number.
abbrev unpacked : Call → Object
unpacked (int8 x) = integer_object x
unpacked (int16 x) = integer_object x
unpacked (int32 x) = integer_object x
unpacked (int64 x) = integer_object x
unpacked (uint8 n) = integer_object (pos n)
unpacked (uint16 n) = integer_object (pos n)
unpacked (uint32 n) = integer_object (pos n)
unpacked (uint64 n) = integer_object (pos n)
unpacked call = nil

unpacked-Packs : (y : ℤ) (c : Call) → Packs y c → unpacked c ≡ integer_object y
unpacked-Packs y c (as_int8 x h j) = refl
unpacked-Packs y c (as_int16 x h j) = refl
unpacked-Packs y c (as_int32 x h j) = refl
unpacked-Packs y c (as_int64 x h j) = refl
unpacked-Packs y c (as_uint8 n h) = refl
unpacked-Packs y c (as_uint16 n h) = refl
unpacked-Packs y c (as_uint32 n h) = refl
unpacked-Packs y c (as_uint64 n h) = refl

int_get-int_set_example :
    (int_get_signed (unpacked (signed_call (negsuc 128))) ≡ some (negsuc 128))
    × (int_get_unsigned (unpacked (unsigned_call 0xffffffffffffffff)) ≡ some 0xffffffffffffffff)
int_get-int_set_example =
    int_get-int_set unpacked (negsuc 128) 0xffffffffffffffff unpacked-Packs (omega arith)
      (omega arith) (omega arith)

abbrev word : List ℕ
word = b'm' ∷ b'o' ∷ b't' ∷ b'o' ∷ b'r' ∷ []

string_get_run : string_get (str 5 word) 4 ≡ some (some (b'm' ∷ b'o' ∷ b't' ∷ 0 ∷ [], 3))
unfolding string_get
string_get_run = refl

-- A binary is refused.
binary_get_raw_run : binary_get_raw (bin 5 word) ≡ none
unfolding binary_get_raw
binary_get_raw_run = refl
