-- ===== src/ObjectParser/MsgpackLoader/Integers.antt =====
-- op_msgpack_dumper.c and op_msgpack_loader.c: an integer that is written is read back, if msgpack-c
-- keeps it.
use rmm_2023_pre.Common.{ℕ, ◌^◌, ◌<◌, ◌≡◌, refl, ap, ◌∙◌, arith, some}
use rmm_2023_pre.Common.Int.{ℤ, pos, negsuc, ◌≤ℤ◌}
use rmm_2023_pre.ObjectParser.MsgpackDumper.{Call, signed_call, unsigned_call}
use rmm_2023_pre.ObjectParser.MsgpackDumper.Numbers.{Packs, signed_call-Packs, unsigned_call-Packs}
use rmm_2023_pre.ObjectParser.MsgpackLoader.{
  Object, positive, negative, int_get_signed, int_get_unsigned,
}

-- The object that msgpack-c documents for an integer: the sign is its type.
abbrev pub integer_object : ℤ → Object
integer_object (pos n) = positive n
integer_object (negsuc n) = negative (negsuc n)

int_get_signed-integer_object :
    (x : ℤ) → x ≤ℤ pos 9223372036854775807 → int_get_signed (integer_object x) ≡ some x
unfolding int_get_signed
int_get_signed-integer_object (pos n) h = ap some (ground arith)
int_get_signed-integer_object (negsuc n) h = refl

-- A signed or unsigned integer of 64 bits that the dumper of msgpack writes is read back by the
-- loader, if the object of a number that is packed within its type is that number, as positive or
-- negative.
pub int_get-int_set :
    (unpacked : Call → Object) (x : ℤ) (n : ℕ)
    → ((y : ℤ) (c : Call) → Packs y c → unpacked c ≡ integer_object y)
    → negsuc 9223372036854775807 ≤ℤ x
    → x ≤ℤ pos 9223372036854775807
    → n < 2 ^ 64
    → (int_get_signed (unpacked (signed_call x)) ≡ some x)
      × (int_get_unsigned (unpacked (unsigned_call n)) ≡ some n)
unfolding int_get_unsigned
int_get-int_set unpacked x n keeps low high small = (
  ap int_get_signed (keeps x (signed_call x) (signed_call-Packs x low high))
      ∙ int_get_signed-integer_object x high,
  ap int_get_unsigned (keeps (pos n) (unsigned_call n) (unsigned_call-Packs n small)),
)
