-- ===== src/ObjectParser/MsgpackDumper/Tests.antt =====
-- Numbers at the ends of the types, for op_msgpack_dumper.c.
use rmm_2023_pre.Common.{◌≡◌, refl}
use rmm_2023_pre.Common.Int.{negsuc}
use rmm_2023_pre.ObjectParser.MsgpackDumper.{int16, uint16, signed_call, unsigned_call}

signed_call_run : signed_call (negsuc 127) ≡ int16 (negsuc 127)
signed_call_run = refl

unsigned_call_run : unsigned_call 255 ≡ uint16 255
unsigned_call_run = refl
