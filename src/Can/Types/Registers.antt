-- ===== src/Can/Types/Registers.antt =====
-- The register space of pkg/can_smbus/src/core/io/cs_type.h, and the identifiers of cs_type.c.
use rmm_2023_pre.Common.{
  ℕ, ◌+◌, ◌*◌, ◌/◌, ◌%◌, ◌<◌, ◌≡◌, refl, Bool, true, not, ◌&&◌, arith, bit_or, ◌==◌, leb,
  if◌then◌else◌,
}
use rmm_2023_pre.Common.Bits.{every_below, every_below_sound, mask4}
use rmm_2023_pre.Can.Types.{
  RegChannel, system, user, DriverType, encoder, abs_encoder, gyro, switch, lp_motor, hp_motor,
  servo, driver_code, create_id, get_number_reg, is_sys_reg, is_user_reg, is_write_reg,
  is_request_reg, is_writeack_reg, is_requestack_reg, is_ack_reg, is_brc_reg, get_sys_reg,
  get_user_reg, get_write_reg, get_request_reg, get_writeack_reg, get_requestack_reg,
}

-- The kinds of register that the predicates tell apart.
pub data Kind : Type 0 where
  write request writeack requestack : Kind

abbrev pub is_kind : Kind → ℕ → Bool
is_kind write = is_write_reg
is_kind request = is_request_reg
is_kind writeack = is_writeack_reg
is_kind requestack = is_requestack_reg

abbrev pub get_kind : Kind → ℕ → ℕ
get_kind write = get_write_reg
get_kind request = get_request_reg
get_kind writeack = get_writeack_reg
get_kind requestack = get_requestack_reg

abbrev pub is_channel : RegChannel → ℕ → Bool
is_channel system = is_sys_reg
is_channel user = is_user_reg

abbrev pub get_channel : RegChannel → ℕ → ℕ
get_channel system = get_sys_reg
get_channel user = get_user_reg

-- The predicates on the register that the macros build for a kind and a channel.
abbrev built_test : Kind → RegChannel → ℕ → Bool
built_test k c reg =
    let r = get_channel c (get_kind k reg) in
    is_kind k r && (is_channel c r && (get_number_reg r == reg % 16 && leb r 255))

built_table : (k : Kind) (c : RegChannel) → every_below 256 (built_test k c) ≡ true
unfolding every_below
built_table write system = refl
built_table write user = refl
built_table request system = refl
built_table request user = refl
built_table writeack system = refl
built_table writeack user = refl
built_table requestack system = refl
built_table requestack user = refl

-- A register of a byte that is built for a kind and a channel is read back as that kind and
-- channel, with the low four bits of its number, and fits a byte.
pub built_register :
    (k : Kind) (c : RegChannel) (reg : ℕ)
    → reg < 256
    → let r = get_channel c (get_kind k reg) in
      (is_kind k r ≡ true) × (is_channel c r ≡ true) × (get_number_reg r ≡ reg % 16) × (r < 256)
built_register k c reg h =
    let all = every_below_sound 256 (built_test k c) reg (built_table k c) h in
    split (is_kind k (get_channel c (get_kind k reg)))
      (is_channel c (get_channel c (get_kind k reg)))
      (get_number_reg (get_channel c (get_kind k reg))) (reg % 16) (get_channel c (get_kind k reg))
      all
  where
    split :
        (a b : Bool) (m n r : ℕ)
        → a && (b && (m == n && leb r 255)) ≡ true
        → (a ≡ true) × (b ≡ true) × (m ≡ n) × (r < 256)
    split a b m n r e = ground arith

abbrev one_if : Bool → ℕ
one_if b = if b then 1 else 0

-- How many of the six kinds of register the predicates find.
abbrev pub kinds : ℕ → ℕ
kinds reg =
    one_if (is_write_reg reg)
    + one_if (is_request_reg reg)
    + one_if (is_writeack_reg reg)
    + one_if (is_requestack_reg reg)
    + one_if (is_ack_reg reg)
    + one_if (is_brc_reg reg)

abbrev kinds_test : ℕ → Bool
kinds_test reg =
    (kinds reg == (if leb 0x80 reg && leb reg 0xdf then 0 else 1))
    && (one_if (is_sys_reg reg) + one_if (is_user_reg reg) == 1)

kinds_table : every_below 256 kinds_test ≡ true
unfolding every_below
kinds_table = refl

-- The six kinds exclude one another and miss the registers from 0x80 to 0xDF only; each register
-- belongs to one of the two channels.
pub kinds_exclusive :
    (reg : ℕ)
    → reg < 256
    → (kinds reg ≡ (if leb 0x80 reg && leb reg 0xdf then 0 else 1))
      × (is_sys_reg reg ≡ not (is_user_reg reg))
kinds_exclusive reg h =
    split (kinds reg) (if leb 0x80 reg && leb reg 0xdf then 0 else 1) (is_sys_reg reg)
      (is_user_reg reg) (every_below_sound 256 kinds_test reg kinds_table h)
  where
    split :
        (m n : ℕ) (a b : Bool)
        → (m == n) && (one_if a + one_if b == 1) ≡ true
        → (m ≡ n) × (a ≡ not b)
    split m n a b e = ground arith

abbrev id_test : DriverType → ℕ → Bool
id_test t d =
    let id = bit_or (driver_code t * 16) d in
    (id / 16 == driver_code t) && ((id % 16 == d) && leb id 0x1ff)

id_table : (t : DriverType) → every_below 16 (id_test t) ≡ true
unfolding every_below
id_table encoder = refl
id_table abs_encoder = refl
id_table gyro = refl
id_table switch = refl
id_table lp_motor = refl
id_table hp_motor = refl
id_table servo = refl

-- The identifier that is made of a type and a dial of 16 bits names the type in the bits from 4 on
-- and the dial in the low four, and is below 0x200.
pub create_id_fields :
    (t : DriverType) (dial : ℕ)
    → dial < 65536
    → (create_id t dial / 16 ≡ driver_code t)
      × (create_id t dial % 16 ≡ dial % 16)
      × (create_id t dial < 0x200)
unfolding create_id
create_id_fields t dial h = rw (mask4 dial h) (
    split (driver_code t) (bit_or (driver_code t * 16) (dial % 16)) (dial % 16)
      (every_below_sound 16 (id_test t) (dial % 16) (id_table t) (omega arith)))
  where
    split :
        (code id d : ℕ)
        → (id / 16 == code) && ((id % 16 == d) && leb id 0x1ff) ≡ true
        → (id / 16 ≡ code) × (id % 16 ≡ d) × (id < 0x200)
    split code id d e = ground arith
