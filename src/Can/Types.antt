-- ===== src/Can/Types.antt =====
-- pkg/can_smbus/src/core/io/cs_type.h and cs_type.c: identifiers, registers and frames. An
-- identifier is a `uint16_t`, a register a `uint8_t`.
pub mod Registers
mod Tests
use Prim.Native.String.{String}
use rmm_2023_pre.Common.{ℕ, ◌*◌, Bool, List, bit_and, bit_or, ◌==◌, if◌then◌else◌}

-- `struct CSType_csFrame_t`; `data` is a list of four bytes.
pub record Frame : Type 0 where
  pub id : ℕ
  pub reg : ℕ
  pub len : ℕ
  pub bytes : List ℕ

-- `CSType_regChannel_t`.
pub data RegChannel : Type 0 where
  system user : RegChannel

-- `CSTYPE_BROADCAST_ADDR`.
abbrev pub broadcast_addr : ℕ
broadcast_addr = 0x001

abbrev pub get_number_id : ℕ → ℕ
get_number_id my_id = bit_and my_id 0x3ff

abbrev pub is_host_id : ℕ → Bool
is_host_id my_id = bit_and my_id 0x400 == 0

abbrev pub is_driv_id : ℕ → Bool
is_driv_id my_id = bit_and my_id 0x400 == 0x400

abbrev pub get_host_id : ℕ → ℕ
get_host_id my_id = bit_and my_id 0x3ff

abbrev pub get_driv_id : ℕ → ℕ
get_driv_id my_id = bit_or (bit_and my_id 0x3ff) 0x400

-- `CSType_brcReg_t`.
pub data BrcReg : Type 0 where
  safety unsafe arp chip_init : BrcReg

abbrev pub brc_code : BrcReg → ℕ
brc_code safety = 0x00
brc_code unsafe = 0x01
brc_code arp = 0x10
brc_code chip_init = 0x20

-- `CSType_driverType_t`.
pub data DriverType : Type 0 where
  encoder abs_encoder gyro switch lp_motor hp_motor servo : DriverType

abbrev pub driver_code : DriverType → ℕ
driver_code encoder = 0x02
driver_code abs_encoder = 0x03
driver_code gyro = 0x04
driver_code switch = 0x05
driver_code lp_motor = 0x11
driver_code hp_motor = 0x12
driver_code servo = 0x13

-- `CSType_requestMode_t`.
pub data RequestMode : Type 0 where
  request interval : RequestMode

abbrev pub mode_code : RequestMode → ℕ
mode_code request = 0
mode_code interval = 1

-- `CSType_sysDrivReg_t`.
pub data SysDrivReg : Type 0 where
  start_order mmaster0 mmaster1 mmaster2 mmaster3 : SysDrivReg

abbrev pub sys_code : SysDrivReg → ℕ
sys_code start_order = 0x00
sys_code mmaster0 = 0x08
sys_code mmaster1 = 0x09
sys_code mmaster2 = 0x0a
sys_code mmaster3 = 0x0b

abbrev pub get_number_reg : ℕ → ℕ
get_number_reg reg = bit_and reg 0x0f

abbrev pub is_sys_reg : ℕ → Bool
is_sys_reg reg = bit_and reg 0x10 == 0x00

abbrev pub is_user_reg : ℕ → Bool
is_user_reg reg = bit_and reg 0x10 == 0x10

abbrev pub is_write_reg : ℕ → Bool
is_write_reg reg = bit_and reg 0xe0 == 0x00

abbrev pub is_request_reg : ℕ → Bool
is_request_reg reg = bit_and reg 0xe0 == 0x20

abbrev pub is_writeack_reg : ℕ → Bool
is_writeack_reg reg = bit_and reg 0xe0 == 0x40

abbrev pub is_requestack_reg : ℕ → Bool
is_requestack_reg reg = bit_and reg 0xe0 == 0x60

abbrev pub is_ack_reg : ℕ → Bool
is_ack_reg reg = bit_and reg 0xf0 == 0xe0

abbrev pub is_brc_reg : ℕ → Bool
is_brc_reg reg = bit_and reg 0xf0 == 0xf0

abbrev pub get_sys_reg : ℕ → ℕ
get_sys_reg reg = bit_and reg 0xef

abbrev pub get_user_reg : ℕ → ℕ
get_user_reg reg = bit_or (bit_and reg 0xef) 0x10

abbrev pub get_write_reg : ℕ → ℕ
get_write_reg reg = bit_and reg 0x1f

abbrev pub get_request_reg : ℕ → ℕ
get_request_reg reg = bit_or (bit_and reg 0x1f) 0x20

abbrev pub get_writeack_reg : ℕ → ℕ
get_writeack_reg reg = bit_or (bit_and reg 0x1f) 0x40

abbrev pub get_requestack_reg : ℕ → ℕ
get_requestack_reg reg = bit_or (bit_and reg 0x1f) 0x60

abbrev pub get_ack_reg : ℕ → ℕ
get_ack_reg reg = bit_or (bit_and reg 0x0f) 0xe0

abbrev pub get_brc_reg : ℕ → ℕ
get_brc_reg reg = bit_or (bit_and reg 0x0f) 0xf0

-- `type << 4` stays below 2^16 for each type.
pub create_id : DriverType → ℕ → ℕ
create_id t dial_id = bit_or (driver_code t * 16) (bit_and dial_id 0x0f)

pub driver_convert_name : ℕ → String
driver_convert_name driver_id =
    if driver_id == driver_code abs_encoder
    then "AbsEncoder"
    else if driver_id == driver_code encoder
    then "Encoder"
    else if driver_id == driver_code gyro
    then "Gyro"
    else if driver_id == driver_code hp_motor
    then "HPMotor"
    else if driver_id == driver_code lp_motor
    then "LPMotor"
    else if driver_id == driver_code servo
    then "Servo"
    else if driver_id == driver_code switch
    then "Switch"
    else "Unknown"
