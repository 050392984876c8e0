-- ===== src/Can/Rx.antt =====
-- pkg/can_smbus/src/core/io/cs_rx.c: who is called for a received frame. The state is `g_obj`; the
-- lock that each function holds from its guard to its end is why a function is one step. What the
-- callbacks do belongs to the modules that register them: here a frame yields the calls in order.
pub mod Receive
pub mod Listeners
pub mod Register
pub mod Closing
pub mod Acks
pub mod Undo
pub mod Dispatch
pub mod Bindings
pub mod Quiet
pub mod Devices
mod Tests
use rmm_2023_pre.Common.{
  ℕ, zero, suc, ◌+◌, ◌-◌, ◌/◌, Bool, true, false, not, List, [], ◌∷◌, ◌++◌, Option, none, some,
  ◌&&◌, ◌||◌, ◌==◌, ltb, if◌then◌else◌, length, get_or, bit_and, to_u8,
}
use rmm_2023_pre.Can.Types.{
  Frame, RegChannel, system, user, get_number_id, get_number_reg, is_driv_id, is_write_reg,
  is_sys_reg, is_ack_reg, is_brc_reg, is_writeack_reg, is_requestack_reg,
}
use rmm_2023_pre.Can.Callbacks.{Callback, Call, list_add, list_close, list_call}

abbrev pub get_driver_id : ℕ → ℕ
get_driver_id id = to_u8 (id / 16)

abbrev pub get_device_id : ℕ → ℕ
get_device_id id = to_u8 (bit_and id 0x00f)

-- `CSRX_ARG_CHECKER` lets the call go on. A `RegChannel` is below 2.
abbrev pub arg_checker : ℕ → ℕ → ℕ → Bool
arg_checker gw_id id reg = not (
    not (ltb gw_id 4)
    || ltb (get_driver_id id) 0x01
    || ltb 0x1f (get_driver_id id)
    || ltb 0x0f (get_device_id id)
    || not (ltb reg 16))

-- `struct CSRx_deviceInfo_t`.
pub record DeviceInfo : Type 0 where
  pub regs : RegChannel → ℕ → List Callback
  pub reg_acks : RegChannel → List Callback
  pub req_acks : RegChannel → List Callback

-- `struct CsRx_info_t`. `none` is NULL; the indices are those of the arrays.
pub record Rx : Type 0 where
  pub devs : ℕ → ℕ → ℕ → Option DeviceInfo
  pub brc_callbacks : ℕ → ℕ → List Callback

-- The state that `CSRx_initializer` leaves.
pub initializer : Rx
initializer = record { devs = λ gw drv dev. none; brc_callbacks = λ gw reg. [] }

-- A freshly allocated `struct CSRx_deviceInfo_t`, set to zero.
abbrev pub blank_info : DeviceInfo
blank_info = record { regs = λ c r. []; reg_acks = λ c. []; req_acks = λ c. [] }

-- `(uint8_t)(driver_id - 1)` and the device's number.
abbrev pub driver_index : ℕ → ℕ
driver_index id = to_u8 (get_driver_id id + 256 - 0x01)

abbrev pub device_index : ℕ → ℕ
device_index id = get_device_id id

pub device_info_get : Rx → ℕ → ℕ → Option DeviceInfo
device_info_get rx gw_id id = rx.devs gw_id (driver_index id) (device_index id)

-- An assignment to `g_obj.devs[gw_id][driver_index][device_index]`.
abbrev pub write_dev : Rx → ℕ → ℕ → Option DeviceInfo → Rx
write_dev rx gw_id id info = record rx {
  devs = λ gw drv dev.
      if gw == gw_id && (drv == driver_index id && dev == device_index id)
      then info
      else rx.devs gw drv dev;
}

-- The pointer that is returned is to what the new state holds.
pub device_info_create : Rx → ℕ → ℕ → DeviceInfo × Rx
device_info_create rx gw_id id = elim (rx.devs gw_id (driver_index id) (device_index id)) [
  | none ↦ (blank_info, write_dev rx gw_id id (some blank_info))
  | some info ↦ (info, rx)
]

-- A list of a device: which of its arrays, and where in it.
pub data Slot : Type 0 where
  reg : RegChannel → ℕ → Slot
  reg_ack req_ack : RegChannel → Slot

abbrev pub channel_eq : RegChannel → RegChannel → Bool
channel_eq system system = true
channel_eq user user = true
channel_eq _ _ = false

abbrev pub slot_list : Slot → DeviceInfo → List Callback
slot_list (reg c r) info = info.regs c r
slot_list (reg_ack c) info = info.reg_acks c
slot_list (req_ack c) info = info.req_acks c

abbrev pub set_slot : Slot → List Callback → DeviceInfo → DeviceInfo
set_slot (reg c r) list info = record info {
  regs = λ c' r'. if channel_eq c c' && r == r' then list else info.regs c' r';
}
set_slot (reg_ack c) list info = record info {
  reg_acks = λ c'. if channel_eq c c' then list else info.reg_acks c';
}
set_slot (req_ack c) list info = record info {
  req_acks = λ c'. if channel_eq c c' then list else info.req_acks c';
}

-- The loops of `CSRx_deviceInfoClose`: `n` registers from `reg_i` on, then the two lists of acks.
pub scan_regs : ℕ → ℕ → RegChannel → DeviceInfo → Bool → Bool
scan_regs zero reg_i c info all_unusing = all_unusing
scan_regs (suc n) reg_i c info all_unusing =
    scan_regs n (reg_i + 1) c info
      (if not (length (info.regs c reg_i) == 0) then false else all_unusing)

pub scan_channel : RegChannel → DeviceInfo → Bool → Bool
unfolding scan_regs
scan_channel c info all_unusing =
    let a = scan_regs 16 0 c info all_unusing in
    let b = if ltb 0 (length (info.reg_acks c)) then false else a in
    if ltb 0 (length (info.req_acks c)) then false else b

pub all_unusing : DeviceInfo → Bool
unfolding scan_channel
all_unusing info = scan_channel user info (scan_channel system info true)

-- It is called with a device that is there; on NULL the code would fault.
pub device_info_close : Rx → ℕ → ℕ → Rx
unfolding all_unusing
device_info_close rx gw_id id = elim (rx.devs gw_id (driver_index id) (device_index id)) [
  | none ↦ rx
  | some info ↦ if all_unusing info then write_dev rx gw_id id none else rx
]

-- The part that `CSRx_bindReg`, `CSRx_bindRegAck` and `CSRx_bindReqAck` share.
pub bind_slot : Rx → ℕ → ℕ → Slot → Callback → Rx
unfolding device_info_create
bind_slot rx gw_id id s cb =
    let (info, rx') = device_info_create rx gw_id id in
    write_dev rx' gw_id id (some (set_slot s (list_add (slot_list s info) cb) info))

-- The part that the three functions share that close.
pub close_slot : Rx → ℕ → ℕ → Slot → Callback → Rx
unfolding device_info_get device_info_close
close_slot rx gw_id id s cb = elim (device_info_get rx gw_id id) [
  | none ↦ rx
  | some info ↦
      let (list, is_hit) = list_close (slot_list s info) cb in
      let rx' = write_dev rx gw_id id (some (set_slot s list info)) in
      if is_hit then device_info_close rx' gw_id id else rx'
]

pub bind_reg : Rx → ℕ → ℕ → ℕ → Callback → RegChannel → Rx
unfolding bind_slot
bind_reg rx gw_id id r cb channel =
    if arg_checker gw_id id r then bind_slot rx gw_id id (reg channel r) cb else rx

pub close_reg : Rx → ℕ → ℕ → ℕ → Callback → RegChannel → Rx
unfolding close_slot
close_reg rx gw_id id r cb channel =
    if arg_checker gw_id id r then close_slot rx gw_id id (reg channel r) cb else rx

pub bind_reg_ack : Rx → ℕ → ℕ → Callback → RegChannel → Rx
unfolding bind_slot
bind_reg_ack rx gw_id id cb channel =
    if arg_checker gw_id id 0 then bind_slot rx gw_id id (reg_ack channel) cb else rx

pub close_reg_ack : Rx → ℕ → ℕ → Callback → RegChannel → Rx
unfolding close_slot
close_reg_ack rx gw_id id cb channel =
    if arg_checker gw_id id 0 then close_slot rx gw_id id (reg_ack channel) cb else rx

pub bind_req_ack : Rx → ℕ → ℕ → Callback → RegChannel → Rx
unfolding bind_slot
bind_req_ack rx gw_id id cb channel =
    if arg_checker gw_id id 0 then bind_slot rx gw_id id (req_ack channel) cb else rx

pub close_req_ack : Rx → ℕ → ℕ → Callback → RegChannel → Rx
unfolding close_slot
close_req_ack rx gw_id id cb channel =
    if arg_checker gw_id id 0 then close_slot rx gw_id id (req_ack channel) cb else rx

abbrev pub write_brc : Rx → ℕ → ℕ → List Callback → Rx
write_brc rx gw_id r list = record rx {
  brc_callbacks = λ gw r'. if gw == gw_id && r' == r then list else rx.brc_callbacks gw r';
}

pub bind_brc : Rx → ℕ → ℕ → Callback → Rx
bind_brc rx gw_id r cb =
    if arg_checker gw_id 0x201 r
    then write_brc rx gw_id r (list_add (rx.brc_callbacks gw_id r) cb)
    else rx

pub close_brc : Rx → ℕ → ℕ → Callback → Rx
close_brc rx gw_id r cb =
    if arg_checker gw_id 0x201 r
    then write_brc rx gw_id r (list_close (rx.brc_callbacks gw_id r) cb).0
    else rx
