-- ===== src/Can/System.antt =====
-- pkg/can_smbus/src/core/cs_system.c, cs_send.c and cs_manager.c: the safety of the robot, and the
-- objects that send.
pub mod Broadcasts
mod Tests
use rmm_2023_pre.Common.{
  ℕ, zero, suc, ◌+◌, ◌/◌, ◌%◌, ◌^◌, Bool, true, false, List, [], ◌∷◌, Option, none, some, ◌==◌,
  if◌then◌else◌, drop,
}
use rmm_2023_pre.Can.Types.{
  RegChannel, system, user, BrcReg, safety, unsafe, chip_init, brc_code, SysDrivReg, start_order,
  mmaster0, mmaster1, mmaster2, mmaster3, sys_code,
}
use rmm_2023_pre.Can.Callbacks.{Callback}
use rmm_2023_pre.Can.Rx.{Rx}
use rmm_2023_pre.Can.Tx.{Tx, normal, high, send_reg, send_brc}
use rmm_2023_pre.Can.Data.{Data, buff1, buff3, type_code, get_size}
use rmm_2023_pre.Can.Acks.{SendAck, Wait}
use rmm_2023_pre.Can.Acks

-- `struct CSSend_info_t`.
pub record Send : Type 0 where
  pub gw_id : ℕ
  pub id : ℕ
  pub reg : ℕ
  pub channel : RegChannel

pub send_create : ℕ → ℕ → ℕ → RegChannel → Send
send_create gw_id id reg channel = record { gw_id = gw_id; id = id; reg = reg; channel = channel }

pub send_data : Tx → Send → Data → Tx
send_data tx obj d = send_reg tx obj.gw_id obj.id obj.reg (get_size d) d.bytes normal obj.channel

-- `CSSystem_safeMode` and `CSSystem_unsafeMode`: the two gateways that are in use.
pub safe_mode : Tx → Tx
safe_mode tx =
    let buff = 0 ∷ 0 ∷ 0 ∷ 0 ∷ [] in
    send_brc (send_brc tx 0 (brc_code safety) 0 buff high) 1 (brc_code safety) 0 buff high

pub unsafe_mode : Tx → Tx
unsafe_mode tx =
    let buff = 0x55 ∷ 0x4e ∷ 0x53 ∷ 0x41 ∷ [] in
    send_brc (send_brc tx 0 (brc_code unsafe) 4 buff high) 1 (brc_code unsafe) 4 buff high

-- `struct CSSystem_t` is the flag `is_enable_safety`.
pub safety_on : Bool → Tx → Bool × Tx
unfolding unsafe_mode
safety_on is_enable tx = (true, unsafe_mode tx)

pub safety_off : Bool → Tx → Bool × Tx
unfolding safe_mode
safety_off is_enable tx = (false, safe_mode tx)

-- One turn of `CSSystem_safetyThread`.
pub safety_turn : Bool → Tx → Tx
unfolding safe_mode unsafe_mode
safety_turn is_enable tx = if is_enable then unsafe_mode tx else safe_mode tx

pub all_reboot : Tx → Tx
all_reboot tx =
    let buff = 0x43 ∷ 0x48 ∷ 0x49 ∷ 0x50 ∷ [] in
    let reboot = λ (gw_id : ℕ) (t : Tx). send_brc t gw_id (brc_code chip_init) 4 buff high in
    reboot 3 (reboot 2 (reboot 1 (reboot 0 tx)))

-- An object that sends once with an acknowledgement: it is made, used and closed.
pub send_once : Rx → Tx → ℕ → ℕ → ℕ → Data → Callback → (ℕ → Wait) → Rx × Tx × Bool
send_once rx tx gw_id id reg d cb waits =
    let (obj, bound) = Acks.create rx gw_id id reg system cb in
    let sent = Acks.send obj tx d waits in (Acks.close bound sent.0 cb, sent.1, sent.2)

-- `CSManager_driverStart`.
pub driver_start : Rx → Tx → ℕ → ℕ → Callback → (ℕ → Wait) → List ℕ → Rx × Tx × Bool
unfolding send_once
driver_start rx tx gw_id id cb waits stack =
    send_once rx tx gw_id id (sys_code start_order)
      (record { type = type_code buff1; bytes = 0x55 ∷ drop 1 stack }) cb waits

-- The register of a multimaster; `none` is logged as an error.
pub mmaster_reg : ℕ → Option SysDrivReg
mmaster_reg mm_reg =
    if mm_reg == 0
    then some mmaster0
    else if mm_reg == 1
    then some mmaster1
    else if mm_reg == 2
    then some mmaster2
    else if mm_reg == 3
    then some mmaster3
    else none

-- `CSManager_setMultimuster`.
pub set_multimuster :
    Rx → Tx → ℕ → ℕ → ℕ → ℕ → ℕ → Callback → (ℕ → Wait) → List ℕ → Option (Rx × Tx × Bool)
unfolding mmaster_reg send_once
set_multimuster rx tx gw_id id mm_reg target_id target_reg cb waits stack =
    elim (mmaster_reg mm_reg) [
      | none ↦ none
      | some r ↦ some (
          send_once rx tx gw_id id (sys_code r)
            (record {
              type = type_code buff3;
              bytes = target_id / 256 ∷ target_id % 256 ∷ target_reg ∷ drop 3 stack;
            })
            cb waits)
    ]
