-- ===== src/Can/Rx/Receive.antt =====
-- The reception of frames in pkg/can_smbus/src/core/io/cs_rx.c: which callbacks a frame calls.
use rmm_2023_pre.Common.{ℕ, List, [], ◌∷◌, ◌++◌, none, some, ◌&&◌, ltb, if◌then◌else◌, get_or}
use rmm_2023_pre.Can.Types.{
  Frame, RegChannel, system, user, get_number_id, get_number_reg, is_driv_id, is_write_reg,
  is_sys_reg, is_ack_reg, is_brc_reg, is_writeack_reg, is_requestack_reg,
}
use rmm_2023_pre.Can.Callbacks.{Call, list_call}
use rmm_2023_pre.Can.Rx.{Rx, arg_checker, device_info_get}

-- What a received frame calls, for each of its three ways in.
unfoldable pub reg_callback : Rx → ℕ → ℕ → ℕ → ℕ → List ℕ → RegChannel → List Call
unfolding device_info_get
reg_callback rx gw_id id r len bytes channel =
    if arg_checker gw_id id r
    then elim (device_info_get rx gw_id id) [
      | none ↦ []
      | some info ↦ list_call (info.regs channel r) id r len bytes
    ]
    else []

-- `bytes[0]` is read under `1 < len` only; a frame holds four bytes.
unfoldable pub ack_callback : Rx → ℕ → ℕ → ℕ → ℕ → List ℕ → List Call
unfolding device_info_get
ack_callback rx gw_id id r len bytes =
    if arg_checker gw_id id r && ltb 1 len
    then elim (device_info_get rx gw_id id) [
      | none ↦ []
      | some info ↦
          let first = get_or bytes 0 0 in
          if is_writeack_reg first
          then if is_sys_reg first
            then list_call (info.reg_acks system) id r len bytes
            else list_call (info.reg_acks user) id r len bytes
          else if is_requestack_reg first
          then if is_sys_reg first
            then list_call (info.req_acks system) id r len bytes
            else list_call (info.req_acks user) id r len bytes
          else []
    ]
    else []

unfoldable pub brc_callback : Rx → ℕ → ℕ → ℕ → ℕ → List ℕ → List Call
brc_callback rx gw_id id r len bytes =
    if arg_checker gw_id id r then list_call (rx.brc_callbacks gw_id r) id r len bytes else []

-- The body of the loop over the frames of a pack in `CSRx_receiveThread`.
unfoldable pub receive_frame : Rx → ℕ → Frame → List Call
receive_frame rx gw_id f =
    let id = get_number_id f.id in
    let r = get_number_reg f.reg in
    if is_driv_id f.id
    then if is_write_reg f.reg
      then if is_sys_reg f.reg
        then reg_callback rx gw_id id r f.len f.bytes system
        else reg_callback rx gw_id id r f.len f.bytes user
      else if is_ack_reg f.reg
      then ack_callback rx gw_id id r f.len f.bytes
      else if is_brc_reg f.reg
      then brc_callback rx gw_id id r f.len f.bytes
      else []
    else []

unfoldable pub receive_pack : Rx → ℕ → List Frame → List Call
unfolding receive_frame
receive_pack rx gw_id [] = []
receive_pack rx gw_id (f ∷ frames) = receive_frame rx gw_id f ++ receive_pack rx gw_id frames
