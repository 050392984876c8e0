-- ===== src/Can/Rx/Register.antt =====
-- Registering with pkg/can_smbus/src/core/io/cs_rx.c, seen from the frames that arrive.
use rmm_2023_pre.Common.{
  ℕ, ◌<◌, ◌≡◌, Bool, List, [], ◌∷◌, ◌++◌, ◌&&◌, if◌then◌else◌, Bool-cases, inl, inr,
}
use mathlib.Core.List.{map-append}
use rmm_2023_pre.Can.Types.{RegChannel}
use rmm_2023_pre.Can.Callbacks.{Callback, list_call}
use rmm_2023_pre.Can.Rx.{Rx, reg, bind_reg, bind_slot}
use rmm_2023_pre.Can.Rx.Receive.{receive_frame}
use rmm_2023_pre.Can.Rx.Listeners.{listeners, same_device, slot_eq, listeners-bind_slot}
use rmm_2023_pre.Can.Rx.Dispatch.{IsDevice, IsDevice-arg_checker, write_frame, receive_write}

-- Two addresses of a register: gateway, device, channel and number agree.
abbrev pub same_address : ℕ → ℕ → RegChannel → ℕ → ℕ → ℕ → RegChannel → ℕ → Bool
same_address gw_id id c r gw' id' c' r' =
    same_device gw_id id gw' id' && slot_eq (reg c r) (reg c' r')

-- After `CSRx_bindReg` a write to that register calls the new callback behind those of before, and
-- a write to another register calls what it called before, if the gateways are below 4, the
-- registers below 16 and the identifiers those of devices.
pub receive-bind_reg :
    (rx : Rx) (gw_id id r : ℕ) (cb : Callback) (c : RegChannel) (gw' id' r' len : ℕ)
    (bytes : List ℕ) (c' : RegChannel)
    → gw_id < 4
    → IsDevice id
    → r < 16
    → gw' < 4
    → IsDevice id'
    → r' < 16
    → receive_frame (bind_reg rx gw_id id r cb c) gw' (write_frame id' r' c' len bytes) ≡ (
        if same_address gw_id id c r gw' id' c' r'
        then list_call (listeners rx gw_id id (reg c r)) id' r' len bytes
          ++ list_call (cb ∷ []) id' r' len bytes
        else receive_frame rx gw' (write_frame id' r' c' len bytes))
unfolding bind_reg list_call
receive-bind_reg rx gw_id id r cb c gw' id' r' len bytes c' g h k g' h' k' =
    rw
      (
        IsDevice-arg_checker gw_id id r g h k,
        receive_write (bind_slot rx gw_id id (reg c r) cb) gw' id' r' len bytes c' g' h' k',
        receive_write rx gw' id' r' len bytes c' g' h' k',
        listeners-bind_slot rx gw_id id (reg c r) cb gw' id' (reg c' r'),
      )
      (elim (Bool-cases (same_address gw_id id c r gw' id' c' r')) [
        | inl m ↦ rw m (map-append _ (listeners rx gw_id id (reg c r)) (cb ∷ []))
        | inr m ↦ rw m
      ])
