-- ===== src/Can/Rx/Dispatch.antt =====
-- Which callbacks a frame reaches in pkg/can_smbus/src/core/io/cs_rx.c, after any binding and closing.
use rmm_2023_pre.Common.{
  ℕ, ◌≤◌, ◌<◌, ◌≡◌, refl, ◌∙◌, inl, inr, Bool, true, List, ◌&&◌, ◌==◌, if◌then◌else◌, arith,
  Option-cases,
}
use native.Mathlib.Nat.{mod-eq_of_lt}
use rmm_2023_pre.Common.Bits.{every_below, every_below_sound, mask4}
use rmm_2023_pre.Can.Types.{
  Frame, RegChannel, system, user, get_number_id, get_number_reg, get_driv_id, is_driv_id,
  is_sys_reg,
}
use rmm_2023_pre.Can.Types.Registers.{
  write, get_kind, get_channel, is_channel, built_register, kinds_exclusive,
}
use rmm_2023_pre.Can.Callbacks.{list_call}
use rmm_2023_pre.Can.Rx.{Rx, arg_checker, device_info_get, channel_eq, reg}
use rmm_2023_pre.Can.Rx.Receive.{reg_callback, receive_frame}
use rmm_2023_pre.Can.Rx.Listeners.{listeners}

-- An identifier of a device that the guard accepts: driver 0x01 to 0x1F.
abbrev pub IsDevice : ℕ → Type 0
IsDevice id = (0x010 ≤ id) × (id < 0x200)

pub IsDevice-arg_checker :
    (gw_id id r : ℕ) → gw_id < 4 → IsDevice id → r < 16 → arg_checker gw_id id r ≡ true
IsDevice-arg_checker gw_id id r g h k = ground (arith, mask4 id (omega arith))

abbrev driv_test : ℕ → Bool
driv_test id = is_driv_id (get_driv_id id) && (get_number_id (get_driv_id id) == id)

driv_table : every_below 1024 driv_test ≡ true
unfolding every_below
driv_table = refl

pub driv_id :
    (id : ℕ)
    → id < 1024
    → (is_driv_id (get_driv_id id) ≡ true) × (get_number_id (get_driv_id id) ≡ id)
driv_id id h =
    split (is_driv_id (get_driv_id id)) (get_number_id (get_driv_id id))
      (every_below_sound 1024 driv_test id driv_table h)
  where
    split : (b : Bool) (n : ℕ) → b && (n == id) ≡ true → (b ≡ true) × (n ≡ id)
    split b n e = ground arith

-- The frame that a device sends to write a register of the host.
abbrev pub write_frame : ℕ → ℕ → RegChannel → ℕ → List ℕ → Frame
write_frame id r c len bytes = record {
  id = get_driv_id id;
  reg = get_channel c (get_kind write r);
  len = len;
  bytes = bytes;
}

reg_callback-listeners :
    (rx : Rx) (gw_id id r len : ℕ) (bytes : List ℕ) (c : RegChannel)
    → gw_id < 4
    → IsDevice id
    → r < 16
    → reg_callback rx gw_id id r len bytes c
      ≡ list_call (listeners rx gw_id id (reg c r)) id r len bytes
unfolding reg_callback listeners list_call
reg_callback-listeners rx gw_id id r len bytes c g h k =
    rw (IsDevice-arg_checker gw_id id r g h k)
      (elim (Option-cases (device_info_get rx gw_id id)) [ inl n ↦ rw n | inr (info, e) ↦ rw e ])

pub channel_sys :
    (c : RegChannel) (r : ℕ) → r < 256 → is_channel c r ≡ true → is_sys_reg r ≡ channel_eq system c
channel_sys system r h e = e
channel_sys user r h e = rw ((kinds_exclusive r h).1, e)

pick_channel :
    (rx : Rx) (gw_id id r len : ℕ) (bytes : List ℕ) (c : RegChannel) (b : Bool)
    → b ≡ channel_eq system c
    → (if b
        then reg_callback rx gw_id id r len bytes system
        else reg_callback rx gw_id id r len bytes user)
      ≡ reg_callback rx gw_id id r len bytes c
pick_channel rx gw_id id r len bytes system b e = rw e
pick_channel rx gw_id id r len bytes user b e = rw e

-- A write from a device to a register below 16, on a gateway below 4, calls the callbacks that are
-- registered for its gateway, identifier, register and channel, in the order of their registration,
-- and no others.
pub receive_write :
    (rx : Rx) (gw_id id r len : ℕ) (bytes : List ℕ) (c : RegChannel)
    → gw_id < 4
    → IsDevice id
    → r < 16
    → receive_frame rx gw_id (write_frame id r c len bytes)
      ≡ list_call (listeners rx gw_id id (reg c r)) id r len bytes
unfolding receive_frame
receive_write rx gw_id id r len bytes c g h k =
    let d = driv_id id (omega arith) in
    let b = built_register write c r (omega arith) in
    let n : get_number_reg (get_channel c (get_kind write r)) ≡ r = b.2 ∙ mod-eq_of_lt k in
    let s = channel_sys c (get_channel c (get_kind write r)) b.3 b.1 in
    rw (d.0, d.1, b.0, n)
      (pick_channel rx gw_id id r len bytes c _ s
        ∙ reg_callback-listeners rx gw_id id r len bytes c g h k)
