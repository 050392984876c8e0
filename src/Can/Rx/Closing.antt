-- ===== src/Can/Rx/Closing.antt =====
-- The functions of pkg/can_smbus/src/core/io/cs_rx.c that close, with the device that goes when its
-- last callback does.
use rmm_2023_pre.Common.{
  ℕ, zero, suc, ◌+◌, ◌≤◌, ◌<◌, ◌≡◌, refl, inl, inr, Bool, true, false, not, List, [], ◌∷◌, Option,
  none, some, ◌&&◌, ◌==◌, ltb, if◌then◌else◌, length, arith, dec_lt, Bool-cases, Option-cases,
}
use rmm_2023_pre.Can.Types.{RegChannel, system, user}
use rmm_2023_pre.Can.Callbacks.{Callback, list_close}
use rmm_2023_pre.Can.Callbacks.Close.{list_close-nil}
use rmm_2023_pre.Can.Rx.{
  Rx, DeviceInfo, driver_index, device_index, device_info_get, write_dev, Slot, reg, reg_ack,
  req_ack, slot_list, set_slot, scan_regs, scan_channel, all_unusing, device_info_close, close_slot,
}
use rmm_2023_pre.Can.Rx.Listeners.{
  listeners, of_info, InRange, slot_eq, slot_list-set_slot, same_device, same_device_get,
}

length_zero : (list : List Callback) → not (length list == 0) ≡ false → list ≡ []
length_zero [] h = refl
length_zero (cb ∷ list) h = ground arith

scan_regs-true :
    (n i : ℕ) (c : RegChannel) (info : DeviceInfo) (acc : Bool)
    → scan_regs n i c info acc ≡ true
    → (acc ≡ true) × ((r : ℕ) → i ≤ r → r < i + n → info.regs c r ≡ [])
unfolding scan_regs
scan_regs-true zero i c info acc h = (h, λ r p q. absurd (omega arith))
scan_regs-true (suc n) i c info acc h =
    let rest : ((if not (length (info.regs c i) == 0) then false else acc) ≡ true)
        × ((r : ℕ) → i + 1 ≤ r → r < i + 1 + n → info.regs c r ≡ []) =
      scan_regs-true n (i + 1) c info _ h in
    (
      ground (arith, rest.0),
      λ r p q. elim (dec_lt i r) [
        | yes later ↦ rest.1 r (omega arith) (omega arith)
        | no now ↦
            let e : r ≡ i = omega arith in
            rw e (length_zero (info.regs c i) (ground (arith, rest.0)))
      ],
    )

length_not_pos : (list : List Callback) → ltb 0 (length list) ≡ false → list ≡ []
length_not_pos [] h = refl
length_not_pos (cb ∷ list) h = ground arith

scan_channel-true :
    (c : RegChannel) (info : DeviceInfo) (acc : Bool)
    → scan_channel c info acc ≡ true
    → (acc ≡ true)
      × ((r : ℕ) → r < 16 → info.regs c r ≡ [])
      × (info.reg_acks c ≡ [])
      × (info.req_acks c ≡ [])
unfolding scan_channel
scan_channel-true c info acc h =
    let regs = scan_regs-true 16 0 c info acc (ground arith) in
    (
      regs.0,
      λ r p. regs.1 r (omega arith) (omega arith),
      length_not_pos (info.reg_acks c) (ground arith),
      length_not_pos (info.req_acks c) (ground arith),
    )

-- Only a device whose lists are all empty counts as unused.
pub all_unusing-empty :
    (info : DeviceInfo) (s : Slot) → InRange s → all_unusing info ≡ true → slot_list s info ≡ []
unfolding all_unusing
all_unusing-empty info s h e =
    let of_user = scan_channel-true user info (scan_channel system info true) e in
    let of_system = scan_channel-true system info true of_user.0 in
    pick s h of_user.1 of_user.2 of_user.3 of_system.1 of_system.2 of_system.3
  where
    pick :
        (s : Slot)
        → InRange s
        → ((r : ℕ) → r < 16 → info.regs user r ≡ [])
        → info.reg_acks user ≡ []
        → info.req_acks user ≡ []
        → ((r : ℕ) → r < 16 → info.regs system r ≡ [])
        → info.reg_acks system ≡ []
        → info.req_acks system ≡ []
        → slot_list s info ≡ []
    pick (reg system r) h a b c d e f = d r h
    pick (reg user r) h a b c d e f = a r h
    pick (reg_ack system) h a b c d e f = e
    pick (reg_ack user) h a b c d e f = b
    pick (req_ack system) h a b c d e f = f
    pick (req_ack user) h a b c d e f = c

-- What is left of a device after a callback is closed.
abbrev pub closing : Slot → Callback → Option DeviceInfo → Option DeviceInfo
closing s cb none = none
closing s cb (some info) =
    let r = list_close (slot_list s info) cb in
    let info' = set_slot s r.0 info in
    if r.1 then (if all_unusing info' then none else some info') else some info'

pub same_device_self : (gw_id id : ℕ) → same_device gw_id id gw_id id ≡ true
same_device_self gw_id id = self (driver_index id) (device_index id)
  where
    self : (a b : ℕ) → gw_id == gw_id && (a == a && b == b) ≡ true
    self a b = ground arith

abbrev freed : Option DeviceInfo → Option DeviceInfo
freed none = none
freed (some info) = if all_unusing info then none else some info

get-device_info_close :
    (rx : Rx) (gw_id id gw' id' : ℕ)
    → device_info_get (device_info_close rx gw_id id) gw' id' ≡ (
        if same_device gw_id id gw' id'
        then freed (device_info_get rx gw_id id)
        else device_info_get rx gw' id')
unfolding device_info_get device_info_close
get-device_info_close rx gw_id id gw' id' = ground (arith, same_device_get rx gw_id id gw' id')

pub get-close_slot :
    (rx : Rx) (gw_id id : ℕ) (s : Slot) (cb : Callback) (gw' id' : ℕ)
    → device_info_get (close_slot rx gw_id id s cb) gw' id' ≡ (
        if same_device gw_id id gw' id'
        then closing s cb (device_info_get rx gw_id id)
        else device_info_get rx gw' id')
unfolding close_slot
get-close_slot rx gw_id id s cb gw' id' = elim (Option-cases (device_info_get rx gw_id id)) [
  | inl n ↦ ground (arith, same_device_get rx gw_id id gw' id')
  | inr (info, e) ↦
      let r = list_close (slot_list s info) cb in
      let rx' = write_dev rx gw_id id (some (set_slot s r.0 info)) in
      ground (arith, same_device_self gw_id id, get-device_info_close rx' gw_id id gw' id')
]

of_info-closing :
    (s s' : Slot) (cb : Callback) (o : Option DeviceInfo)
    → InRange s'
    → of_info (closing s cb o) s'
      ≡ (if slot_eq s s' then (list_close (of_info o s) cb).0 else of_info o s')
of_info-closing s s' cb none h = ground (arith, list_close-nil cb)
of_info-closing s s' cb (some info) h =
    let r = list_close (slot_list s info) cb in
    let info' = set_slot s r.0 info in
    ground (arith, slot_list-set_slot s s' r.0 info, all_unusing-empty info' s' h)

-- Closing takes the callback out of the one list that is named, by what `CSRx_callbackListClose`
-- does, and changes no other list that the arrays have: a device that is freed had none left.
pub listeners-close_slot :
    (rx : Rx) (gw_id id : ℕ) (s : Slot) (cb : Callback) (gw' id' : ℕ) (s' : Slot)
    → InRange s'
    → listeners (close_slot rx gw_id id s cb) gw' id' s' ≡ (
        if same_device gw_id id gw' id' && slot_eq s s'
        then (list_close (listeners rx gw_id id s) cb).0
        else listeners rx gw' id' s')
unfolding listeners
listeners-close_slot rx gw_id id s cb gw' id' s' h =
    rw (get-close_slot rx gw_id id s cb gw' id') (elim (Bool-cases (same_device gw_id id gw' id')) [
      | inl m ↦ rw (
        m,
        of_info-closing s s' cb (device_info_get rx gw_id id) h,
        same_device_get rx gw_id id gw' id' m,
      )
      | inr m ↦ rw m
    ])
