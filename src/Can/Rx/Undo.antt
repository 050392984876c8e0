-- ===== src/Can/Rx/Undo.antt =====
-- A callback of pkg/can_smbus/src/core/io/cs_rx.c that is bound and then closed.
use rmm_2023_pre.Common.{
  ℕ, ◌≡◌, refl, sym, ◌∙◌, inl, inr, Bool, true, false, [], ◌∷◌, ◌++◌, ◌&&◌, arith, Bool-cases, ap,
}
use rmm_2023_pre.Can.Types.{RegChannel, system, user}
use rmm_2023_pre.Can.Callbacks.{Callback, list_close}
use rmm_2023_pre.Can.Callbacks.Close.Last.{NoRepeat-last, others-last}
use rmm_2023_pre.Can.Callbacks.Close.{contains, list_close_lem}
use rmm_2023_pre.Can.Rx.{
  Rx, Slot, reg, reg_ack, req_ack, channel_eq, bind_slot, close_slot, device_info_get, arg_checker,
  bind_req_ack, close_req_ack, bind_reg_ack, close_reg_ack,
}
use rmm_2023_pre.Can.Rx.Listeners.{
  listeners, of_info, same_device, same_device_get, slot_eq, InRange, listeners-bind_slot,
}
use rmm_2023_pre.Can.Rx.Closing.{same_device_self, listeners-close_slot}

channel_eq_sound : (c c' : RegChannel) → channel_eq c c' ≡ true → c ≡ c'
channel_eq_sound system system e = refl
channel_eq_sound user user e = refl
channel_eq_sound system user e = absurd (ground arith)
channel_eq_sound user system e = absurd (ground arith)

slot_eq_sound : (s s' : Slot) → slot_eq s s' ≡ true → s ≡ s'
slot_eq_sound (reg c r) (reg c' r') e = elim (Bool-cases (channel_eq c c')) [
  | inl m ↦ let p = channel_eq_sound c c' m in let q : r ≡ r' = ground arith in cc
  | inr m ↦ absurd (ground arith)
]
slot_eq_sound (reg_ack c) (reg_ack c') e = ap reg_ack (channel_eq_sound c c' e)
slot_eq_sound (req_ack c) (req_ack c') e = ap req_ack (channel_eq_sound c c' e)
slot_eq_sound (reg c r) (reg_ack c') e = absurd (ground arith)
slot_eq_sound (reg c r) (req_ack c') e = absurd (ground arith)
slot_eq_sound (reg_ack c) (reg c' r') e = absurd (ground arith)
slot_eq_sound (reg_ack c) (req_ack c') e = absurd (ground arith)
slot_eq_sound (req_ack c) (reg c' r') e = absurd (ground arith)
slot_eq_sound (req_ack c) (reg_ack c') e = absurd (ground arith)

slot_eq_self : (s : Slot) → slot_eq s s ≡ true
slot_eq_self (reg system r) = ground arith
slot_eq_self (reg user r) = ground arith
slot_eq_self (reg_ack system) = refl
slot_eq_self (reg_ack user) = refl
slot_eq_self (req_ack system) = refl
slot_eq_self (req_ack user) = refl

-- The list of a slot that the same test finds.
pub listeners_same :
    (rx : Rx) (gw_id id gw' id' : ℕ) (s s' : Slot)
    → same_device gw_id id gw' id' && slot_eq s s' ≡ true
    → listeners rx gw_id id s ≡ listeners rx gw' id' s'
unfolding listeners
listeners_same rx gw_id id gw' id' s s' e =
    let m : same_device gw_id id gw' id' ≡ true =
      both (same_device gw_id id gw' id') (slot_eq s s') e in
    let n : slot_eq s s' ≡ true = both' (same_device gw_id id gw' id') (slot_eq s s') e in
    ap (λ t. of_info (device_info_get rx gw_id id) t) (slot_eq_sound s s' n)
    ∙ ap (λ o. of_info o s') (sym (same_device_get rx gw_id id gw' id' m))
  where
    both : (a b : Bool) → a && b ≡ true → a ≡ true
    both a b e = ground arith

    both' : (a b : Bool) → a && b ≡ true → b ≡ true
    both' a b e = ground arith

-- Binding a callback to a slot that does not have it, and closing it again, leaves every list of
-- callbacks as it was.
pub close_slot-bind_slot :
    (rx : Rx) (gw_id id : ℕ) (s : Slot) (cb : Callback) (gw' id' : ℕ) (s' : Slot)
    → contains cb (listeners rx gw_id id s) ≡ false
    → InRange s'
    → listeners (close_slot (bind_slot rx gw_id id s cb) gw_id id s cb) gw' id' s'
      ≡ listeners rx gw' id' s'
close_slot-bind_slot rx gw_id id s cb gw' id' s' h k =
    let bound = bind_slot rx gw_id id s cb in
    let here : same_device gw_id id gw_id id && slot_eq s s ≡ true =
      rw (same_device_self gw_id id, slot_eq_self s) refl in
    let own : listeners bound gw_id id s ≡ listeners rx gw_id id s ++ (cb ∷ []) =
      listeners-bind_slot rx gw_id id s cb gw_id id s ∙ rw here refl in
    let back : (list_close (listeners bound gw_id id s) cb).0 ≡ listeners rx gw_id id s =
      ap (λ l. (list_close l cb).0) own
      ∙ (list_close_lem cb (listeners rx gw_id id s ++ (cb ∷ [])) (NoRepeat-last cb _ h)).0
      ∙ others-last cb (listeners rx gw_id id s) h in
    listeners-close_slot bound gw_id id s cb gw' id' s' k
    ∙ elim (Bool-cases (same_device gw_id id gw' id' && slot_eq s s')) [
      | inl e ↦ rw e (back ∙ listeners_same rx gw_id id gw' id' s s' e)
      | inr e ↦ rw e (listeners-bind_slot rx gw_id id s cb gw' id' s' ∙ rw e refl)
    ]

-- The same of the functions for the acknowledgements, with their test of the arguments.
pub close_req_ack-bind_req_ack :
    (rx : Rx) (gw_id id : ℕ) (cb : Callback) (c : RegChannel) (gw' id' : ℕ) (s' : Slot)
    → contains cb (listeners rx gw_id id (req_ack c)) ≡ false
    → InRange s'
    → listeners (close_req_ack (bind_req_ack rx gw_id id cb c) gw_id id cb c) gw' id' s'
      ≡ listeners rx gw' id' s'
unfolding close_req_ack bind_req_ack
close_req_ack-bind_req_ack rx gw_id id cb c gw' id' s' h k =
    elim (Bool-cases (arg_checker gw_id id 0)) [
      | inl e ↦ rw e (close_slot-bind_slot rx gw_id id (req_ack c) cb gw' id' s' h k)
      | inr e ↦ rw e refl
    ]

pub close_reg_ack-bind_reg_ack :
    (rx : Rx) (gw_id id : ℕ) (cb : Callback) (c : RegChannel) (gw' id' : ℕ) (s' : Slot)
    → contains cb (listeners rx gw_id id (reg_ack c)) ≡ false
    → InRange s'
    → listeners (close_reg_ack (bind_reg_ack rx gw_id id cb c) gw_id id cb c) gw' id' s'
      ≡ listeners rx gw' id' s'
unfolding close_reg_ack bind_reg_ack
close_reg_ack-bind_reg_ack rx gw_id id cb c gw' id' s' h k =
    elim (Bool-cases (arg_checker gw_id id 0)) [
      | inl e ↦ rw e (close_slot-bind_slot rx gw_id id (reg_ack c) cb gw' id' s' h k)
      | inr e ↦ rw e refl
    ]
