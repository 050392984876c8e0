-- ===== src/Can/Rx/Devices.antt =====
-- The devices of pkg/can_smbus/src/core/io/cs_rx.c that a binding makes and its closing frees, and the
-- lists of the broadcasts, which neither touches.
use rmm_2023_pre.Common.{
  ℕ, ◌≡◌, refl, sym, ◌∙◌, inl, inr, true, none, some, Option-cases, [], ◌∷◌, ◌++◌, Bool-cases,
}
use rmm_2023_pre.Can.Types.{RegChannel, system, user}
use rmm_2023_pre.Can.Callbacks.{Callback, list_close, list_add}
use rmm_2023_pre.Can.Callbacks.Close.Last.{NoRepeat-last, others-last}
use rmm_2023_pre.Can.Callbacks.Close.{contains, list_close_lem, is_callback_self}
use rmm_2023_pre.Can.Rx.{
  Rx, blank_info, Slot, req_ack, set_slot, slot_list, write_dev, bind_slot, close_slot,
  device_info_get, device_info_close, all_unusing, scan_channel, scan_regs, driver_index,
  device_index, arg_checker, bind_req_ack, close_req_ack,
}
use rmm_2023_pre.Can.Rx.Listeners.{
  same_device, same_device_get, get-bind_slot, brc_callbacks-bind_slot,
}
use rmm_2023_pre.Can.Rx.Closing.{same_device_self, closing, get-close_slot}

brc_callbacks-device_info_close :
    (rx : Rx) (gw_id id : ℕ) → (device_info_close rx gw_id id).brc_callbacks ≡ rx.brc_callbacks
unfolding device_info_close
brc_callbacks-device_info_close rx gw_id id =
    elim (Option-cases (rx.devs gw_id (driver_index id) (device_index id))) [
      | inl n ↦ rw (device_info_close, n) refl
      | inr (info, e) ↦ elim (Bool-cases (all_unusing info)) [
        | inl u ↦ rw (device_info_close, e, u) refl
        | inr u ↦ rw (device_info_close, e, u) refl
      ]
    ]

brc_callbacks-close_slot :
    (rx : Rx) (gw_id id : ℕ) (s : Slot) (cb : Callback)
    → (close_slot rx gw_id id s cb).brc_callbacks ≡ rx.brc_callbacks
unfolding close_slot
brc_callbacks-close_slot rx gw_id id s cb = elim (Option-cases (device_info_get rx gw_id id)) [
  | inl n ↦ rw (close_slot, n) refl
  | inr (info, e) ↦ elim (Bool-cases (list_close (slot_list s info) cb).1) [
    | inl hit ↦
        rw (close_slot, e, hit)
          (brc_callbacks-device_info_close
            (write_dev rx gw_id id (some (set_slot s (list_close (slot_list s info) cb).0 info)))
            gw_id id)
    | inr miss ↦ rw (close_slot, e, miss) refl
  ]
]

closed_last :
    (cb : Callback) → ((list_close (cb ∷ []) cb).0 ≡ []) × ((list_close (cb ∷ []) cb).1 ≡ true)
unfolding contains
closed_last cb =
    let c = list_close_lem cb ([] ++ (cb ∷ [])) (NoRepeat-last cb [] refl) in
    (c.0 ∙ others-last cb [] refl, c.1 ∙ rw (is_callback_self cb) refl)

unused_again :
    (cb : Callback) (c : RegChannel)
    → all_unusing (set_slot (req_ack c) [] (set_slot (req_ack c) (cb ∷ []) blank_info)) ≡ true
unfolding all_unusing scan_channel scan_regs
unused_again cb system = refl
unused_again cb user = refl

-- What closing leaves of a device that had the callback and nothing else.
closing_last :
    (cb : Callback) (c : RegChannel)
    → closing
        (req_ack c)
        cb
        (some (set_slot (req_ack c) (list_add (slot_list (req_ack c) blank_info) cb) blank_info))
      ≡ none
unfolding list_add
closing_last cb system = rw ((closed_last cb).0, (closed_last cb).1, unused_again cb system) refl
closing_last cb user = rw ((closed_last cb).0, (closed_last cb).1, unused_again cb user) refl

-- After a binding and its closing there is no device that was not there before.
pub undone :
    (rx : Rx) (gw_id id : ℕ) (cb : Callback) (c : RegChannel) (gw' id' : ℕ)
    → device_info_get rx gw' id' ≡ none
    → device_info_get
        (close_slot (bind_slot rx gw_id id (req_ack c) cb) gw_id id (req_ack c) cb)
        gw'
        id'
      ≡ none
undone rx gw_id id cb c gw' id' h =
    let bound = bind_slot rx gw_id id (req_ack c) cb in
    get-close_slot bound gw_id id (req_ack c) cb gw' id'
    ∙ elim (Bool-cases (same_device gw_id id gw' id')) [
      | inl m ↦
          let n : device_info_get rx gw_id id ≡ none =
            sym (same_device_get rx gw_id id gw' id' m) ∙ h in
          rw (m, get-bind_slot rx gw_id id (req_ack c) cb gw_id id, same_device_self gw_id id, n)
            (closing_last cb c)
      | inr m ↦ rw (m, get-bind_slot rx gw_id id (req_ack c) cb gw' id', m) h
    ]

-- The same of the functions, with their test of the arguments, and with the broadcasts.
pub close_req_ack-devices :
    (rx : Rx) (gw_id id : ℕ) (cb : Callback) (c : RegChannel) (gw' id' : ℕ)
    → let after = close_req_ack (bind_req_ack rx gw_id id cb c) gw_id id cb c in
      (after.brc_callbacks ≡ rx.brc_callbacks)
      × (device_info_get rx gw' id' ≡ none → device_info_get after gw' id' ≡ none)
unfolding close_req_ack bind_req_ack
close_req_ack-devices rx gw_id id cb c gw' id' = elim (Bool-cases (arg_checker gw_id id 0)) [
  | inl e ↦ rw e (
    brc_callbacks-close_slot (bind_slot rx gw_id id (req_ack c) cb) gw_id id (req_ack c) cb
        ∙ brc_callbacks-bind_slot rx gw_id id (req_ack c) cb,
    undone rx gw_id id cb c gw' id',
  )
  | inr e ↦ rw e (refl, λ h. h)
]
