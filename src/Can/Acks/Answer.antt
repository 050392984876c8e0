-- ===== src/Can/Acks/Answer.antt =====
-- What ends the waiting in pkg/can_smbus/src/core/cs_send_ack.c and cs_request.c, and what is left of
-- the request.
use rmm_2023_pre.Common.{ℕ, ◌<◌, ◌≡◌, refl, ◌∙◌, true, false, none, List, [], ◌∷◌, ◌++◌, arith}
use rmm_2023_pre.Can.Types.{RegChannel, get_number_reg}
use rmm_2023_pre.Can.Types.Registers.{Kind, get_kind, get_channel, built_register}
use rmm_2023_pre.Can.Callbacks.{Callback}
use rmm_2023_pre.Can.Callbacks.Close.{contains}
use rmm_2023_pre.Can.Rx.{Rx, Slot, req_ack, reg_ack, device_info_get}
use rmm_2023_pre.Can.Rx.Devices.{close_req_ack-devices}
use rmm_2023_pre.Can.Rx.Listeners.{listeners, InRange}
use rmm_2023_pre.Can.Rx.Undo.{close_req_ack-bind_req_ack, close_reg_ack-bind_reg_ack}
use rmm_2023_pre.Can.Tx.{Tx}
use rmm_2023_pre.Can.Data.{Data}
use rmm_2023_pre.Can.Acks.{
  CallbackArg, callback, Wait, any_signal, is_hit, request_ack, create, close, send,
}

any_signal-middle :
    (info : CallbackArg) (xs ys : List (ℕ × List ℕ)) (a : ℕ × List ℕ)
    → callback info a.0 a.1 ≡ true
    → any_signal info (xs ++ (a ∷ ys)) ≡ true
unfolding any_signal
any_signal-middle info [] ys a e = rw e refl
any_signal-middle info (x ∷ xs) ys a e = rw (any_signal-middle info xs ys a e) (ground arith)

-- Whatever else comes in a wait, the acknowledgement that a device makes for a register below 16,
-- of two bytes, the register in whichever kind and channel and the hash, makes the wait a hit.
pub answer_hits :
    (info : CallbackArg) (w : Wait) (kind : Kind) (c : RegChannel) (rest : List ℕ)
    (xs ys : List (ℕ × List ℕ))
    → info.reg < 16
    → w.acks ≡ xs ++ ((2, get_channel c (get_kind kind info.reg) ∷ info.hash ∷ rest) ∷ ys)
    → is_hit info w ≡ true
unfolding is_hit
answer_hits info w kind c rest xs ys h e =
    let r = built_register kind c info.reg (omega arith) in
    let n : get_number_reg (get_channel c (get_kind kind info.reg)) ≡ info.reg =
      r.2 ∙ omega arith in
    let hit : callback info 2 (get_channel c (get_kind kind info.reg) ∷ info.hash ∷ rest) ≡ true =
      unfold callback in rw n (ground arith) in
    rw
      (
        e,
        any_signal-middle info xs ys (2, get_channel c (get_kind kind info.reg) ∷ info.hash ∷ rest)
            hit,
      )
      (ground arith)

-- A request whose callback is not bound yet leaves every list of callbacks of the devices and all
-- lists of the broadcasts as they were, and no device that was not there before.
pub request_ack-listeners :
    (rx : Rx) (tx : Tx) (gw_id id reg len : ℕ) (buff : List ℕ) (channel : RegChannel)
    (cb : Callback) (waits : ℕ → Wait) (gw' id' : ℕ) (s' : Slot)
    → contains cb (listeners rx gw_id id (req_ack channel)) ≡ false
    → InRange s'
    → let after = (request_ack rx tx gw_id id reg len buff channel cb waits).0 in
      (listeners after gw' id' s' ≡ listeners rx gw' id' s')
      × (after.brc_callbacks ≡ rx.brc_callbacks)
      × (device_info_get rx gw' id' ≡ none → device_info_get after gw' id' ≡ none)
unfolding request_ack
request_ack-listeners rx tx gw_id id reg len buff channel cb waits gw' id' s' h k =
    let others = close_req_ack-devices rx gw_id id cb channel gw' id' in
    (close_req_ack-bind_req_ack rx gw_id id cb channel gw' id' s' h k, others.0, others.1)

-- An object for acknowledged sending that is made, sends once and is closed leaves every list of
-- callbacks that the arrays have as it was, if its callback was not bound before.
pub close-create :
    (rx : Rx) (tx : Tx) (gw_id id reg : ℕ) (d : Data) (channel : RegChannel) (cb : Callback)
    (waits : ℕ → Wait) (gw' id' : ℕ) (s' : Slot)
    → contains cb (listeners rx gw_id id (reg_ack channel)) ≡ false
    → InRange s'
    → let made = create rx gw_id id reg channel cb in
      listeners (close made.1 (send made.0 tx d waits).0 cb) gw' id' s' ≡ listeners rx gw' id' s'
unfolding create close send
close-create rx tx gw_id id reg d channel cb waits gw' id' s' h k =
    close_reg_ack-bind_reg_ack rx gw_id id cb channel gw' id' s' h k
