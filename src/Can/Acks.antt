-- ===== src/Can/Acks.antt =====
-- What pkg/can_smbus/src/core/cs_send_ack.c and cs_request.c share: a frame is sent up to five times,
-- until an acknowledgement with its register and the sum of its bytes comes. What comes while the
-- thread waits is an argument.
pub mod Turns
pub mod Answer
mod Tests
use rmm_2023_pre.Common.{
  ℕ, zero, suc, ◌+◌, ◌%◌, ◌^◌, Bool, true, false, List, [], ◌∷◌, ◌&&◌, ◌||◌, ◌==◌, if◌then◌else◌,
  take, drop, ◌/◌,
}
use rmm_2023_pre.Can.Types.{RegChannel, RequestMode, request, interval, mode_code, get_number_reg}
use rmm_2023_pre.Can.Callbacks.{Callback}
use rmm_2023_pre.Can.Rx.{Rx, bind_reg_ack, close_reg_ack, bind_req_ack, close_req_ack}
use rmm_2023_pre.Can.Tx.{Tx, normal, send_reg_ack, send_req, send_req_ack}
use rmm_2023_pre.Can.Data.{Data, get_size}

-- `struct CSSendAck_callbackArg_t` and `struct CSRequest_callbackArg_t`, without the lock.
pub record CallbackArg : Type 0 where
  pub reg : ℕ
  pub len : ℕ
  pub hash : ℕ

-- `hash += buff[i]` over the bytes, in a `uint8_t`.
pub sum_loop : List ℕ → ℕ → ℕ
sum_loop [] hash = hash
sum_loop (b ∷ bs) hash = sum_loop bs ((hash + b) % 2 ^ 8)

-- `CSSendAck_callback` and `CSRequest_callback`: whether the thread that waits is signalled.
pub callback : CallbackArg → ℕ → List ℕ → Bool
callback info len (d0 ∷ d1 ∷ bytes) =
    if len == 2 then get_number_reg d0 == info.reg && d1 == info.hash else false
callback info len bytes = false

-- What happens while the thread waits for 20 ms: the acknowledgements that come to the callback, and
-- whether the wait ends as if signalled without a signal, which POSIX allows.
pub record Wait : Type 0 where
  pub acks : List (ℕ × List ℕ)
  pub woken : Bool

pub any_signal : CallbackArg → List (ℕ × List ℕ) → Bool
unfolding callback
any_signal info [] = false
any_signal info (a ∷ rest) = callback info a.0 a.1 || any_signal info rest

-- Whether `SACOND_TIMEWAIT` returns 0.
pub is_hit : CallbackArg → Wait → Bool
unfolding any_signal
is_hit info w = w.woken || any_signal info w.acks

-- The loop that sends and waits, `n` rounds from round `i` on.
pub send_loop : (Tx → Tx) → CallbackArg → (ℕ → Wait) → ℕ → ℕ → Tx → Tx × Bool
unfolding is_hit
send_loop send_one info waits zero i tx = (tx, false)
send_loop send_one info waits (suc n) i tx =
    let rest = send_loop send_one info waits n (i + 1) (send_one tx) in
    if is_hit info (waits i) then (send_one tx, true) else rest

-- `struct CSSendAck_info_t`. Of `arg` only the register is kept between calls; `arg_address` is
-- where it is.
pub record SendAck : Type 0 where
  pub gw_id : ℕ
  pub id : ℕ
  pub reg : ℕ
  pub channel : RegChannel
  pub arg : CallbackArg

-- The callback is the function at `func`, with the address of the object's `arg`.
pub create : Rx → ℕ → ℕ → ℕ → RegChannel → Callback → SendAck × Rx
create rx gw_id id reg channel cb = (
  record {
    gw_id = gw_id;
    id = id;
    reg = reg;
    channel = channel;
    arg = record { reg = reg; len = 0; hash = 0 };
  },
  bind_reg_ack rx gw_id id cb channel,
)

pub close : Rx → SendAck → Callback → Rx
close rx obj cb = close_reg_ack rx obj.gw_id obj.id cb obj.channel

-- The object, the queues, and whether an acknowledgement came; the source logs an error if none did.
pub send : SendAck → Tx → Data → (ℕ → Wait) → SendAck × Tx × Bool
unfolding sum_loop send_loop
send obj tx d waits =
    let len = get_size d in
    let arg : CallbackArg = record {
      reg = obj.arg.reg;
      len = len;
      hash = sum_loop (take len d.bytes) 0;
    } in
    let sent =
      send_loop (λ t. send_reg_ack t obj.gw_id obj.id obj.reg len d.bytes normal obj.channel) arg
        waits 5 0 tx in
    (record obj { arg = arg }, sent.0, sent.1)

-- `CSRequest_request`; `stack` is what the four bytes of `data` held.
pub request_once : Tx → ℕ → ℕ → ℕ → RegChannel → List ℕ → Tx
request_once tx gw_id id reg channel stack = send_req tx gw_id id reg 0 stack normal channel

-- `CSRequest_sendAck`: the callback is bound for the time of the call.
pub request_ack :
    Rx → Tx → ℕ → ℕ → ℕ → ℕ → List ℕ → RegChannel → Callback → (ℕ → Wait) → Rx × Tx × Bool
unfolding sum_loop send_loop
request_ack rx tx gw_id id reg len buff channel cb waits =
    let bound = bind_req_ack rx gw_id id cb channel in
    let arg : CallbackArg = record { reg = reg; len = len; hash = sum_loop (take len buff) 0 } in
    let sent =
      send_loop (λ t. send_req_ack t gw_id id reg len buff normal channel) arg waits 5 0 tx in
    (close_req_ack bound gw_id id cb channel, sent.0, sent.1)

pub set_mode_request :
    Rx → Tx → ℕ → ℕ → ℕ → RegChannel → Callback → (ℕ → Wait) → List ℕ → Rx × Tx × Bool
unfolding request_ack
set_mode_request rx tx gw_id id reg channel cb waits stack =
    request_ack rx tx gw_id id reg 1 (mode_code request ∷ drop 1 stack) channel cb waits

pub set_mode_interval :
    Rx → Tx → ℕ → ℕ → ℕ → ℕ → RegChannel → Callback → (ℕ → Wait) → List ℕ → Rx × Tx × Bool
unfolding request_ack
set_mode_interval rx tx gw_id id reg ms channel cb waits stack =
    request_ack rx tx gw_id id reg 3 (mode_code interval ∷ ms / 256 ∷ ms % 256 ∷ drop 3 stack)
      channel cb waits
