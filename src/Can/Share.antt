-- ===== src/Can/Share.antt =====
-- pkg/can_smbus/src/core/cs_reg_share.c: the last data of a register, in two buffers so that a reader
-- never waits. The callback writes one of them while the other is read.
pub mod Buffers
mod Tests
use rmm_2023_pre.Common.{
  ℕ, Bool, true, false, List, [], ◌∷◌, Option, none, some, not, ◌==◌, ◌&&◌, ◌||◌, if◌then◌else◌,
  take, replicate,
}
use rmm_2023_pre.Can.Types.{RegChannel, system, user}
use rmm_2023_pre.Can.Callbacks.{Callback}
use rmm_2023_pre.Can.Rx.{Rx, bind_reg, close_reg}
use rmm_2023_pre.Can.Tx.{Tx}
use rmm_2023_pre.Can.Data.{Data}
use rmm_2023_pre.Can.Acks.{Wait, request_once, set_mode_request, set_mode_interval}

-- `struct CSRegShare_callbackArg_t`; the arrays of two are functions of the index.
pub record CallbackArg : Type 0 where
  pub is_revers : Bool
  pub len : Bool → ℕ
  pub buff : Bool → List ℕ

-- `struct CSRegShare_info_t`.
pub record RegShare : Type 0 where
  pub gw_id : ℕ
  pub id : ℕ
  pub reg : ℕ
  pub channel : RegChannel
  pub arg : CallbackArg

-- The callback is the function at `func`, with the address of the object's `arg`.
pub create : Rx → ℕ → ℕ → ℕ → RegChannel → Callback → RegShare × Rx
create rx gw_id id reg channel cb = (
  record {
    gw_id = gw_id;
    id = id;
    reg = reg;
    channel = channel;
    arg = record { is_revers = false; len = λ i. 0; buff = λ i. replicate 4 0 };
  },
  bind_reg rx gw_id id reg cb channel,
)

pub close : Rx → RegShare → Callback → Rx
close rx obj cb = close_reg rx obj.gw_id obj.id obj.reg cb obj.channel

-- The mode is set on the user's channel only; otherwise an error is logged and nothing is sent.
pub share_mode_interval :
    Rx → Tx → RegShare → ℕ → Callback → (ℕ → Wait) → List ℕ → Option (Rx × Tx × Bool)
share_mode_interval rx tx obj ms cb waits stack = elim obj.channel [
  | user ↦ some (set_mode_interval rx tx obj.gw_id obj.id obj.reg ms obj.channel cb waits stack)
  | system ↦ none
]

pub share_mode_request :
    Rx → Tx → RegShare → Callback → (ℕ → Wait) → List ℕ → Option (Rx × Tx × Bool)
share_mode_request rx tx obj cb waits stack = elim obj.channel [
  | user ↦ some (set_mode_request rx tx obj.gw_id obj.id obj.reg obj.channel cb waits stack)
  | system ↦ none
]

pub share_request : Tx → RegShare → List ℕ → Tx
share_request tx obj stack = request_once tx obj.gw_id obj.id obj.reg obj.channel stack

pub get : CallbackArg → Data
get arg = record { type = arg.len arg.is_revers; bytes = arg.buff arg.is_revers }

abbrev same : Bool → Bool → Bool
same a b = if a then b else not b

-- The three assignments of the callback, in order, on the buffer `next`.
pub write_len : Bool → ℕ → CallbackArg → CallbackArg
write_len next len arg = record arg { len = λ i. if same i next then len else arg.len i }

pub write_buff : Bool → List ℕ → CallbackArg → CallbackArg
write_buff next bytes arg = record arg {
  buff = λ i. if same i next then take 4 bytes else arg.buff i;
}

pub turn_over : Bool → CallbackArg → CallbackArg
turn_over next arg = record arg { is_revers = next }

-- The assignments in order, each on the state that the one before it left.
pub assignments : CallbackArg → ℕ → List ℕ → List (CallbackArg → CallbackArg)
unfolding write_len write_buff turn_over
assignments arg len bytes =
    let next = not arg.is_revers in write_len next len ∷ write_buff next bytes ∷ turn_over next ∷ []

abbrev pub run : List (CallbackArg → CallbackArg) → CallbackArg → CallbackArg
run [] arg = arg
run (f ∷ fs) arg = run fs (f arg)

pub callback : CallbackArg → ℕ → List ℕ → CallbackArg
unfolding assignments
callback arg len bytes = run (assignments arg len bytes) arg
