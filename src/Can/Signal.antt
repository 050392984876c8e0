-- ===== src/Can/Signal.antt =====
-- pkg/can_smbus/src/core/cs_reg_signal.c: the frames of a register in a ring of eight, and a reader
-- that waits for one. What comes while it waits is an argument.
pub mod Fifo
mod Tests
use rmm_2023_pre.Common.{
  ℕ, Bool, true, false, List, [], ◌∷◌, ◌++◌, Option, none, some, ◌==◌, leb, if◌then◌else◌, take,
  drop, replicate,
}
use rmm_2023_pre.Std.Queue
use rmm_2023_pre.Std.Queue.{Queue}
use rmm_2023_pre.Can.Types.{RegChannel, system, user}
use rmm_2023_pre.Can.Callbacks.{Callback}
use rmm_2023_pre.Can.Rx.{Rx, bind_reg, close_reg}
use rmm_2023_pre.Can.Tx.{Tx}
use rmm_2023_pre.Can.Data.{Data}
use rmm_2023_pre.Can.Acks.{Wait, request_once, set_mode_request, set_mode_interval}

-- `struct CSRegSignal_data_t`: a length and four bytes. All zero is what a ring starts with.
abbrev pub blank_data : Data
blank_data = record { type = 0; bytes = replicate 4 0 }

-- `struct CSRegSignal_info_t`; the ring of its `arg`, without the lock.
pub record RegSignal : Type 0 where
  pub gw_id : ℕ
  pub id : ℕ
  pub reg : ℕ
  pub channel : RegChannel
  pub queue : Queue Data

pub new_ring : Queue Data
new_ring = Queue.init blank_data 5 8 (replicate 8 blank_data)

pub create : Rx → ℕ → ℕ → ℕ → RegChannel → Callback → RegSignal × Rx
unfolding new_ring
create rx gw_id id reg channel cb = (
  record { gw_id = gw_id; id = id; reg = reg; channel = channel; queue = new_ring },
  bind_reg rx gw_id id reg cb channel,
)

pub close : Rx → RegSignal → Callback → Rx
close rx obj cb = close_reg rx obj.gw_id obj.id obj.reg cb obj.channel

-- The mode is set on the user's channel only; otherwise an error is logged and nothing is sent.
pub signal_mode_interval :
    Rx → Tx → RegSignal → ℕ → Callback → (ℕ → Wait) → List ℕ → Option (Rx × Tx × Bool)
signal_mode_interval rx tx obj ms cb waits stack = elim obj.channel [
  | user ↦ some (set_mode_interval rx tx obj.gw_id obj.id obj.reg ms obj.channel cb waits stack)
  | system ↦ none
]

pub signal_mode_request :
    Rx → Tx → RegSignal → Callback → (ℕ → Wait) → List ℕ → Option (Rx × Tx × Bool)
signal_mode_request rx tx obj cb waits stack = elim obj.channel [
  | user ↦ some (set_mode_request rx tx obj.gw_id obj.id obj.reg obj.channel cb waits stack)
  | system ↦ none
]

pub signal_request : Tx → RegSignal → List ℕ → Tx
signal_request tx obj stack = request_once tx obj.gw_id obj.id obj.reg obj.channel stack

-- `memcpy(&receive_data.buff, data, len)`: the bytes after it stay as the stack had them. `none`: it
-- runs over the four bytes.
pub receive_data : ℕ → List ℕ → List ℕ → Option Data
receive_data len bytes stack =
    if leb len 4
    then some (record { type = len; bytes = take len bytes ++ drop len stack })
    else none

pub callback : Queue Data → ℕ → List ℕ → List ℕ → Option (Queue Data)
unfolding receive_data
callback q len bytes stack = elim (receive_data len bytes stack) [
  | none ↦ none
  | some d ↦ some (Queue.add q d)
]

-- The calls of the callback that come while the reader waits, each with its stack.
pub arrive : Queue Data → List (ℕ × List ℕ × List ℕ) → Option (Queue Data)
unfolding callback
arrive q [] = some q
arrive q (a ∷ rest) = elim (callback q a.0 a.1 a.2) [ none ↦ none | some q' ↦ arrive q' rest ]

-- `SAQueue_get` into data that is zero, and what is returned.
pub take_data : Queue Data → Data × Queue Data
take_data q = let r = Queue.get q in (elim r.0 [ none ↦ blank_data | some d ↦ d ], r.1)

-- The reader waits only if the ring is empty.
pub wait : Queue Data → List (ℕ × List ℕ × List ℕ) → Option (Data × Queue Data)
unfolding arrive take_data
wait q arrivals =
    if q.count == 0
    then elim (arrive q arrivals) [ none ↦ none | some q' ↦ some (take_data q') ]
    else some (take_data q)
