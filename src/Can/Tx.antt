-- ===== src/Can/Tx.antt =====
-- pkg/can_smbus/src/core/io/cs_tx.c: the frames that wait for a gateway, and the round in which its
-- thread picks a pack of them. Each gateway has three queues of 32 frames, one for each priority.
pub mod Frames
pub mod Threads
pub mod Rings
pub mod Restore
pub mod Pick
pub mod Order
pub mod Fate
mod Tests
use rmm_2023_pre.Common.{
  ℕ, zero, suc, ◌+◌, Bool, true, false, List, [], ◌∷◌, ◌++◌, Option, none, some, ◌&&◌, ◌||◌, ◌==◌,
  ltb, if◌then◌else◌, length, get_elem?, replicate, take,
}
use rmm_2023_pre.Can.Types.{
  Frame, RegChannel, system, user, broadcast_addr, get_host_id, get_sys_reg, get_user_reg,
  get_write_reg, get_request_reg, get_writeack_reg, get_requestack_reg,
}
use rmm_2023_pre.Std.Queue
use rmm_2023_pre.Std.Queue.{Queue}

-- `CSTx_priority_t`.
pub data Priority : Type 0 where
  low normal high : Priority

-- The queues of one gateway, `queue[gw_id]`.
pub record Queues : Type 0 where
  pub low_queue : Queue Frame
  pub normal_queue : Queue Frame
  pub high_queue : Queue Frame

-- `struct CsTx_info_t`, by the number of the gateway.
pub record Tx : Type 0 where
  pub queues : ℕ → Queues

-- A frame of zero bytes, and its size in bytes.
abbrev pub blank_frame : Frame
blank_frame = record { id = 0; reg = 0; len = 0; bytes = replicate 4 0 }

abbrev pub frame_size : ℕ
frame_size = 8

pub new_queue : ℕ → Queue Frame
new_queue n = Queue.init blank_frame frame_size n (replicate n blank_frame)

pub initializer : Tx
unfolding new_queue
initializer = record {
  queues = λ gw. record {
    low_queue = new_queue 32;
    normal_queue = new_queue 32;
    high_queue = new_queue 32;
  };
}

pub queue_of : Priority → Queues → Queue Frame
queue_of low qs = qs.low_queue
queue_of normal qs = qs.normal_queue
queue_of high qs = qs.high_queue

pub with_queue : Priority → Queue Frame → Queues → Queues
with_queue low q qs = record qs { low_queue = q }
with_queue normal q qs = record qs { normal_queue = q }
with_queue high q qs = record qs { high_queue = q }

pub send_frame : Tx → ℕ → Frame → Priority → Tx
unfolding queue_of with_queue
send_frame tx gw_id frame p =
    let qs = tx.queues gw_id in
    record tx {
      queues = λ gw.
          if gw == gw_id then with_queue p (Queue.add (queue_of p qs) frame) qs else tx.queues gw;
    }

-- `memcpy(frame.data, buff, 4)`: four bytes, whatever `len` says.
abbrev pub make_frame : ℕ → ℕ → ℕ → List ℕ → Frame
make_frame id reg len buff = record { id = id; reg = reg; len = len; bytes = take 4 buff }

abbrev pub on_channel : RegChannel → ℕ → ℕ
on_channel system reg = get_sys_reg reg
on_channel user reg = get_user_reg reg

unfoldable pub send_brc : Tx → ℕ → ℕ → ℕ → List ℕ → Priority → Tx
send_brc tx gw_id reg len buff p = send_frame tx gw_id (make_frame broadcast_addr reg len buff) p

pub send_reg : Tx → ℕ → ℕ → ℕ → ℕ → List ℕ → Priority → RegChannel → Tx
send_reg tx gw_id id reg len buff p channel =
    send_frame tx gw_id
      (make_frame (get_host_id id) (on_channel channel (get_write_reg reg)) len buff) p

pub send_reg_ack : Tx → ℕ → ℕ → ℕ → ℕ → List ℕ → Priority → RegChannel → Tx
send_reg_ack tx gw_id id reg len buff p channel =
    send_frame tx gw_id
      (make_frame (get_host_id id) (on_channel channel (get_writeack_reg reg)) len buff) p

pub send_req : Tx → ℕ → ℕ → ℕ → ℕ → List ℕ → Priority → RegChannel → Tx
send_req tx gw_id id reg len buff p channel =
    send_frame tx gw_id
      (make_frame (get_host_id id) (on_channel channel (get_request_reg reg)) len buff) p

pub send_req_ack : Tx → ℕ → ℕ → ℕ → ℕ → List ℕ → Priority → RegChannel → Tx
send_req_ack tx gw_id id reg len buff p channel =
    send_frame tx gw_id
      (make_frame (get_host_id id) (on_channel channel (get_requestack_reg reg)) len buff) p

-- The search of `send_pack.data` for a frame to the same identifier.
pub is_taken : ℕ → List Frame → Bool
is_taken id [] = false
is_taken id (f ∷ sent) = id == f.id || is_taken id sent

-- What the thread works on: the queue of a priority, the queue of the frames that it skips, and the
-- frames of the pack, `send_counter` of them.
pub record Picking : Type 0 where
  pub queue : Queue Frame
  pub skip_queue : Queue Frame
  pub sent : List Frame

-- One turn of the loop that picks, with the frame that `SAQueue_get` gave.
pub place : Frame → Queue Frame → Picking → Picking
unfolding is_taken
place f rest p =
    if is_taken f.id p.sent
    then record p { queue = rest; skip_queue = Queue.add p.skip_queue f }
    else record p { queue = rest; sent = p.sent ++ (f ∷ []) }

-- The loop: each turn takes a frame from the queue, so the frames in it bound the turns. `none` would
-- be a read outside the ring.
pub pick_loop : ℕ → Picking → Picking
unfolding place
pick_loop zero p = p
pick_loop (suc fuel) p =
    if ltb 0 p.queue.count && ltb (length p.sent) 4
    then (let r = Queue.get p.queue in
        elim r.0 [ none ↦ p | some f ↦ pick_loop fuel (place f r.1 p) ])
    else p

-- The loop that puts the skipped frames back, in front.
pub restore_loop : ℕ → Queue Frame → Queue Frame → Queue Frame
restore_loop zero skip q = q
restore_loop (suc fuel) skip q =
    if ltb 0 skip.count
    then (let r = Queue.get_raw skip in
        elim r.0 [
          | none ↦ q
          | some at ↦ elim (get_elem? r.1.ring_buffer at) [
            | none ↦ q
            | some f ↦ restore_loop fuel r.1 (Queue.add_front q f)
          ]
        ])
    else q

-- The work on one priority: the queue that is left, and the pack so far. The skip queue is empty at
-- the start of each.
pub pick : Queue Frame → List Frame → Queue Frame × List Frame
unfolding pick_loop restore_loop new_queue
pick q sent =
    let p = pick_loop q.count (record { queue = q; skip_queue = new_queue 16; sent = sent }) in
    (restore_loop p.skip_queue.count p.skip_queue p.queue, p.sent)

-- The round under the lock, priorities 2 and 1: `0 < priority` ends the loop before 0.
pub round : Queues → Queues × List Frame
round qs =
    let (high', sent) = pick qs.high_queue [] in
    let (normal', sent') = pick qs.normal_queue sent in
    (record qs { high_queue = high'; normal_queue = normal' }, sent')

-- The sum of the counts that `CSTx_sendThread` waits on while it is 0. It counts each queue.
pub all_count : Queues → ℕ
all_count qs = qs.low_queue.count + qs.normal_queue.count + qs.high_queue.count

-- The round of the thread of one gateway.
pub send_round : Tx → ℕ → Tx × List Frame
send_round tx gw_id =
    let (qs, sent) = round (tx.queues gw_id) in
    (record tx { queues = λ gw. if gw == gw_id then qs else tx.queues gw }, sent)
