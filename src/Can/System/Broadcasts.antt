-- ===== src/Can/System/Broadcasts.antt =====
-- What the broadcasts of pkg/can_smbus/src/core/cs_system.c put into the queues.
use rmm_2023_pre.Common.{
  ℕ, zero, suc, ap₂, ◌≡◌, refl, ◌∙◌, Bool, true, false, [], ◌∷◌, ◌&&◌, ◌==◌, ltb, if◌then◌else◌,
  arith,
}
use rmm_2023_pre.Std.Queue.Deque
use rmm_2023_pre.Can.Types.{Frame, safety, unsafe, brc_code, broadcast_addr}
use rmm_2023_pre.Can.Tx.{Tx, Priority, high, queue_of, send_brc, make_frame, send_frame}
use rmm_2023_pre.Can.Tx.Rings.{frames}
use rmm_2023_pre.Can.Tx.Frames.{AllRings, priority_eq, send_frame_lem, send_frame-AllRings}
use rmm_2023_pre.Can.System.{safe_mode, unsafe_mode, safety_turn}

-- The frame of a turn: `Unsafe` with four bytes, or `Safety` with none.
abbrev pub mode_frame : Bool → Frame
mode_frame is_enable =
    if is_enable
    then make_frame broadcast_addr (brc_code unsafe) 4 (0x55 ∷ 0x4e ∷ 0x53 ∷ 0x41 ∷ [])
    else make_frame broadcast_addr (brc_code safety) 0 (0 ∷ 0 ∷ 0 ∷ 0 ∷ [])

-- The frames of one queue after one more was put into the high queue of a gateway.
two_sends :
    (tx : Tx) (f : Frame) (gw : ℕ) (p : Priority)
    → AllRings tx
    → frames (queue_of p ((send_frame (send_frame tx 0 f high) 1 f high).queues gw)) ≡ (
        if ltb gw 2 && priority_eq high p
        then Deque.push_back 32 (frames (queue_of high (tx.queues gw))) f
        else frames (queue_of p (tx.queues gw)))
two_sends tx f zero p r =
    send_frame_lem (send_frame tx 0 f high) 1 f high 0 p (send_frame-AllRings tx 0 f high r)
    ∙ send_frame_lem tx 0 f high 0 p r
two_sends tx f (suc zero) p r =
    send_frame_lem (send_frame tx 0 f high) 1 f high 1 p (send_frame-AllRings tx 0 f high r)
    ∙ ap₂ (λ u v. if priority_eq high p then Deque.push_back 32 u f else v)
        (send_frame_lem tx 0 f high 1 high r) (send_frame_lem tx 0 f high 1 p r)
two_sends tx f (suc (suc n)) p r =
    let gw = suc (suc n) in
    let a = send_frame_lem tx 0 f high gw p r in
    let b =
      send_frame_lem (send_frame tx 0 f high) 1 f high gw p (send_frame-AllRings tx 0 f high r) in
    let zero_no : gw == 0 ≡ false = ground arith in
    let one_no : gw == 1 ≡ false = ground arith in
    let out : ltb gw 2 ≡ false = ground arith in rw out (b ∙ rw one_no (a ∙ rw zero_no refl))

-- On valid rings a turn of the thread that guards the safety puts the frame of the mode last into
-- the high queues of the gateways 0 and 1, where the oldest of 32 frames gives way, and into no
-- other queue.
pub safety_turn_lem :
    (is_enable : Bool) (tx : Tx) (gw : ℕ) (p : Priority)
    → AllRings tx
    → frames (queue_of p ((safety_turn is_enable tx).queues gw)) ≡ (
        if ltb gw 2 && priority_eq high p
        then Deque.push_back 32 (frames (queue_of high (tx.queues gw))) (mode_frame is_enable)
        else frames (queue_of p (tx.queues gw)))
unfolding safety_turn safe_mode unsafe_mode send_brc
safety_turn_lem true tx gw p r = two_sends tx (mode_frame true) gw p r
safety_turn_lem false tx gw p r = two_sends tx (mode_frame false) gw p r
