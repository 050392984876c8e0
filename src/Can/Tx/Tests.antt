-- ===== src/Can/Tx/Tests.antt =====
-- Runs and instances for pkg/can_smbus/src/core/io/cs_tx.c.
use mathlib.Core.List.{reverse}
use rmm_2023_pre.Common.{ℕ, ◌+◌, ◌≤◌, ◌≡◌, refl, List, [], ◌∷◌, ◌==◌, length, replicate, arith}
use rmm_2023_pre.Can.Types.{Frame}
use rmm_2023_pre.Std.Queue.{Queue}
use rmm_2023_pre.Can.Tx.{
  Tx, Queues, high, blank_frame, initializer, pick, round, send_round, send_frame,
}
use rmm_2023_pre.Can.Tx.Rings.{frames}
use rmm_2023_pre.Can.Tx.Order.{tally, Distinct}
use rmm_2023_pre.Can.Tx.Frames.{IsRing, AreRings, AllRings, round_refines, round_spec}
use rmm_2023_pre.Can.Tx.Threads.{start, next, sends, rounds, Reach-safe}
use rmm_2023_pre.Can.Tx.Fate.{pick_keeps, pick_reverses}

abbrev frame_to : ℕ → ℕ → Frame
frame_to id n = record { id = id; reg = n; len = 0; bytes = 0 ∷ 0 ∷ 0 ∷ 0 ∷ [] }

-- A ring of 32 places whose first `n` cells hold the frames.
abbrev ring_of : List Frame → Queue Frame
ring_of fs = record {
  next_write = length fs;
  next_read = 0;
  count = length fs;
  max_count = 32;
  data_size = 8;
  ring_buffer = fs;
}

abbrev three_to_one : Queue Frame
three_to_one = record (ring_of []) {
  ring_buffer = frame_to 5 1 ∷ frame_to 5 2 ∷ frame_to 5 3 ∷ replicate 29 blank_frame;
  count = 3;
  next_write = 3;
}

abbrev twenty_to_one : Queue Frame
twenty_to_one = record (ring_of []) {
  ring_buffer = replicate 32 (frame_to 5 1);
  count = 20;
  next_write = 20;
}

three-IsRing : IsRing three_to_one
three-IsRing = omega arith

twenty-IsRing : IsRing twenty_to_one
twenty-IsRing = omega arith

abbrev low_only : Queues
low_only = record {
  low_queue = three_to_one;
  normal_queue = record three_to_one { count = 0; next_write = 0 };
  high_queue = record three_to_one { count = 0; next_write = 0 };
}

low_only-AreRings : AreRings low_only
low_only-AreRings = omega arith

abbrev rings_of : Queues → Tx → Tx
rings_of qs tx = record tx { queues = λ gw. qs }

round_refines_example :
    AreRings (round low_only).0
    × ((round low_only).0.low_queue ≡ low_only.low_queue)
    × ((
      frames (round low_only).0.high_queue,
      frames (round low_only).0.normal_queue,
      (round low_only).1,
    )
        ≡ round_spec (frames low_only.high_queue) (frames low_only.normal_queue))
round_refines_example = round_refines low_only low_only-AreRings

Reach-safe_example :
    AllRings (send_round (send_frame initializer 1 (frame_to 5 1) high) 1).0
    × ((gw_id : ℕ)
        → Distinct
            (send_round (send_round (send_frame initializer 1 (frame_to 5 1) high) 1).0 gw_id).1
          × (length
                (send_round (send_round (send_frame initializer 1 (frame_to 5 1) high) 1).0 gw_id).1
              ≤ 4))
Reach-safe_example = Reach-safe (
    next (next start (sends initializer 1 (frame_to 5 1) high))
      (rounds (send_frame initializer 1 (frame_to 5 1) high) 1))

pick_keeps_example :
    tally (λ f. f.reg == 2) (frames (pick three_to_one []).0)
      + tally (λ f. f.reg == 2) (pick three_to_one []).1
    ≡ tally (λ f. f.reg == 2) (frames three_to_one) + tally (λ f. f.reg == 2) []
pick_keeps_example = pick_keeps three_to_one [] (λ f. f.reg == 2) three-IsRing (omega arith)

pick_reverses_example :
    (frames (pick three_to_one []).0 ≡ reverse (frame_to 5 2 ∷ frame_to 5 3 ∷ []))
    × ((pick three_to_one []).1 ≡ frame_to 5 1 ∷ [])
pick_reverses_example =
    pick_reverses three_to_one (frame_to 5 1) (frame_to 5 2 ∷ frame_to 5 3 ∷ []) three-IsRing refl
      (omega arith) (omega arith)
