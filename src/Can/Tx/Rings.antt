-- ===== src/Can/Tx/Rings.antt =====
-- The rings of pkg/can_smbus/src/core/io/cs_tx.c as the frames that they hold.
use rmm_2023_pre.Common.{
  ℕ, ◌^◌, ◌≤◌, ◌<◌, ◌≡◌, List, [], length, replicate, length-replicate, length-tabulate,
}
use rmm_2023_pre.Can.Types.{Frame}
use rmm_2023_pre.Std.Queue.{Queue}
use rmm_2023_pre.Std.Queue.Inv.{IsValid, init-IsValid}
use rmm_2023_pre.Std.Queue.Refine.{contents, init-contents, max-init}
use rmm_2023_pre.Can.Tx.{blank_frame, new_queue}

abbrev pub frames : Queue Frame → List Frame
frames = contents blank_frame

pub length-frames : (q : Queue Frame) → length (frames q) ≡ q.count
length-frames q = length-tabulate q.count _

pub new_queue-IsValid :
    (n : ℕ)
    → 0 < n
    → n ≤ 2 ^ 32
    → IsValid (new_queue n) × (frames (new_queue n) ≡ []) × ((new_queue n).max_count ≡ n)
unfolding new_queue
new_queue-IsValid n h k =
    let cells = replicate n blank_frame in
    (
      init-IsValid blank_frame 8 n cells h k (length-replicate n blank_frame),
      init-contents blank_frame blank_frame 8 n cells,
      max-init blank_frame blank_frame 8 n cells,
    )
