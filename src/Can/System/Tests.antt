-- ===== src/Can/System/Tests.antt =====
-- Runs and instances for pkg/can_smbus/src/core/cs_system.c and cs_manager.c.
use rmm_2023_pre.Common.{◌≡◌, refl, false, some, ◌&&◌, ltb, if◌then◌else◌}
use rmm_2023_pre.Std.Queue.Deque
use rmm_2023_pre.Can.Types.{mmaster2}
use rmm_2023_pre.Can.Tx
use rmm_2023_pre.Can.Tx.{high, queue_of}
use rmm_2023_pre.Can.Tx.Rings.{frames}
use rmm_2023_pre.Can.Tx.Frames.{priority_eq, initializer-AllRings}
use rmm_2023_pre.Can.System.{safety_turn, mmaster_reg}
use rmm_2023_pre.Can.System.Broadcasts.{mode_frame, safety_turn_lem}

third-mmaster : mmaster_reg 2 ≡ some mmaster2
unfolding mmaster_reg
third-mmaster = refl

safety_turn_lem_example : frames (queue_of high ((safety_turn false Tx.initializer).queues 1)) ≡ (
    if ltb 1 2 && priority_eq high high
    then Deque.push_back 32 (frames (queue_of high (Tx.initializer.queues 1))) (mode_frame false)
    else frames (queue_of high (Tx.initializer.queues 1)))
safety_turn_lem_example = safety_turn_lem false Tx.initializer 1 high initializer-AllRings
