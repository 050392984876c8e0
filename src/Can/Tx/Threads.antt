-- ===== src/Can/Tx/Threads.antt =====
-- The callers and the threads of pkg/can_smbus/src/core/io/cs_tx.c, in any order.
use rmm_2023_pre.Common.{ℕ, ◌≤◌, length}
use rmm_2023_pre.Can.Types.{Frame}
use rmm_2023_pre.Can.Tx.{Tx, Priority, initializer, send_frame, send_round}
use rmm_2023_pre.Can.Tx.Order.{Distinct}
use rmm_2023_pre.Can.Tx.Frames.{
  AllRings, initializer-AllRings, send_frame-AllRings, send_round-AllRings, round_pack,
}

-- What the threads do to the queues, in any order: a caller queues a frame, or the thread of a
-- gateway makes a round. The lock of the gateway makes each one step.
pub data Step : Tx → Tx → Type 0 where
  sends : (tx : Tx) (gw_id : ℕ) (f : Frame) (p : Priority) → Step tx (send_frame tx gw_id f p)
  rounds : (tx : Tx) (gw_id : ℕ) → Step tx (send_round tx gw_id).0

pub data Reach : Tx → Type 0 where
  start : Reach initializer
  next : {t u : Tx} → Reach t → Step t u → Reach u

Step-AllRings : {t u : Tx} → Step t u → AllRings t → AllRings u
Step-AllRings (sends tx gw_id f p) r = send_frame-AllRings tx gw_id f p r
Step-AllRings (rounds tx gw_id) r = send_round-AllRings tx gw_id r

-- In whatever order frames are queued and rounds are made, all rings stay valid with 32 places, and
-- the next pack of each gateway has at most four frames, to different identifiers.
pub Reach-safe :
    {tx : Tx}
    → Reach tx
    → AllRings tx
      × ((gw_id : ℕ) → Distinct (send_round tx gw_id).1 × (length (send_round tx gw_id).1 ≤ 4))
unfolding send_round
Reach-safe {tx} r = (rings r, λ gw. round_pack (tx.queues gw) (rings r gw))
  where
    rings : {t : Tx} → Reach t → AllRings t
    rings start = initializer-AllRings
    rings (next r s) = Step-AllRings s (rings r)
