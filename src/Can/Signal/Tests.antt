-- ===== src/Can/Signal/Tests.antt =====
-- Runs and instances for pkg/can_smbus/src/core/cs_reg_signal.c.
use rmm_2023_pre.Common.{ℕ, ◌≡◌, refl, List, [], ◌∷◌, none, some, ◌==◌, if◌then◌else◌, arith}
use rmm_2023_pre.Std.Queue.{Queue}
use rmm_2023_pre.Std.Queue.Deque
use rmm_2023_pre.Can.Data.{Data}
use rmm_2023_pre.Can.Signal.{new_ring, receive_data, wait}
use rmm_2023_pre.Can.Signal.Fifo.{
  pending, IsRing8, new_ring-IsRing8, after, first_or_blank, wait_lem,
}

too-long : receive_data 5 (1 ∷ 2 ∷ 3 ∷ 4 ∷ 5 ∷ []) (0 ∷ 0 ∷ 0 ∷ 0 ∷ []) ≡ none
unfolding receive_data
too-long = refl

-- Two frames, each with its length, its bytes and what the stack held.
abbrev arrivals : List (ℕ × List ℕ × List ℕ)
arrivals =
    (2, 7 ∷ 8 ∷ 0 ∷ 0 ∷ [], 0xaa ∷ 0xbb ∷ 0xcc ∷ 0xdd ∷ [])
    ∷ (1, 9 ∷ 0 ∷ 0 ∷ 0 ∷ [], 0xaa ∷ 0xbb ∷ 0xcc ∷ 0xdd ∷ [])
    ∷ []

wait_lem_example :
    let ds = if new_ring.count == 0 then after (pending new_ring) arrivals else pending new_ring in
    (r : Data × Queue Data) × (wait new_ring arrivals ≡ some r)
    × (r.0 ≡ first_or_blank ds)
    × IsRing8 r.1
    × (pending r.1 ≡ Deque.tail ds)
wait_lem_example = wait_lem new_ring arrivals new_ring-IsRing8.0 (omega arith)
