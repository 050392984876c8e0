-- ===== src/Can/Tx/Restore.antt =====
-- The skipped frames of pkg/can_smbus/src/core/io/cs_tx.c, and how they go back.
use rmm_2023_pre.Common.{
  ℕ, zero, suc, ◌%◌, ◌^◌, ◌≤◌, ◌≡◌, ◌≢◌, refl, sym, ap, ◌∙◌, true, false, List, [], ◌∷◌, some, ltb,
  length, get_elem?, arith,
}
use rmm_2023_pre.Can.Types.{Frame}
use rmm_2023_pre.Std.Queue
use rmm_2023_pre.Std.Queue.{Queue}
use rmm_2023_pre.Std.Queue.Inv.{IsValid, add_front-IsValid, get-IsValid, buffer-get, max-add_front}
use rmm_2023_pre.Std.Queue.Refine.{contents-add_front, get-Deque}
use rmm_2023_pre.Std.Queue.Deque
use rmm_2023_pre.Std.Queue.Raw.{get_raw-get}
use rmm_2023_pre.Can.Tx.{blank_frame, restore_loop}
use rmm_2023_pre.Can.Tx.Rings.{frames, length-frames}

-- The skipped frames go back one by one, each in front of the others.
unfoldable pub restore_list : ℕ → List Frame → List Frame → List Frame
restore_list n [] fs = fs
restore_list n (f ∷ skipped) fs = restore_list n skipped (Deque.push_front n fs f)

restore_loop_stop :
    (fuel : ℕ) (skip q : Queue Frame) → ltb 0 skip.count ≡ false → restore_loop fuel skip q ≡ q
unfolding restore_loop
restore_loop_stop zero skip q e = refl
restore_loop_stop (suc fuel) skip q e = rw (restore_loop, e)

restore_loop_step :
    (fuel : ℕ) (skip q : Queue Frame) (f : Frame)
    → skip.count ≢ 0
    → (Queue.get skip).0 ≡ some f
    → restore_loop (suc fuel) skip q ≡ restore_loop fuel (Queue.get skip).1 (Queue.add_front q f)
unfolding restore_loop
restore_loop_step fuel skip q f c g =
    let c' : ltb 0 skip.count ≡ true = ground arith in
    let raw = get_raw-get skip in
    let at = (raw.2 c).0 in
    let cell : get_elem? skip.ring_buffer skip.next_read ≡ some f = sym (raw.2 c).1 ∙ g in
    rw (restore_loop, c', at, raw.0, buffer-get skip, cell, raw.0)

pub restore_loop_refines :
    (fuel : ℕ) (skip q : Queue Frame) (n : ℕ) (fs : List Frame)
    → IsValid skip
    → IsValid q
    → q.max_count ≡ n
    → 2 ^ 64 % n ≡ 0
    → frames skip ≡ fs
    → length fs ≤ fuel
    → IsValid (restore_loop fuel skip q)
      × ((restore_loop fuel skip q).max_count ≡ n)
      × (frames (restore_loop fuel skip q) ≡ restore_list n fs (frames q))
unfolding restore_list Deque.head? Deque.tail
restore_loop_refines fuel skip q n [] v w m d e h =
    let c : skip.count ≡ 0 = sym (length-frames skip) ∙ ap length e in
    let s : ltb 0 skip.count ≡ false = rw c refl in
    rw (restore_loop_stop fuel skip q s) (w, m, refl)
restore_loop_refines zero skip q n (f ∷ fs) v w m d e h = absurd (omega arith)
restore_loop_refines (suc fuel) skip q n (f ∷ fs) v w m d e h =
    let c : skip.count ≡ suc (length fs) = sym (length-frames skip) ∙ ap length e in
    let g = get-Deque blank_frame v in
    let d' : 2 ^ 64 % q.max_count ≡ 0 = rw m d in
    let ih =
      restore_loop_refines fuel (Queue.get skip).1 (Queue.add_front q f) n fs (get-IsValid v)
        (add_front-IsValid f d' w) (max-add_front f w ∙ m) d (g.1 ∙ ap Deque.tail e)
        (omega arith) in
    rw (restore_loop_step fuel skip q f (omega arith) (g.0 ∙ ap Deque.head? e)) (
      ih.0,
      ih.1,
      ih.2
          ∙ ap (restore_list n fs)
              (contents-add_front blank_frame f d' w ∙ ap (λ k. Deque.push_front k (frames q) f) m),
    )
