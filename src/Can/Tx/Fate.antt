-- ===== src/Can/Tx/Fate.antt =====
-- What becomes of the frames of one priority in a round of pkg/can_smbus/src/core/io/cs_tx.c.
use mathlib.Core.List.{reverse}
use rmm_2023_pre.Common.{◌+◌, ◌≤◌, ◌<◌, ◌≡◌, refl, ap, ◌∙◌, Bool, List, [], ◌∷◌, length, arith}
use rmm_2023_pre.Can.Types.{Frame}
use rmm_2023_pre.Std.Queue.{Queue}
use rmm_2023_pre.Can.Tx.{pick}
use rmm_2023_pre.Can.Tx.Rings.{frames, length-frames}
use rmm_2023_pre.Can.Tx.Pick.{pick_spec, pick_refines}
use rmm_2023_pre.Can.Tx.Order.{tally, pick_spec-keeps, AllTo, pick_spec_reverses, pick_spec_loses}
use rmm_2023_pre.Can.Tx.Frames.{IsRing}

pick_of_ring :
    (q : Queue Frame) (sent : List Frame)
    → IsRing q
    → (frames (pick q sent).0, (pick q sent).1) ≡ pick_spec 32 (frames q) sent
pick_of_ring q sent r =
    (pick_refines q sent r.valid (rw r.room_32 refl)).2
    ∙ ap (λ n. pick_spec n (frames q) sent) r.room_32

-- With at most 16 frames in a valid ring of 32 places no frame is lost and none is made up:
-- whatever the test, as many frames pass it in the ring and in the pack after the work on a
-- priority as before.
pub pick_keeps :
    (q : Queue Frame) (sent : List Frame) (test : Frame → Bool)
    → IsRing q
    → q.count ≤ 16
    → tally test (frames (pick q sent).0) + tally test (pick q sent).1
      ≡ tally test (frames q) + tally test sent
pick_keeps q sent test r h =
    ap (λ (t : List Frame × List Frame). tally test t.0 + tally test t.1) (pick_of_ring q sent r)
    ∙ pick_spec-keeps test 32 (frames q) sent (omega (arith, length-frames q)) (omega arith)

-- If a valid ring of 32 places holds frames to one identifier only, at most 17, and the pack is
-- empty, the first goes out, and the others are left in the reverse order.
pub pick_reverses :
    (q : Queue Frame) (x : Frame) (fs : List Frame)
    → IsRing q
    → frames q ≡ x ∷ fs
    → AllTo x.id fs
    → length fs ≤ 16
    → (frames (pick q []).0 ≡ reverse fs) × ((pick q []).1 ≡ x ∷ [])
pick_reverses q x fs r e a h =
    let d =
      pick_of_ring q [] r
      ∙ ap (λ t. pick_spec 32 t []) e
      ∙ pick_spec_reverses 32 x fs a h (omega arith) in
    (ap (λ (t : List Frame × List Frame). t.0) d, ap (λ (t : List Frame × List Frame). t.1) d)

-- If a valid ring of 32 places holds more than 17 frames, all to one identifier, and the pack is
-- empty, the first goes out and 16 are left: the others are lost.
pub pick_loses :
    (q : Queue Frame) (x : Frame) (fs : List Frame)
    → IsRing q
    → frames q ≡ x ∷ fs
    → AllTo x.id fs
    → 16 < length fs
    → (length (frames (pick q []).0) ≡ 16) × ((pick q []).1 ≡ x ∷ [])
pick_loses q x fs r e a h =
    let d = pick_of_ring q [] r ∙ ap (λ t. pick_spec 32 t []) e in
    let l = pick_spec_loses 32 x fs a h (omega arith) in
    (
      ap (λ (t : List Frame × List Frame). length t.0) d ∙ l.0,
      ap (λ (t : List Frame × List Frame). t.1) d ∙ l.1,
    )
