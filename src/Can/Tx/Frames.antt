-- ===== src/Can/Tx/Frames.antt =====
-- The queues of pkg/can_smbus/src/core/io/cs_tx.c in a send and in a round.
use rmm_2023_pre.Common.{
  ℕ, ◌≤◌, ◌≡◌, ◌≢◌, refl, ap, ap₂, ◌∙◌, inl, inr, Bool, true, false, List, [], ◌&&◌, ◌==◌,
  if◌then◌else◌, length, arith, Bool-cases,
}
use rmm_2023_pre.Can.Types.{Frame}
use rmm_2023_pre.Std.Queue
use rmm_2023_pre.Std.Queue.{Queue}
use rmm_2023_pre.Std.Queue.Inv.{IsValid, add-IsValid, max-add}
use rmm_2023_pre.Std.Queue.Refine.{contents-add}
use rmm_2023_pre.Std.Queue.Deque
use rmm_2023_pre.Can.Tx.{
  Tx, Queues, Priority, low, normal, high, blank_frame, initializer, queue_of, with_queue,
  send_frame, pick, round, send_round, all_count,
}
use rmm_2023_pre.Can.Tx.Rings.{frames, new_queue-IsValid}
use rmm_2023_pre.Can.Tx.Restore.{restore_list}
use rmm_2023_pre.Can.Tx.Pick.{pick_list, pick_spec, pick_refines}
use rmm_2023_pre.Can.Tx.Order.{Distinct, pick_list-Distinct}

pub record IsRing (q : Queue Frame) : Type 0 where
  pub valid : IsValid q
  pub room_32 : q.max_count ≡ 32

pub record AreRings (qs : Queues) : Type 0 where
  pub low_ring : IsRing qs.low_queue
  pub normal_ring : IsRing qs.normal_queue
  pub high_ring : IsRing qs.high_queue

abbrev pub AllRings : Tx → Type 0
AllRings tx = (gw : ℕ) → AreRings (tx.queues gw)

pub initializer-AllRings : AllRings initializer
unfolding initializer
initializer-AllRings gw =
    let fresh = new_queue-IsValid 32 (omega arith) (omega arith) in
    let ring : IsRing _ = record { valid = fresh.0; room_32 = fresh.2 } in
    record { low_ring = ring; normal_ring = ring; high_ring = ring }

add-IsRing : (q : Queue Frame) (f : Frame) → IsRing q → IsRing (Queue.add q f)
add-IsRing q f r = record { valid = add-IsValid f r.valid; room_32 = max-add f r.valid ∙ r.room_32 }

queue_of-IsRing : (p : Priority) (qs : Queues) → AreRings qs → IsRing (queue_of p qs)
unfolding queue_of
queue_of-IsRing low qs r = r.low_ring
queue_of-IsRing normal qs r = r.normal_ring
queue_of-IsRing high qs r = r.high_ring

with_queue-AreRings :
    (p : Priority) (q : Queue Frame) (qs : Queues)
    → IsRing q
    → AreRings qs
    → AreRings (with_queue p q qs)
unfolding with_queue
with_queue-AreRings low q qs h r = record {
  low_ring = h;
  normal_ring = r.normal_ring;
  high_ring = r.high_ring;
}
with_queue-AreRings normal q qs h r = record {
  low_ring = r.low_ring;
  normal_ring = h;
  high_ring = r.high_ring;
}
with_queue-AreRings high q qs h r = record {
  low_ring = r.low_ring;
  normal_ring = r.normal_ring;
  high_ring = h;
}

pub send_frame-AllRings :
    (tx : Tx) (gw_id : ℕ) (f : Frame) (p : Priority)
    → AllRings tx
    → AllRings (send_frame tx gw_id f p)
unfolding send_frame
send_frame-AllRings tx gw_id f p r gw = elim (Bool-cases (gw == gw_id)) [
  | inl e ↦ rw e (
      with_queue-AreRings p _ (tx.queues gw_id)
        (add-IsRing _ f (queue_of-IsRing p (tx.queues gw_id) (r gw_id))) (r gw_id))
  | inr e ↦ rw e (r gw)
]

pick-IsRing : (q : Queue Frame) (sent : List Frame) → IsRing q → IsRing (pick q sent).0
pick-IsRing q sent r =
    let d = pick_refines q sent r.valid (rw r.room_32 refl) in
    record { valid = d.0; room_32 = d.1 ∙ r.room_32 }

-- A round on sequences: the high queue first, then the normal one with the pack so far.
abbrev pub round_spec : List Frame → List Frame → List Frame × List Frame × List Frame
round_spec hs ns = let h = pick_spec 32 hs [] in let n = pick_spec 32 ns h.1 in (h.0, n.0, n.1)

-- On valid rings of 32 places a round ends with such rings, leaves the low queue as it is, and does
-- to the other two and to the pack what `round_spec` says on sequences.
pub round_refines :
    (qs : Queues)
    → AreRings qs
    → AreRings (round qs).0
      × ((round qs).0.low_queue ≡ qs.low_queue)
      × ((frames (round qs).0.high_queue, frames (round qs).0.normal_queue, (round qs).1)
          ≡ round_spec (frames qs.high_queue) (frames qs.normal_queue))
unfolding round
round_refines qs r =
    let h = pick_refines qs.high_queue [] r.high_ring.valid (rw r.high_ring.room_32 refl) in
    let sent = (pick qs.high_queue []).1 in
    let n = pick_refines qs.normal_queue sent r.normal_ring.valid (rw r.normal_ring.room_32 refl) in
    let hs : (frames (pick qs.high_queue []).0, sent) ≡ pick_spec 32 (frames qs.high_queue) [] =
      h.2 ∙ ap (λ m. pick_spec m (frames qs.high_queue) []) r.high_ring.room_32 in
    let ns : (frames (pick qs.normal_queue sent).0, (pick qs.normal_queue sent).1)
        ≡ pick_spec 32 (frames qs.normal_queue) (pick_spec 32 (frames qs.high_queue) []).1 =
      n.2
      ∙ ap (λ m. pick_spec m (frames qs.normal_queue) sent) r.normal_ring.room_32
      ∙ ap (λ t. pick_spec 32 (frames qs.normal_queue) t.1) hs in
    (
      record {
        low_ring = r.low_ring;
        normal_ring = pick-IsRing qs.normal_queue sent r.normal_ring;
        high_ring = pick-IsRing qs.high_queue [] r.high_ring;
      },
      refl,
      ap₂ (λ (a b : List Frame × List Frame). (a.0, b.0, b.1)) hs ns,
    )

-- A pack has at most four frames, and no two of them go to the same identifier.
pub round_pack : (qs : Queues) → AreRings qs → Distinct (round qs).1 × (length (round qs).1 ≤ 4)
round_pack qs r =
    let h = pick_list-Distinct (frames qs.high_queue) [] [] tt (omega arith) in
    let n = pick_list-Distinct (frames qs.normal_queue) [] _ h.0 h.1 in
    rw (ap (λ (t : List Frame × List Frame × List Frame). t.2) (round_refines qs r).2) n

pub send_round-AllRings : (tx : Tx) (gw_id : ℕ) → AllRings tx → AllRings (send_round tx gw_id).0
unfolding send_round
send_round-AllRings tx gw_id r gw = elim (Bool-cases (gw == gw_id)) [
  | inl e ↦ rw e (round_refines (tx.queues gw_id) (r gw_id)).0
  | inr e ↦ rw e (r gw)
]

-- On valid rings whose high and normal queues are empty, frames of the priority `low` stay where
-- they are: the thread does not wait, since the counts do not sum to 0, its pack is empty, and the
-- low queue is as before.
pub low_stuck :
    (qs : Queues)
    → AreRings qs
    → frames qs.high_queue ≡ []
    → frames qs.normal_queue ≡ []
    → qs.low_queue.count ≢ 0
    → (all_count qs ≢ 0) × ((round qs).1 ≡ []) × ((round qs).0.low_queue ≡ qs.low_queue)
unfolding all_count pick_list restore_list
low_stuck qs r h n l =
    let d = round_refines qs r in
    (
      omega arith,
      ap (λ (t : List Frame × List Frame × List Frame). t.2) d.2
          ∙ ap₂ (λ a b. (round_spec a b).2) h n,
      d.1,
    )

abbrev pub priority_eq : Priority → Priority → Bool
priority_eq low low = true
priority_eq normal normal = true
priority_eq high high = true
priority_eq _ _ = false

queue_of-with_queue :
    (p p' : Priority) (q : Queue Frame) (qs : Queues)
    → queue_of p' (with_queue p q qs) ≡ (if priority_eq p p' then q else queue_of p' qs)
unfolding queue_of with_queue
queue_of-with_queue low low q qs = refl
queue_of-with_queue low normal q qs = refl
queue_of-with_queue low high q qs = refl
queue_of-with_queue normal low q qs = refl
queue_of-with_queue normal normal q qs = refl
queue_of-with_queue normal high q qs = refl
queue_of-with_queue high low q qs = refl
queue_of-with_queue high normal q qs = refl
queue_of-with_queue high high q qs = refl

-- On valid rings a frame is queued last in the queue of its gateway and priority, where the oldest
-- of 32 frames gives way; no other queue changes.
pub send_frame_lem :
    (tx : Tx) (gw_id : ℕ) (f : Frame) (p : Priority) (gw : ℕ) (p' : Priority)
    → AllRings tx
    → frames (queue_of p' ((send_frame tx gw_id f p).queues gw)) ≡ (
        if gw == gw_id && priority_eq p p'
        then Deque.push_back 32 (frames (queue_of p (tx.queues gw_id))) f
        else frames (queue_of p' (tx.queues gw)))
unfolding send_frame
send_frame_lem tx gw_id f p gw p' r = elim (Bool-cases (gw == gw_id)) [
  | inl e ↦
      let g : gw ≡ gw_id = ground arith in
      let ring = queue_of-IsRing p (tx.queues gw_id) (r gw_id) in
      rw
        (e, queue_of-with_queue p p' (Queue.add (queue_of p (tx.queues gw_id)) f) (tx.queues gw_id))
        (elim (Bool-cases (priority_eq p p')) [
          | inl s ↦ rw (s, contents-add blank_frame f ring.valid, ring.room_32)
          | inr s ↦ rw (s, g)
        ])
  | inr e ↦ rw e
]
