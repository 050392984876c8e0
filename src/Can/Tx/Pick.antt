-- ===== src/Can/Tx/Pick.antt =====
-- The picking of a pack in pkg/can_smbus/src/core/io/cs_tx.c, on the sequences that the rings stand
-- for.
use rmm_2023_pre.Common.{
  ℕ, zero, suc, ◌%◌, ◌^◌, ◌≤◌, ◌≡◌, refl, sym, ap, ap₂, ◌∙◌, inl, inr, true, false, List, [], ◌∷◌,
  ◌++◌, some, ◌&&◌, ltb, if◌then◌else◌, length, arith, Bool-cases,
}
use rmm_2023_pre.Can.Types.{Frame}
use rmm_2023_pre.Std.Queue
use rmm_2023_pre.Std.Queue.{Queue}
use rmm_2023_pre.Std.Queue.Inv.{IsValid, add-IsValid, get-IsValid, max-add, max-get}
use rmm_2023_pre.Std.Queue.Refine.{contents-add, get-Deque}
use rmm_2023_pre.Std.Queue.Deque
use rmm_2023_pre.Can.Tx.{Picking, blank_frame, new_queue, is_taken, place, pick_loop, pick}
use rmm_2023_pre.Can.Tx.Rings.{frames, length-frames, new_queue-IsValid}
use rmm_2023_pre.Can.Tx.Restore.{restore_list, restore_loop_refines}

-- The loop on sequences: what is left of the queue, the skipped frames, and the pack.
pub record Picked : Type 0 where
  pub left : List Frame
  pub skipped : List Frame
  pub sent : List Frame

unfoldable pub pick_list : List Frame → List Frame → List Frame → Picked
pick_list [] skipped sent = record { left = []; skipped = skipped; sent = sent }
pick_list (f ∷ fs) skipped sent = elim (ltb (length sent) 4) [
  | true ↦ elim (is_taken f.id sent) [
    | true ↦ pick_list fs (Deque.push_back 16 skipped f) sent
    | false ↦ pick_list fs skipped (sent ++ (f ∷ []))
  ]
  | false ↦ record { left = f ∷ fs; skipped = skipped; sent = sent }
]

abbrev view : Picking → Picked
view p = record { left = frames p.queue; skipped = frames p.skip_queue; sent = p.sent }

record IsReady (p : Picking) (n : ℕ) : Type 0 where
  queue_valid : IsValid p.queue
  skip_valid : IsValid p.skip_queue
  queue_max : p.queue.max_count ≡ n
  skip_max : p.skip_queue.max_count ≡ 16

place-IsReady :
    (f : Frame) (p : Picking) (n : ℕ) → IsReady p n → IsReady (place f (Queue.get p.queue).1 p) n
unfolding place
place-IsReady f p n r = elim (Bool-cases (is_taken f.id p.sent)) [
  | inl t ↦ rw t (record {
    queue_valid = get-IsValid r.queue_valid;
    skip_valid = add-IsValid f r.skip_valid;
    queue_max = max-get p.queue ∙ r.queue_max;
    skip_max = max-add f r.skip_valid ∙ r.skip_max;
  })
  | inr t ↦ rw t (record {
    queue_valid = get-IsValid r.queue_valid;
    skip_valid = r.skip_valid;
    queue_max = max-get p.queue ∙ r.queue_max;
    skip_max = r.skip_max;
  })
]

pick_loop_step :
    (fuel : ℕ) (p : Picking) (f : Frame)
    → ltb 0 p.queue.count ≡ true
    → ltb (length p.sent) 4 ≡ true
    → (Queue.get p.queue).0 ≡ some f
    → pick_loop (suc fuel) p ≡ pick_loop fuel (place f (Queue.get p.queue).1 p)
unfolding pick_loop
pick_loop_step fuel p f c s g = rw (pick_loop, c, s, g)

pick_loop_stop :
    (fuel : ℕ) (p : Picking)
    → ltb 0 p.queue.count && ltb (length p.sent) 4 ≡ false
    → pick_loop fuel p ≡ p
unfolding pick_loop
pick_loop_stop zero p e = refl
pick_loop_stop (suc fuel) p e = rw (pick_loop, e)

abbrev pick_next : Frame → List Frame → Picking → Picked
pick_next f fs p =
    if is_taken f.id p.sent
    then pick_list fs (Deque.push_back 16 (frames p.skip_queue) f) p.sent
    else pick_list fs (frames p.skip_queue) (p.sent ++ (f ∷ []))

place_view :
    (f : Frame) (fs : List Frame) (p : Picking) (n : ℕ)
    → IsReady p n
    → (let q = place f (Queue.get p.queue).1 p in pick_list fs (frames q.skip_queue) q.sent)
      ≡ pick_next f fs p
unfolding place
place_view f fs p n r = elim (Bool-cases (is_taken f.id p.sent)) [
  | inl t ↦ rw (t, contents-add blank_frame f r.skip_valid, r.skip_max)
  | inr t ↦ rw t
]

place_queue : (f : Frame) (q : Queue Frame) (p : Picking) → (place f q p).queue ≡ q
unfolding place
place_queue f q p = ground arith

pick_list_step :
    (f : Frame) (fs skipped sent : List Frame)
    → ltb (length sent) 4 ≡ true
    → (if is_taken f.id sent
        then pick_list fs (Deque.push_back 16 skipped f) sent
        else pick_list fs skipped (sent ++ (f ∷ [])))
      ≡ pick_list (f ∷ fs) skipped sent
unfolding pick_list
pick_list_step f fs skipped sent s = ground arith

pick_list_stop :
    (f : Frame) (fs skipped sent : List Frame)
    → ltb (length sent) 4 ≡ false
    → pick_list (f ∷ fs) skipped sent ≡ record { left = f ∷ fs; skipped = skipped; sent = sent }
unfolding pick_list
pick_list_stop f fs skipped sent s = ground arith

pick_loop_refines :
    (fuel : ℕ) (p : Picking) (n : ℕ) (fs : List Frame)
    → IsReady p n
    → frames p.queue ≡ fs
    → length fs ≤ fuel
    → IsReady (pick_loop fuel p) n
      × (view (pick_loop fuel p) ≡ pick_list fs (frames p.skip_queue) p.sent)
unfolding Deque.head? Deque.tail pick_list
pick_loop_refines fuel p n [] r e h =
    let c : p.queue.count ≡ 0 = sym (length-frames p.queue) ∙ ap length e in
    let s : ltb 0 p.queue.count && ltb (length p.sent) 4 ≡ false = rw c refl in
    rw (pick_loop_stop fuel p s) (r, rw (e, pick_list))
pick_loop_refines zero p n (f ∷ fs) r e h = absurd (omega arith)
pick_loop_refines (suc fuel) p n (f ∷ fs) r e h = elim (Bool-cases (ltb (length p.sent) 4)) [
  | inl s ↦
      let c : p.queue.count ≡ suc (length fs) = sym (length-frames p.queue) ∙ ap length e in
      let d = get-Deque blank_frame r.queue_valid in
      let g : (Queue.get p.queue).0 ≡ some f = d.0 ∙ ap Deque.head? e in
      let rest : frames (Queue.get p.queue).1 ≡ fs = d.1 ∙ ap Deque.tail e in
      let q = place f (Queue.get p.queue).1 p in
      let ih =
        pick_loop_refines fuel q n fs (place-IsReady f p n r)
          (ap frames (place_queue f (Queue.get p.queue).1 p) ∙ rest) (omega arith) in
      rw (pick_loop_step fuel p f (ground arith) s g)
        (ih.0, ih.1 ∙ place_view f fs p n r ∙ pick_list_step f fs (frames p.skip_queue) p.sent s)
  | inr s ↦
      let s' : ltb 0 p.queue.count && ltb (length p.sent) 4 ≡ false = ground arith in
      rw (pick_loop_stop (suc fuel) p s') (
        r,
        ap (λ t. record { left = t; skipped = frames p.skip_queue; sent = p.sent }) e
            ∙ sym (pick_list_stop f fs (frames p.skip_queue) p.sent s),
      )
]

-- What the work on one priority does to the queue and to the pack, on sequences.
abbrev pub pick_spec : ℕ → List Frame → List Frame → List Frame × List Frame
pick_spec n fs sent = let p = pick_list fs [] sent in (restore_list n p.skipped p.left, p.sent)

-- On a valid queue whose capacity divides 2^64 the two loops of `CSTx_sendThread` end with the queue
-- valid and do what `pick_spec` says.
pub pick_refines :
    (q : Queue Frame) (sent : List Frame)
    → IsValid q
    → 2 ^ 64 % q.max_count ≡ 0
    → IsValid (pick q sent).0
      × ((pick q sent).0.max_count ≡ q.max_count)
      × ((frames (pick q sent).0, (pick q sent).1) ≡ pick_spec q.max_count (frames q) sent)
unfolding pick
pick_refines q sent v d =
    let start : Picking = record { queue = q; skip_queue = new_queue 16; sent = sent } in
    let fresh = new_queue-IsValid 16 (omega arith) (omega arith) in
    let ready : IsReady start q.max_count = record {
      queue_valid = v;
      skip_valid = fresh.0;
      queue_max = refl;
      skip_max = fresh.2;
    } in
    let picked =
      pick_loop_refines q.count start q.max_count (frames q) ready refl
        (omega (arith, length-frames q)) in
    let p = pick_loop q.count start in
    let done : view p ≡ pick_list (frames q) [] sent =
      picked.1 ∙ ap (λ t. pick_list (frames q) t sent) fresh.1 in
    let restored =
      restore_loop_refines p.skip_queue.count p.skip_queue p.queue q.max_count (frames p.skip_queue)
        picked.0.skip_valid picked.0.queue_valid picked.0.queue_max d refl
        (omega (arith, length-frames p.skip_queue)) in
    (
      restored.0,
      restored.1,
      ap₂ (λ a b. (a, b)) (restored.2 ∙ ap (λ t. restore_list q.max_count t.skipped t.left) done)
          (ap (λ t. t.sent) done),
    )
