-- ===== src/Can/Signal/Fifo.antt =====
-- The order in which a reader of pkg/can_smbus/src/core/cs_reg_signal.c gets the frames.
use rmm_2023_pre.Common.{
  ℕ, ◌≤◌, ◌≡◌, refl, ap, ◌∙◌, true, List, [], ◌∷◌, ◌++◌, Option, none, some, ◌==◌, leb,
  if◌then◌else◌, take, drop, replicate, arith, Bool-cases, inl, inr,
}
use rmm_2023_pre.Std.Queue
use rmm_2023_pre.Std.Queue.{Queue}
use rmm_2023_pre.Std.Queue.Inv.{IsValid, init-IsValid, add-IsValid, get-IsValid, max-add, max-get}
use rmm_2023_pre.Std.Queue.Refine.{contents, contents-add, get-Deque, init-contents, max-init}
use rmm_2023_pre.Std.Queue.Deque
use rmm_2023_pre.Can.Data.{Data}
use rmm_2023_pre.Can.Signal.{blank_data, new_ring, receive_data, callback, arrive, take_data, wait}

-- The data in the ring, oldest first.
abbrev pub pending : Queue Data → List Data
pending = contents blank_data

pub record IsRing8 (q : Queue Data) : Type 0 where
  pub valid : IsValid q
  pub room_8 : q.max_count ≡ 8

pub new_ring-IsRing8 : IsRing8 new_ring × (pending new_ring ≡ [])
unfolding new_ring
new_ring-IsRing8 =
    let cells = replicate 8 blank_data in
    (
      record {
        valid = init-IsValid blank_data 5 8 cells (omega arith) (omega arith) refl;
        room_8 = max-init blank_data blank_data 5 8 cells;
      },
      init-contents blank_data blank_data 5 8 cells,
    )

-- The data of a call whose length is at most four.
abbrev pub data_of : ℕ × List ℕ × List ℕ → Data
data_of a = record { type = a.0; bytes = take a.0 a.1 ++ drop a.0 a.2 }

abbrev pub AllShort : List (ℕ × List ℕ × List ℕ) → Type 0
AllShort [] = Unit
AllShort (a ∷ rest) = (a.0 ≤ 4) × AllShort rest

-- The last eight of what was pending and what arrived.
unfoldable pub after : List Data → List (ℕ × List ℕ × List ℕ) → List Data
after ds [] = ds
after ds (a ∷ rest) = after (Deque.push_back 8 ds (data_of a)) rest

callback-short :
    (q : Queue Data) (a : ℕ × List ℕ × List ℕ)
    → a.0 ≤ 4
    → callback q a.0 a.1 a.2 ≡ some (Queue.add q (data_of a))
unfolding callback receive_data
callback-short q a h = let short : leb a.0 4 ≡ true = ground (arith, h) in rw (callback, short) refl

-- Calls with lengths of at most four are all taken, the oldest data giving way to the ninth.
pub arrive_refines :
    (q : Queue Data) (arrivals : List (ℕ × List ℕ × List ℕ))
    → IsRing8 q
    → AllShort arrivals
    → (q' : Queue Data) × (arrive q arrivals ≡ some q')
      × IsRing8 q'
      × (pending q' ≡ after (pending q) arrivals)
unfolding arrive after
arrive_refines q [] r h = (q, refl, r, refl)
arrive_refines q (a ∷ rest) r h =
    let d = data_of a in
    let r' : IsRing8 (Queue.add q d) = record {
      valid = add-IsValid d r.valid;
      room_8 = max-add d r.valid ∙ r.room_8;
    } in
    let more = arrive_refines (Queue.add q d) rest r' h.1 in
    let step : pending (Queue.add q d) ≡ Deque.push_back 8 (pending q) d =
      contents-add blank_data d r.valid ∙ ap (λ n. Deque.push_back n (pending q) d) r.room_8 in
    (
      more.0,
      rw (arrive, callback-short q a h.0) more.1,
      more.2,
      more.3 ∙ ap (λ ds. after ds rest) step,
    )

-- What a reader gets of the data that is pending, and what is left: zero data if none is.
abbrev pub first_or_blank : List Data → Data
first_or_blank [] = blank_data
first_or_blank (d ∷ ds) = d

take_data_lem :
    (q : Queue Data)
    → IsRing8 q
    → ((take_data q).0 ≡ first_or_blank (pending q))
      × IsRing8 (take_data q).1
      × (pending (take_data q).1 ≡ Deque.tail (pending q))
unfolding take_data Deque.head?
take_data_lem q r =
    let g = get-Deque blank_data r.valid in
    (
      first (Queue.get q).0 (pending q) g.0,
      record { valid = get-IsValid r.valid; room_8 = max-get q ∙ r.room_8 },
      g.1,
    )
  where
    first :
        (o : Option Data) (ds : List Data)
        → o ≡ Deque.head? ds
        → elim o [ none ↦ blank_data | some d ↦ d ] ≡ first_or_blank ds
    first o [] e = rw e refl
    first o (d ∷ ds) e = rw e refl

-- A reader waits only if nothing is pending. It gets the oldest data that is pending then, and the
-- rest stays in order; if nothing comes in time, it gets data of length and bytes zero. The ring is
-- a valid one of eight places, and the lengths that arrive are at most four.
pub wait_lem :
    (q : Queue Data) (arrivals : List (ℕ × List ℕ × List ℕ))
    → IsRing8 q
    → AllShort arrivals
    → let ds = if q.count == 0 then after (pending q) arrivals else pending q in
      (r : Data × Queue Data) × (wait q arrivals ≡ some r)
      × (r.0 ≡ first_or_blank ds)
      × IsRing8 r.1
      × (pending r.1 ≡ Deque.tail ds)
unfolding wait
wait_lem q arrivals r h =
    let a = arrive_refines q arrivals r h in
    let t = take_data_lem a.0 a.2 in
    let u = take_data_lem q r in
    elim (Bool-cases (q.count == 0)) [
      | inl e ↦ (
        take_data a.0,
        rw (e, a.1) refl,
        rw e (t.0 ∙ ap first_or_blank a.3),
        t.1,
        rw e (t.2 ∙ ap Deque.tail a.3),
      )
      | inr e ↦ (take_data q, rw e refl, rw e u.0, u.1, rw e u.2)
    ]
