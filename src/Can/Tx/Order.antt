-- ===== src/Can/Tx/Order.antt =====
-- What the picking of pkg/can_smbus/src/core/io/cs_tx.c keeps, loses and reorders, on sequences.
use mathlib.Core.List.{reverse, reverse-cons, append-nil, append_assoc}
use rmm_2023_pre.Common.{
  ℕ, ◌+◌, ◌≤◌, ◌<◌, ◌≡◌, refl, sym, ap, ◌∙◌, inl, inr, Bool, true, false, List, [], ◌∷◌, ◌++◌, ◌||◌,
  ◌==◌, ltb, if◌then◌else◌, length, length-append, arith, Bool-cases,
}
use rmm_2023_pre.Can.Types.{Frame}
use rmm_2023_pre.Std.Queue.Deque
use rmm_2023_pre.Can.Tx.{is_taken}
use rmm_2023_pre.Can.Tx.Restore.{restore_list}
use rmm_2023_pre.Can.Tx.Pick.{pick_list, pick_spec}

-- No two frames of a pack go to the same identifier.
abbrev pub Distinct : List Frame → Type 0
Distinct [] = Unit
Distinct (f ∷ fs) = (is_taken f.id fs ≡ false) × Distinct fs

is_taken-append :
    (id : ℕ) (fs : List Frame) (f : Frame)
    → is_taken id (fs ++ (f ∷ [])) ≡ is_taken id fs || id == f.id
unfolding is_taken
is_taken-append id [] f = ground arith
is_taken-append id (g ∷ fs) f = ground (arith, is_taken-append id fs f)

Distinct-append :
    (fs : List Frame) (f : Frame)
    → Distinct fs
    → is_taken f.id fs ≡ false
    → Distinct (fs ++ (f ∷ []))
unfolding is_taken
Distinct-append [] f d t = (refl, tt)
Distinct-append (g ∷ fs) f d t =
    (rw (is_taken-append g.id fs f) (ground arith), Distinct-append fs f d.1 (ground arith))

pub pick_list-Distinct :
    (fs skipped sent : List Frame)
    → Distinct sent
    → length sent ≤ 4
    → Distinct (pick_list fs skipped sent).sent × (length (pick_list fs skipped sent).sent ≤ 4)
unfolding pick_list
pick_list-Distinct [] skipped sent d l = (d, l)
pick_list-Distinct (f ∷ fs) skipped sent d l = elim (Bool-cases (ltb (length sent) 4)) [
  | inl s ↦ elim (Bool-cases (is_taken f.id sent)) [
    | inl t ↦ rw (pick_list, s, t) (pick_list-Distinct fs (Deque.push_back 16 skipped f) sent d l)
    | inr t ↦
        rw (pick_list, s, t)
          (pick_list-Distinct fs skipped (sent ++ (f ∷ [])) (Distinct-append sent f d t)
            (ground (arith, length-append sent (f ∷ []))))
  ]
  | inr s ↦ rw (pick_list, s) (d, l)
]

-- How many frames of a sequence pass a test.
unfoldable pub tally : (Frame → Bool) → List Frame → ℕ
tally test [] = 0
tally test (f ∷ fs) = (if test f then 1 else 0) + tally test fs

tally-append :
    (test : Frame → Bool) (xs ys : List Frame)
    → tally test (xs ++ ys) ≡ tally test xs + tally test ys
unfolding tally
tally-append test [] ys = omega arith
tally-append test (x ∷ xs) ys = omega (arith, tally-append test xs ys)

room-free : (n : ℕ) (fs : List Frame) → length fs < n → Deque.room n fs ≡ fs
unfolding Deque.room
room-free n fs h = ground arith

push_back-free :
    (n : ℕ) (fs : List Frame) (f : Frame) → length fs < n → Deque.push_back n fs f ≡ fs ++ (f ∷ [])
unfolding Deque.push_back
push_back-free n fs f h = rw (room-free n fs h)

push_front-free :
    (n : ℕ) (fs : List Frame) (f : Frame) → length fs < n → Deque.push_front n fs f ≡ f ∷ fs
unfolding Deque.push_front
push_front-free n fs f h = rw (room-free n fs h)

-- Frames that go back to a queue with room for them stand there in the reverse order.
pub restore_list-reverse :
    (n : ℕ) (skipped fs : List Frame)
    → length skipped + length fs ≤ n
    → restore_list n skipped fs ≡ reverse skipped ++ fs
unfolding restore_list
restore_list-reverse n [] fs h = refl
restore_list-reverse n (f ∷ skipped) fs h = rw (
  push_front-free n fs f (omega arith),
  restore_list-reverse n skipped (f ∷ fs) (omega arith),
  reverse-cons f skipped,
  append_assoc,
)

tally-restore :
    (test : Frame → Bool) (n : ℕ) (skipped fs : List Frame)
    → length skipped + length fs ≤ n
    → tally test (restore_list n skipped fs) ≡ tally test skipped + tally test fs
unfolding restore_list tally
tally-restore test n [] fs h = omega arith
tally-restore test n (f ∷ skipped) fs h =
    rw (push_front-free n fs f (omega arith)) (omega (arith, tally-restore test n skipped (f ∷ fs)))

-- The number of frames is the tally of those that pass the test `true`.
tally-pick :
    (test : Frame → Bool) (fs skipped sent : List Frame)
    → length skipped + length fs ≤ 16
    → let p = pick_list fs skipped sent in
      (tally test p.left + tally test p.skipped + tally test p.sent
        ≡ tally test fs + tally test skipped + tally test sent)
      × (length p.skipped + length p.left ≤ length skipped + length fs)
unfolding pick_list tally
tally-pick test [] skipped sent h = (omega arith, omega arith)
tally-pick test (f ∷ fs) skipped sent h = elim (Bool-cases (ltb (length sent) 4)) [
  | inl s ↦ elim (Bool-cases (is_taken f.id sent)) [
    | inl t ↦
        rw (pick_list, s, t, push_back-free 16 skipped f (omega arith))
          (omega (
            arith,
            tally-append test skipped (f ∷ []),
            length-append skipped (f ∷ []),
            tally-pick test fs (skipped ++ (f ∷ [])) sent,
          ))
    | inr t ↦
        rw (pick_list, s, t)
          (omega
            (arith, tally-append test sent (f ∷ []), tally-pick test fs skipped (sent ++ (f ∷ []))))
  ]
  | inr s ↦ rw (pick_list, s) (omega arith, omega arith)
]

-- With at most 16 frames queued no frame is lost and none is made: whatever the test, as many frames
-- pass it among those left and those picked as among those before.
pub pick_spec-keeps :
    (test : Frame → Bool) (n : ℕ) (fs sent : List Frame)
    → length fs ≤ 16
    → 16 ≤ n
    → tally test (pick_spec n fs sent).0 + tally test (pick_spec n fs sent).1
      ≡ tally test fs + tally test sent
pick_spec-keeps test n fs sent h k =
    let p = pick_list fs [] sent in
    let kept = tally-pick test fs [] sent (omega arith) in
    let none_yet : tally test [] ≡ 0 = unfold tally in refl in
    omega (arith, none_yet, kept.0, kept.1, tally-restore test n p.skipped p.left)

-- All frames go to one identifier.
abbrev pub AllTo : ℕ → List Frame → Type 0
AllTo id [] = Unit
AllTo id (f ∷ fs) = (f.id ≡ id) × AllTo id fs

abbrev skip_all : List Frame → List Frame → List Frame
skip_all skipped [] = skipped
skip_all skipped (f ∷ fs) = skip_all (Deque.push_back 16 skipped f) fs

pick_list-AllTo :
    (x : Frame) (fs skipped : List Frame)
    → AllTo x.id fs
    → pick_list fs skipped (x ∷ [])
      ≡ record { left = []; skipped = skip_all skipped fs; sent = x ∷ [] }
unfolding pick_list is_taken
pick_list-AllTo x [] skipped h = refl
pick_list-AllTo x (f ∷ fs) skipped h =
    let t : is_taken f.id (x ∷ []) ≡ true = ground arith in
    rw (pick_list, t) (pick_list-AllTo x fs (Deque.push_back 16 skipped f) h.1)

skip_all-free :
    (skipped fs : List Frame)
    → length skipped + length fs ≤ 16
    → skip_all skipped fs ≡ skipped ++ fs
skip_all-free skipped [] h = sym (append-nil skipped)
skip_all-free skipped (f ∷ fs) h = rw (push_back-free 16 skipped f (omega arith)) (
    skip_all-free (skipped ++ (f ∷ [])) fs (omega (arith, length-append skipped (f ∷ [])))
    ∙ append_assoc skipped (f ∷ []) fs)

-- Of frames to one identifier the first is picked, and up to 16 others are left in the reverse order.
pub pick_spec_reverses :
    (n : ℕ) (x : Frame) (fs : List Frame)
    → AllTo x.id fs
    → length fs ≤ 16
    → 16 ≤ n
    → pick_spec n (x ∷ fs) [] ≡ (reverse fs, x ∷ [])
unfolding pick_list is_taken
pick_spec_reverses n x fs a h k =
    rw (pick_list-AllTo x fs [] a, skip_all-free [] fs (omega arith))
      (ap (λ t. (t, x ∷ [])) (restore_list-reverse n fs [] (omega arith) ∙ append-nil (reverse fs)))

length-push_back :
    (skipped : List Frame) (f : Frame)
    → length skipped ≤ 16
    → (length (Deque.push_back 16 skipped f) ≤ 16)
      × (length skipped ≡ 16 → length (Deque.push_back 16 skipped f) ≡ 16)
      × (length skipped < 16 → length (Deque.push_back 16 skipped f) ≡ length skipped + 1)
unfolding Deque.push_back Deque.room Deque.tail
length-push_back [] f h = (omega arith, λ e. absurd (omega arith), λ e. refl)
length-push_back (g ∷ gs) f h =
    ground (arith, length-append gs (f ∷ []), length-append (g ∷ gs) (f ∷ []))

length-skip_all :
    (skipped fs : List Frame)
    → length skipped ≤ 16
    → 16 ≤ length skipped + length fs
    → length (skip_all skipped fs) ≡ 16
length-skip_all skipped [] h k = omega arith
length-skip_all skipped (f ∷ fs) h k =
    let one = length-push_back skipped f h in
    length-skip_all (Deque.push_back 16 skipped f) fs one.0 (grind (arith, one.1, one.2))

length-restore_list :
    (n : ℕ) (skipped fs : List Frame)
    → length skipped + length fs ≤ n
    → length (restore_list n skipped fs) ≡ length skipped + length fs
unfolding restore_list
length-restore_list n [] fs h = omega arith
length-restore_list n (f ∷ skipped) fs h =
    rw (push_front-free n fs f (omega arith))
      (omega (arith, length-restore_list n skipped (f ∷ fs)))

-- Of more than 16 other frames to the identifier of the first only 16 are left: the rest is lost.
pub pick_spec_loses :
    (n : ℕ) (x : Frame) (fs : List Frame)
    → AllTo x.id fs
    → 16 < length fs
    → 16 ≤ n
    → (length (pick_spec n (x ∷ fs) []).0 ≡ 16) × ((pick_spec n (x ∷ fs) []).1 ≡ x ∷ [])
unfolding pick_list is_taken
pick_spec_loses n x fs a h k =
    let left = length-skip_all [] fs (omega arith) (omega arith) in
    rw (pick_list-AllTo x fs [] a)
      (omega (arith, left, length-restore_list n (skip_all [] fs) []), refl)
