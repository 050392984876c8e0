-- ===== src/Can/Callbacks/Close.antt =====
-- What `CSRx_callbackListClose` of pkg/can_smbus/src/core/io/cs_rx.c takes out of a list.
pub mod Last
use rmm_2023_pre.Common.{
  ℕ, zero, suc, ◌+◌, ◌-◌, ◌≤◌, ◌<◌, ◌≡◌, ◌≢◌, refl, sym, ap, ◌∙◌, ◌⊎◌, inl, inr, Bool, true, false,
  List, [], ◌∷◌, ◌++◌, Option, none, some, ◌&&◌, ◌||◌, ◌==◌, ltb, if◌then◌else◌, length, get_elem?,
  set, take, arith, Bool-cases, Option-cases, length-append,
}
use rmm_2023_pre.Can.Callbacks.{
  Callback, is_callback, copy_down, push_loop, remove_at, close_loop, list_close,
}

abbrev erase_at : ℕ → List Callback → List Callback
erase_at i [] = []
erase_at zero (x ∷ xs) = xs
erase_at (suc i) (x ∷ xs) = x ∷ erase_at i xs

copy_down-suc :
    (i : ℕ) (x : Callback) (xs : List Callback) → copy_down (suc i) (x ∷ xs) ≡ x ∷ copy_down i xs
unfolding copy_down
copy_down-suc i x xs =
    let e : suc i + 1 ≡ suc (i + 1) = omega arith in
    elim (Option-cases (get_elem? xs (i + 1))) [
      | inl n ↦ rw (e, copy_down, n)
      | inr (c, s) ↦ rw (e, copy_down, s)
    ]

push_loop-suc :
    (n i : ℕ) (x : Callback) (xs : List Callback)
    → push_loop n (suc i) (x ∷ xs) ≡ x ∷ push_loop n i xs
unfolding push_loop
push_loop-suc zero i x xs = refl
push_loop-suc (suc n) i x xs =
    let e : suc i + 1 ≡ suc (i + 1) = omega arith in
    rw (e, copy_down-suc i x xs) (push_loop-suc n (i + 1) x (copy_down i xs))

take-push_loop :
    (x : Callback) (xs : List Callback) → take (length xs) (push_loop (length xs) 0 (x ∷ xs)) ≡ xs
unfolding push_loop copy_down
take-push_loop x [] = refl
take-push_loop x (y ∷ ys) =
    rw (push_loop-suc (length ys) 0 y (y ∷ ys)) (ap (λ t. y ∷ t) (take-push_loop y ys))

-- Shifting the tail down by one place and dropping the last cell erases one item.
remove_at-erase_at : (i : ℕ) (xs : List Callback) → i < length xs → remove_at i xs ≡ erase_at i xs
unfolding remove_at
remove_at-erase_at i [] h = elim h [ ]
remove_at-erase_at zero (x ∷ xs) h =
    let e : suc (length xs) - 1 ≡ length xs = omega arith in rw e (take-push_loop x xs)
remove_at-erase_at (suc i) (x ∷ []) h = absurd (omega arith)
remove_at-erase_at (suc i) (x ∷ y ∷ ys) h =
    let xs = y ∷ ys in
    let e : suc (length xs) - 1 ≡ suc (length xs - 1) = omega arith in
    let e' : suc (length xs) - (suc i + 1) ≡ length xs - (i + 1) = omega arith in
    rw (e, e', push_loop-suc (length xs - (i + 1)) i x xs)
      (ap (λ t. x ∷ t) (remove_at-erase_at i xs (omega arith)))

get_elem?_lt : (i : ℕ) (xs : List Callback) {c : Callback} → get_elem? xs i ≡ some c → i < length xs
get_elem?_lt i [] h = cc
get_elem?_lt zero (x ∷ xs) h = omega arith
get_elem?_lt (suc i) (x ∷ xs) h = omega (arith, get_elem?_lt i xs h)

close_loop_end :
    (f : ℕ) (cb : Callback) (i : ℕ) (xs : List Callback) (hit : Bool)
    → get_elem? xs i ≡ none
    → close_loop (suc f) cb i xs hit ≡ (xs, hit)
unfolding close_loop
close_loop_end f cb i xs hit n = rw (n, close_loop)

close_loop_hit :
    (f : ℕ) (cb : Callback) (i : ℕ) (xs : List Callback) (hit : Bool) (c : Callback)
    → get_elem? xs i ≡ some c
    → is_callback c cb ≡ true
    → close_loop (suc f) cb i xs hit ≡ close_loop f cb (i + 1) (erase_at i xs) true
unfolding close_loop
close_loop_hit f cb i xs hit c s m =
    rw (s, close_loop, m, remove_at-erase_at i xs (get_elem?_lt i xs s))

close_loop_miss :
    (f : ℕ) (cb : Callback) (i : ℕ) (xs : List Callback) (hit : Bool) (c : Callback)
    → get_elem? xs i ≡ some c
    → is_callback c cb ≡ false
    → close_loop (suc f) cb i xs hit ≡ close_loop f cb (i + 1) xs hit
unfolding close_loop
close_loop_miss f cb i xs hit c s m = rw (s, close_loop, m)

abbrev cons_to : Callback → List Callback × Bool → List Callback × Bool
cons_to x r = (x ∷ r.0, r.1)

-- The loop leaves alone what it has passed.
close_loop-suc :
    (f : ℕ) (cb : Callback) (i : ℕ) (x : Callback) (xs : List Callback) (hit : Bool)
    → close_loop f cb (suc i) (x ∷ xs) hit ≡ cons_to x (close_loop f cb i xs hit)
close_loop-suc zero cb i x xs hit = unfold close_loop in refl
close_loop-suc (suc f) cb i x xs hit = elim (Option-cases (get_elem? xs i)) [
  | inl n ↦ rw (close_loop_end f cb (suc i) (x ∷ xs) hit n, close_loop_end f cb i xs hit n)
  | inr (c, s) ↦
      let e : suc i + 1 ≡ suc (i + 1) = omega arith in
      elim (Bool-cases (is_callback c cb)) [
        | inl m ↦ rw (
          close_loop_hit f cb (suc i) (x ∷ xs) hit c s m,
          close_loop_hit f cb i xs hit c s m,
          e,
          close_loop-suc f cb (i + 1) x (erase_at i xs) true,
        )
        | inr m ↦ rw (
          close_loop_miss f cb (suc i) (x ∷ xs) hit c s m,
          close_loop_miss f cb i xs hit c s m,
          e,
          close_loop-suc f cb (i + 1) x xs hit,
        )
      ]
]

-- What the loop keeps: it takes a match out and passes over the item behind it.
unfoldable pub keep : Callback → List Callback → List Callback
keep cb [] = []
keep cb (x ∷ []) = if is_callback x cb then [] else x ∷ []
keep cb (x ∷ y ∷ ys) = elim (is_callback x cb) [
  | true ↦ y ∷ keep cb ys
  | false ↦ x ∷ keep cb (y ∷ ys)
]

unfoldable pub contains : Callback → List Callback → Bool
contains cb [] = false
contains cb (x ∷ xs) = is_callback x cb || contains cb xs

close_loop-keep :
    (f : ℕ) (cb : Callback) (xs : List Callback) (hit : Bool)
    → length xs ≤ f
    → close_loop f cb 0 xs hit ≡ (keep cb xs, contains cb xs || hit)
unfolding keep contains
close_loop-keep zero cb [] hit h = unfold close_loop in refl
close_loop-keep (suc f) cb [] hit h = unfold close_loop in refl
close_loop-keep zero cb (x ∷ xs) hit h = absurd (omega arith)
close_loop-keep (suc f) cb (x ∷ []) hit h = elim (Bool-cases (is_callback x cb)) [
  | inl m ↦ rw (close_loop_hit f cb 0 (x ∷ []) hit x refl m, m, at_end f cb [] true refl)
  | inr m ↦ rw (close_loop_miss f cb 0 (x ∷ []) hit x refl m, m, at_end f cb (x ∷ []) hit refl)
]
  where
    at_end :
        (f : ℕ) (cb : Callback) (xs : List Callback) (hit : Bool)
        → get_elem? xs 1 ≡ none
        → close_loop f cb 1 xs hit ≡ (xs, hit)
    at_end zero cb xs hit n = unfold close_loop in refl
    at_end (suc f) cb xs hit n = close_loop_end f cb 1 xs hit n
close_loop-keep (suc f) cb (x ∷ y ∷ ys) hit h = elim (Bool-cases (is_callback x cb)) [
  | inl m ↦
      rw
        (
          close_loop_hit f cb 0 (x ∷ y ∷ ys) hit x refl m,
          close_loop-suc f cb 0 y ys true,
          close_loop-keep f cb ys true (omega arith),
          m,
        )
        (ground arith)
  | inr m ↦
      rw
        (
          close_loop_miss f cb 0 (x ∷ y ∷ ys) hit x refl m,
          close_loop-suc f cb 0 x (y ∷ ys) hit,
          close_loop-keep f cb (y ∷ ys) hit (omega arith),
          m,
        )
        (ground arith)
]

-- The callbacks of a list that are not the given one.
unfoldable pub others : Callback → List Callback → List Callback
others cb [] = []
others cb (x ∷ xs) = if is_callback x cb then others cb xs else x ∷ others cb xs

-- No two registrations of the callback stand side by side.
abbrev pub NoRepeat : Callback → List Callback → Type 0
NoRepeat cb [] = Unit
NoRepeat cb (x ∷ []) = Unit
NoRepeat cb (x ∷ y ∷ ys) = (is_callback x cb && is_callback y cb ≡ false) × NoRepeat cb (y ∷ ys)

others-keep : (cb : Callback) (xs : List Callback) → others cb (keep cb xs) ≡ others cb xs
unfolding others keep
others-keep cb [] = refl
others-keep cb (x ∷ []) = ground arith
others-keep cb (x ∷ y ∷ ys) = ground (arith, others-keep cb ys, others-keep cb (y ∷ ys))

NoRepeat-tail :
    (cb : Callback) (y : Callback) (ys : List Callback) → NoRepeat cb (y ∷ ys) → NoRepeat cb ys
NoRepeat-tail cb y [] h = tt
NoRepeat-tail cb y (z ∷ zs) h = h.1

keep-others : (cb : Callback) (xs : List Callback) → NoRepeat cb xs → keep cb xs ≡ others cb xs
unfolding others keep
keep-others cb [] h = refl
keep-others cb (x ∷ []) h = ground arith
keep-others cb (x ∷ y ∷ ys) h =
    ground (arith, keep-others cb ys (NoRepeat-tail cb y ys h.1), keep-others cb (y ∷ ys) h.1)

-- Whatever the list, closing tells whether the callback was in it, and leaves the others in order.
pub list_close-others :
    (cb : Callback) (list : List Callback)
    → ((list_close list cb).1 ≡ contains cb list)
      × (others cb (list_close list cb).0 ≡ others cb list)
unfolding list_close
list_close-others cb list =
    rw (close_loop-keep (length list) cb list false (omega arith))
      (ground arith, others-keep cb list)

-- If the callback is not twice side by side in a list, closing takes every one of it out, leaves
-- the others in order, and tells whether there was one.
pub list_close_lem :
    (cb : Callback) (list : List Callback)
    → NoRepeat cb list
    → ((list_close list cb).0 ≡ others cb list) × ((list_close list cb).1 ≡ contains cb list)
unfolding list_close
list_close_lem cb list h =
    rw (close_loop-keep (length list) cb list false (omega arith))
      (keep-others cb list h, ground arith)

pub is_callback_self : (cb : Callback) → is_callback cb cb ≡ true
unfolding is_callback
is_callback_self cb = ground arith

-- Of two registrations of a callback side by side at the start of a list, closing leaves one, and
-- does to the rest what it does to the rest alone.
pub list_close_repeat :
    (cb : Callback) (rest : List Callback)
    → (list_close (cb ∷ cb ∷ rest) cb).0 ≡ cb ∷ (list_close rest cb).0
unfolding list_close keep
list_close_repeat cb rest = rw (
  close_loop-keep (length (cb ∷ cb ∷ rest)) cb (cb ∷ cb ∷ rest) false (omega arith),
  close_loop-keep (length rest) cb rest false (omega arith),
  keep,
  is_callback_self cb,
)

pub list_close-nil : (cb : Callback) → list_close [] cb ≡ ([], false)
unfolding list_close close_loop
list_close-nil cb = refl
