-- ===== src/Std/Queue/Deque.antt =====
-- What lib/std_api/src/sa_queue.c promises: a sequence of at most `cap` items that gives up its
-- oldest item when one more is added, at either end.
use rmm_2023_pre.Common.{ℕ, List, [], ◌∷◌, ◌++◌, Option, none, some, ◌==◌, if◌then◌else◌, length}

module _ {ℓ} {A : Type ℓ} where
  unfoldable pub tail : List A → List A
  tail [] = []
  tail (x ∷ xs) = xs

  unfoldable pub head? : List A → Option A
  head? [] = none
  head? (x ∷ xs) = some x

  unfoldable pub room : ℕ → List A → List A
  room cap xs = if length xs == cap then tail xs else xs

  unfoldable pub push_back : ℕ → List A → A → List A
  push_back cap xs x = room cap xs ++ (x ∷ [])

  unfoldable pub push_front : ℕ → List A → A → List A
  push_front cap xs x = x ∷ room cap xs

-- The calls of a client.
pub data Op {ℓ} (A : Type ℓ) : Type ℓ where
  back front : A → Op A
  take_out : Op A

module _ {ℓ} {A : Type ℓ} where
  -- What the calls of `take_out` hand over, in order.
  unfoldable pub run : ℕ → List A → List (Op A) → List (Option A)
  run cap xs [] = []
  run cap xs (back x ∷ ops) = run cap (push_back cap xs x) ops
  run cap xs (front x ∷ ops) = run cap (push_front cap xs x) ops
  run cap xs (take_out ∷ ops) = head? xs ∷ run cap (tail xs) ops
