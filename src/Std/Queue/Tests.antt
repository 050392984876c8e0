-- ===== src/Std/Queue/Tests.antt =====
-- Runs and instances for lib/std_api/src/sa_queue.c.
use rmm_2023_pre.Common.{ℕ, ◌≡◌, refl, List, [], ◌∷◌, none, some, arith}
use rmm_2023_pre.Std.Queue.{Queue, init, add, add_front, get}
use rmm_2023_pre.Std.Queue.Inv.{IsValid}
use rmm_2023_pre.Std.Queue.Deque
use rmm_2023_pre.Std.Queue.Deque.{Op, back, front, take_out}
use rmm_2023_pre.Std.Queue.Refine.{contents, run, run_refines}

-- 8, then 9, round the end of four places.
abbrev wrapped : Queue ℕ
wrapped = record {
  next_write = 1;
  next_read = 3;
  count = 2;
  max_count = 4;
  data_size = 1;
  ring_buffer = 9 ∷ 6 ∷ 7 ∷ 8 ∷ [];
}

-- One item of three places.
abbrev three_places : Queue ℕ
three_places = record {
  next_write = 1;
  next_read = 0;
  count = 1;
  max_count = 3;
  data_size = 1;
  ring_buffer = 5 ∷ 0 ∷ 0 ∷ [];
}

abbrev script : List (Op ℕ)
script =
    back 1 ∷ front 2 ∷ back 3 ∷ front 4 ∷ take_out ∷ take_out ∷ take_out ∷ take_out ∷ take_out ∷ []

wrapped-IsValid : IsValid wrapped
wrapped-IsValid = omega arith

three_places-IsValid : IsValid three_places
three_places-IsValid = omega arith

-- The third of the calls that add finds the ring full, and so does the fourth.
run-wrapped : run 0 wrapped script ≡ some 4 ∷ some 9 ∷ some 1 ∷ some 3 ∷ none ∷ []
unfolding run add add_front get
run-wrapped = refl

init-four : (init {A = ℕ} 0 1 4 (1 ∷ 2 ∷ 3 ∷ 4 ∷ [])).ring_buffer ≡ 0 ∷ 0 ∷ 0 ∷ 0 ∷ []
unfolding init
init-four = refl

run_refines_example : run 0 wrapped script ≡ Deque.run 4 (contents 0 wrapped) script
run_refines_example = run_refines 0 script {q = wrapped} refl wrapped-IsValid
