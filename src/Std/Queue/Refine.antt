-- ===== src/Std/Queue/Refine.antt =====
-- The rings of lib/std_api/src/sa_queue.c and the bounded sequences of `Deque`.
use rmm_2023_pre.Common.{
  ℕ, suc, ◌+◌, ◌-◌, ◌%◌, ◌^◌, ◌<◌, ◌≡◌, ◌≢◌, refl, sym, ap, ap₂, ◌∙◌, inl, inr, List, [], ◌∷◌, ◌++◌,
  Option, arith, length, get_or, tabulate, tabulate_ext, tabulate_snoc, tabulate_of_ne_zero,
  ring_shift, ring_ne, ring_back, ring_back_ne, length-tabulate, get_or-set_self, get_or-set_ne,
  get_elem?-eq-get_or, mod_cases, Bool-cases, ◌==◌, add_size, sub_size, step_back,
}
use rmm_2023_pre.Std.Queue.{
  Queue, init, is_fill, advance, make_room, put_back, put_front, add, add_front, get,
}
use rmm_2023_pre.Std.Queue.Inv.{
  IsValid, make_room-IsValid, make_room_room, max-add, max-add_front, max-get, add-IsValid,
  add_front-IsValid, get-IsValid,
}
use rmm_2023_pre.Std.Queue.Deque
use rmm_2023_pre.Std.Queue.Deque.{Op, back, front, take_out}

-- `dummy` would be read out of range only, which `IsValid` excludes.
module _ {ℓ} {A : Type ℓ} (dummy : A) where
  abbrev pub cell : Queue A → ℕ → A
  cell q k = get_or q.ring_buffer ((q.next_read + k) % q.max_count) dummy

  -- The items, oldest first.
  abbrev pub contents : Queue A → List A
  contents q = tabulate q.count (cell q)

  pub contents-advance :
      {q : Queue A}
      → IsValid q
      → q.count ≢ 0
      → contents q ≡ get_or q.ring_buffer q.next_read dummy ∷ contents (advance q)
  unfolding advance
  contents-advance {q} v h =
      let m = q.max_count in
      let less : sub_size q.count 1 ≡ q.count - 1 = omega arith in
      let first : (q.next_read + 0) % m ≡ q.next_read =
        omega (arith, mod_cases (q.next_read + 0) m (omega arith)) in
      rw (tabulate_of_ne_zero q.count (cell q) h, less, first)
        (ap (λ t. get_or q.ring_buffer q.next_read dummy ∷ t)
          (tabulate_ext (q.count - 1) _ _ λ k p.
            ap (λ j. get_or q.ring_buffer j dummy)
              (sym (ring_shift q.next_read k m v.read_in v.small))))

  pub contents-put_back :
      {q : Queue A} (x : A)
      → IsValid q
      → q.count < q.max_count
      → contents (put_back x q) ≡ contents q ++ (x ∷ [])
  unfolding put_back
  contents-put_back {q} x v h =
      let m = q.max_count in
      let grown : add_size q.count 1 ≡ suc q.count = omega arith in
      let inside : q.next_write < length q.ring_buffer =
        omega (arith, mod_cases (q.next_read + q.count) m (omega arith)) in
      rw
        (
          grown,
          tabulate_snoc q.count (cell (put_back x q)),
          ← v.write_at,
          get_or-set_self q.ring_buffer q.next_write x dummy inside,
        )
        (ap (λ t. t ++ (x ∷ []))
          (tabulate_ext q.count _ _ λ k p.
            get_or-set_ne q.ring_buffer x dummy
              (rw v.write_at (ring_ne q.next_read k q.count m v.read_in p h))))

  pub contents-put_front :
      {q : Queue A} (x : A)
      → 2 ^ 64 % q.max_count ≡ 0
      → IsValid q
      → q.count < q.max_count
      → contents (put_front x q) ≡ x ∷ contents q
  unfolding put_front
  contents-put_front {q} x e v h =
      let m = q.max_count in
      let r = sub_size q.next_read 1 % m in
      let grown : add_size q.count 1 ≡ suc q.count = omega arith in
      let back = step_back q.next_read m v.read_in v.small e in
      let first : (r + 0) % m ≡ r =
        omega (arith, back, mod_cases (r + 0) m (omega (arith, back))) in
      rw (grown, first, get_or-set_self q.ring_buffer r x dummy (omega (arith, back)))
        (ap (λ t. x ∷ t)
          (tabulate_ext q.count _ _ λ k p.
            rw (ring_back q.next_read k m v.read_in v.small e (omega arith)) (
              get_or-set_ne q.ring_buffer x dummy
                (ring_back_ne q.next_read k m v.read_in v.small e (omega arith)))))

  pub init-contents :
      (blank : A) (size max_count : ℕ) (buffer : List A)
      → contents (init blank size max_count buffer) ≡ []
  unfolding init
  init-contents blank size max_count buffer = refl

  pub max-init :
      (blank : A) (size max_count : ℕ) (buffer : List A)
      → (init blank size max_count buffer).max_count ≡ max_count
  unfolding init
  max-init blank size max_count buffer = refl

  pub contents-make_room :
      {q : Queue A} → IsValid q → contents (make_room q) ≡ Deque.room q.max_count (contents q)
  unfolding make_room is_fill Deque.room Deque.tail
  contents-make_room {q} v =
      rw (length-tabulate q.count (cell q)) (elim (Bool-cases (q.count == q.max_count)) [
        | inl full ↦ rw (full, contents-advance v (ground (arith, v.some_room)))
        | inr free ↦ rw free
      ])

  -- `SAQueue_add` appends the item, and gives up the oldest one if the ring is full.
  pub contents-add :
      {q : Queue A} (x : A)
      → IsValid q
      → contents (add q x) ≡ Deque.push_back q.max_count (contents q) x
  unfolding add Deque.push_back
  contents-add {q} x v =
      rw (contents-put_back x (make_room-IsValid v) (make_room_room v).0, contents-make_room v)

  -- `SAQueue_addFront` puts the item first, and gives up the oldest one if the ring is full.
  pub contents-add_front :
      {q : Queue A} (x : A)
      → 2 ^ 64 % q.max_count ≡ 0
      → IsValid q
      → contents (add_front q x) ≡ Deque.push_front q.max_count (contents q) x
  unfolding add_front Deque.push_front
  contents-add_front {q} x e v = rw (
    contents-put_front x (rw (make_room_room v).1 e) (make_room-IsValid v) (make_room_room v).0,
    contents-make_room v,
  )

  pub get-Deque :
      {q : Queue A}
      → IsValid q
      → ((get q).0 ≡ Deque.head? (contents q)) × (contents (get q).1 ≡ Deque.tail (contents q))
  unfolding get Deque.head? Deque.tail
  get-Deque {q} v = elim (Bool-cases (q.count == 0)) [
    | inl empty ↦ let z : q.count ≡ 0 = ground arith in rw (empty, z) (refl, refl)
    | inr more ↦
        let n : q.count ≢ 0 = ground arith in
        rw
          (
            more,
            contents-advance v n,
            get_elem?-eq-get_or q.ring_buffer q.next_read dummy (omega arith),
          )
          (refl, refl)
  ]

  -- A client's calls in order, with what each `SAQueue_get` hands over.
  unfoldable pub run : Queue A → List (Op A) → List (Option A)
  run q [] = []
  run q (back x ∷ ops) = run (add q x) ops
  run q (front x ∷ ops) = run (add_front q x) ops
  run q (take_out ∷ ops) = let (out, q') = get q in out ∷ run q' ops

  run_refines_at :
      (ops : List (Op A)) (q : Queue A) (cap : ℕ)
      → q.max_count ≡ cap
      → 2 ^ 64 % cap ≡ 0
      → IsValid q
      → run q ops ≡ Deque.run cap (contents q) ops
  unfolding run Deque.run
  run_refines_at [] q cap c e v = refl
  run_refines_at (back x ∷ ops) q cap c e v =
      run_refines_at ops (add q x) cap (max-add x v ∙ c) e (add-IsValid x v)
      ∙ ap (λ xs. Deque.run cap xs ops)
          (contents-add x v ∙ ap (λ n. Deque.push_back n (contents q) x) c)
  run_refines_at (front x ∷ ops) q cap c e v =
      let e' : 2 ^ 64 % q.max_count ≡ 0 = rw c e in
      run_refines_at ops (add_front q x) cap (max-add_front x v ∙ c) e (add_front-IsValid x e' v)
      ∙ ap (λ xs. Deque.run cap xs ops)
          (contents-add_front x e' v ∙ ap (λ n. Deque.push_front n (contents q) x) c)
  run_refines_at (take_out ∷ ops) q cap c e v =
      ap₂ (λ out outs. out ∷ outs) (get-Deque v).0
        (run_refines_at ops (get q).1 cap (max-get q ∙ c) e (get-IsValid v)
          ∙ ap (λ xs. Deque.run cap xs ops) (get-Deque v).1)

  -- On a valid ring whose capacity divides 2^64, any sequence of calls of `SAQueue_add`,
  -- `SAQueue_addFront` and `SAQueue_get` hands over what the same calls hand over on a sequence of
  -- at most `max_count` items that gives up its oldest item.
  pub run_refines :
      (ops : List (Op A)) {q : Queue A}
      → 2 ^ 64 % q.max_count ≡ 0
      → IsValid q
      → run q ops ≡ Deque.run q.max_count (contents q) ops
  run_refines ops {q} e v = run_refines_at ops q q.max_count refl e v
