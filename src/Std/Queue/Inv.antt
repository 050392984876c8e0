-- ===== src/Std/Queue/Inv.antt =====
-- The representation invariant of `SAQueue_t` of lib/std_api/src/sa_queue.c.
use rmm_2023_pre.Common.{
  ℕ, zero, suc, ◌+◌, ◌-◌, ◌%◌, ◌^◌, ◌≤◌, ◌<◌, ◌≡◌, ◌≢◌, refl, inl, inr, List, [], ◌∷◌, arith,
  length, length-set, mod_cases, Bool-cases, ◌==◌, add_size, sub_size, step_back,
}
use rmm_2023_pre.Std.Queue.{
  Queue, fill, init, advance, make_room, put_back, put_front, add, add_front, get,
}

module _ {ℓ} {A : Type ℓ} where
  pub record IsValid (q : Queue A) : Type 0 where
    pub some_room : 0 < q.max_count
    pub small : q.max_count ≤ 2 ^ 32
    pub storage : length q.ring_buffer ≡ q.max_count
    pub read_in : q.next_read < q.max_count
    pub count_in : q.count ≤ q.max_count
    pub write_at : q.next_write ≡ (q.next_read + q.count) % q.max_count

  length-fill : (n : ℕ) (v : A) (cells : List A) → length (fill n v cells) ≡ length cells
  unfolding fill
  length-fill zero v cells = refl
  length-fill (suc n) v [] = refl
  length-fill (suc n) v (c ∷ cells) = omega (arith, length-fill n v cells)

  pub init-IsValid :
      (blank : A) (size max_count : ℕ) (buffer : List A)
      → 0 < max_count
      → max_count ≤ 2 ^ 32
      → length buffer ≡ max_count
      → IsValid (init blank size max_count buffer)
  unfolding init
  init-IsValid blank size max_count buffer h k l = record {
    some_room = h;
    small = k;
    storage = omega (arith, length-fill max_count blank buffer);
    read_in = h;
    count_in = omega arith;
    write_at = omega arith;
  }

  pub advance-IsValid : {q : Queue A} → IsValid q → q.count ≢ 0 → IsValid (advance q)
  unfolding advance
  advance-IsValid {q} v h =
      let m = q.max_count in
      let wrap : add_size q.next_read 1 ≡ q.next_read + 1 = omega arith in
      let less : sub_size q.count 1 ≡ q.count - 1 = omega arith in
      rw (wrap, less)
        (record {
          some_room = v.some_room;
          small = v.small;
          storage = v.storage;
          read_in = omega arith;
          count_in = omega arith;
          write_at = omega (
            arith,
            mod_cases (q.next_read + 1) m (omega arith),
            mod_cases (q.next_read + q.count) m (omega arith),
            mod_cases ((q.next_read + 1) % m + (q.count - 1)) m (omega arith),
          );
        })

  pub make_room-IsValid : {q : Queue A} → IsValid q → IsValid (make_room q)
  unfolding make_room
  make_room-IsValid {q} v = elim (Bool-cases (q.count == q.max_count)) [
    | inl full ↦ rw full (advance-IsValid v (ground (arith, v.some_room)))
    | inr free ↦ rw free v
  ]

  -- Room is made: the count is below the capacity, which stays.
  pub make_room_room :
      {q : Queue A}
      → IsValid q
      → ((make_room q).count < (make_room q).max_count) × ((make_room q).max_count ≡ q.max_count)
  unfolding make_room advance
  make_room_room v = ground (arith, v.some_room, v.count_in, v.small)

  pub put_back-IsValid :
      {q : Queue A} (x : A) → IsValid q → q.count < q.max_count → IsValid (put_back x q)
  unfolding put_back
  put_back-IsValid {q} x v h =
      let m = q.max_count in
      let grown : add_size q.count 1 ≡ q.count + 1 = omega arith in
      let at = mod_cases (q.next_read + q.count) m (omega arith) in
      let wrap : add_size q.next_write 1 ≡ q.next_write + 1 = omega (arith, at) in
      rw (wrap, grown)
        (record {
          some_room = v.some_room;
          small = v.small;
          storage = omega (arith, length-set q.ring_buffer q.next_write x);
          read_in = v.read_in;
          count_in = omega arith;
          write_at = omega (
            arith,
            at,
            mod_cases (q.next_write + 1) m (omega (arith, at)),
            mod_cases (q.next_read + (q.count + 1)) m (omega arith),
          );
        })

  -- `next_read - 1` goes round the ring only if `max_count` divides 2^64.
  pub put_front-IsValid :
      {q : Queue A} (x : A)
      → 2 ^ 64 % q.max_count ≡ 0
      → IsValid q
      → q.count < q.max_count
      → IsValid (put_front x q)
  unfolding put_front
  put_front-IsValid {q} x e v h =
      let m = q.max_count in
      let grown : add_size q.count 1 ≡ q.count + 1 = omega arith in
      let back = step_back q.next_read m v.read_in v.small e in
      let r = sub_size q.next_read 1 % m in
      rw grown (record {
        some_room = v.some_room;
        small = v.small;
        storage = omega (arith, length-set q.ring_buffer r x);
        read_in = omega (arith, back);
        count_in = omega arith;
        write_at = omega (
          arith,
          back,
          mod_cases (q.next_read + q.count) m (omega arith),
          mod_cases (r + (q.count + 1)) m (omega (arith, back)),
        );
      })

  -- `SAQueue_add` keeps the invariant.
  pub add-IsValid : {q : Queue A} (x : A) → IsValid q → IsValid (add q x)
  unfolding add
  add-IsValid x v = put_back-IsValid x (make_room-IsValid v) (make_room_room v).0

  pub add_front-IsValid :
      {q : Queue A} (x : A) → 2 ^ 64 % q.max_count ≡ 0 → IsValid q → IsValid (add_front q x)
  unfolding add_front
  add_front-IsValid x e v =
      put_front-IsValid x (rw (make_room_room v).1 e) (make_room-IsValid v) (make_room_room v).0

  pub get-IsValid : {q : Queue A} → IsValid q → IsValid (get q).1
  unfolding get
  get-IsValid {q} v = elim (Bool-cases (q.count == 0)) [
    | inl none_left ↦ rw none_left v
    | inr more ↦ rw more (advance-IsValid v (ground arith))
  ]

  pub max-add : {q : Queue A} (x : A) → IsValid q → (add q x).max_count ≡ q.max_count
  unfolding add put_back
  max-add x v = (make_room_room v).1

  pub max-add_front : {q : Queue A} (x : A) → IsValid q → (add_front q x).max_count ≡ q.max_count
  unfolding add_front put_front
  max-add_front x v = (make_room_room v).1

  pub max-get : (q : Queue A) → (get q).1.max_count ≡ q.max_count
  unfolding get advance
  max-get q = ground arith

  pub buffer-get : (q : Queue A) → (get q).1.ring_buffer ≡ q.ring_buffer
  unfolding get advance
  buffer-get q = ground arith
