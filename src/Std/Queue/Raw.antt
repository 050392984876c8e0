-- ===== src/Std/Queue/Raw.antt =====
-- The raw and read-only access of lib/std_api/src/sa_queue.c, and `SAQueue_addFront` on a ring
-- whose capacity does not divide 2^64.
use rmm_2023_pre.Common.{
  ℕ, ◌+◌, ◌-◌, ◌%◌, ◌^◌, ◌<◌, ◌≡◌, ◌≢◌, refl, none, some, arith, set, get_or, get_elem?,
  get_elem?-eq-get_or, mod_cases, dec_lt, leb, if◌then◌else◌, add_size, sub_size, pred-mod_conv,
}
use rmm_2023_pre.Std.Queue.{
  Queue, is_fill, make_room, put_front, add, add_front, add_raw, add_front_raw, get, get_raw,
  readonly,
}
use rmm_2023_pre.Std.Queue.Inv.{IsValid}

module _ {ℓ} {A : Type ℓ} where
  -- A write through the pointer that a raw function returned.
  abbrev pub store : A → ℕ × Queue A → Queue A
  store x (at, q) = record q { ring_buffer = set q.ring_buffer at x }

  -- Storing through the pointer of `SAQueue_addRaw` is `SAQueue_add`, and storing through that of
  -- `SAQueue_addFrontRaw` is `SAQueue_addFront`.
  pub store-raw :
      (q : Queue A) (x : A)
      → (store x (add_raw q) ≡ add q x) × (store x (add_front_raw q) ≡ add_front q x)
  unfolding add_raw add_front_raw add add_front
  store-raw q x = (refl, refl)

  -- `SAQueue_getRaw` leaves the ring as `SAQueue_get` does, and points at the item that it hands
  -- over; both fail on the empty ring only.
  pub get_raw-get :
      (q : Queue A)
      → ((get_raw q).1 ≡ (get q).1)
        × (q.count ≡ 0 → ((get_raw q).0 ≡ none) × ((get q).0 ≡ none))
        × (q.count ≢ 0
            → ((get_raw q).0 ≡ some q.next_read)
              × ((get q).0 ≡ get_elem? q.ring_buffer q.next_read))
  unfolding get_raw get
  get_raw-get q = ground arith

  -- On a valid ring `SAQueue_readonly` fails from `count` on, and below it, at whatever index,
  -- hands over the oldest item.
  pub readonly_oldest :
      {q : Queue A} (dummy : A) (index : ℕ)
      → IsValid q
      → readonly q index
        ≡ (if leb q.count index then none else some (get_or q.ring_buffer q.next_read dummy))
  unfolding readonly
  readonly_oldest {q} dummy index v = elim (dec_lt index q.count) [
    | yes h ↦
        ground
          (arith, get_elem?-eq-get_or q.ring_buffer q.next_read dummy (omega arith), v.count_in)
    | no h ↦ ground arith
  ]

  make_room-free : (q : Queue A) → q.count < q.max_count → make_room q ≡ q
  unfolding make_room is_fill
  make_room-free q h = ground arith

  put_front_breaks :
      {q : Queue A} (x : A)
      → IsValid q
      → q.count < q.max_count
      → q.next_read ≡ 0
      → IsValid (put_front x q)
      → 2 ^ 64 % q.max_count ≡ 0
  unfolding put_front
  put_front_breaks {q} x v h z w =
      let m = q.max_count in
      let wraps : sub_size q.next_read 1 ≡ 2 ^ 64 - 1 = rw z refl in
      let r = sub_size q.next_read 1 % m in
      let sum = mod_cases (r + add_size q.count 1) m (omega arith) in
      let start = mod_cases (q.next_read + q.count) m (omega arith) in
      let at_end : r ≡ m - 1 = omega (arith, sum, start) in
      pred-mod_conv (2 ^ 64 - 1) m v.some_room (rw wraps at at_end)

  -- On a capacity that does not divide 2^64, `SAQueue_addFront` breaks the invariant of each valid
  -- ring that is not full and whose oldest item is in cell 0.
  pub add_front_breaks :
      {q : Queue A} (x : A)
      → IsValid q
      → q.count < q.max_count
      → q.next_read ≡ 0
      → 2 ^ 64 % q.max_count ≢ 0
      → ¬ IsValid (add_front q x)
  unfolding add_front
  add_front_breaks {q} x v h z odd w = odd (put_front_breaks x v h z (rw (make_room-free q h) at w))
