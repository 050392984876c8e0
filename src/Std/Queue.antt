-- ===== src/Std/Queue.antt =====
-- lib/std_api/src/sa_queue.c and sa_queue.h: a ring of `max_count` items in the caller's memory.
-- A cell of `ring_buffer` holds one item, the `data_size` bytes from `i * data_size` on; an item
-- is a value of the type `A`. A pointer into the ring is the number of its cell.
pub mod Inv
pub mod Deque
pub mod Raw
pub mod Refine
mod Tests
use rmm_2023_pre.Common.{
  ℕ, zero, suc, ◌%◌, Bool, List, [], ◌∷◌, Option, none, some, leb, ◌==◌, if◌then◌else◌, set,
  get_elem?, add_size, sub_size,
}

-- `SAQueue_t`.
pub record Queue {ℓ} (A : Type ℓ) : Type ℓ where
  pub next_write : ℕ
  pub next_read : ℕ
  pub count : ℕ
  pub max_count : ℕ
  pub data_size : ℕ
  pub ring_buffer : List A

module _ {ℓ} {A : Type ℓ} where
  -- `memset` over the first `n` items.
  pub fill : ℕ → A → List A → List A
  fill zero v cells = cells
  fill (suc n) v [] = []
  fill (suc n) v (c ∷ cells) = v ∷ fill n v cells

  -- `blank` is the item whose bytes are all zero.
  pub clear : A → Queue A → Queue A
  unfolding fill
  clear blank q = record q {
    next_write = 0;
    next_read = 0;
    count = 0;
    ring_buffer = fill q.max_count blank q.ring_buffer;
  }

  pub init : A → ℕ → ℕ → List A → Queue A
  unfolding clear
  init blank data_size max_count buffer = clear blank (record {
    next_write = 0;
    next_read = 0;
    count = 0;
    max_count = max_count;
    data_size = data_size;
    ring_buffer = buffer;
  })

  pub is_fill : Queue A → Bool
  is_fill q = q.count == q.max_count

  -- `count--` and the step of `next_read`.
  pub advance : Queue A → Queue A
  advance q = record q {
    count = sub_size q.count 1;
    next_read = add_size q.next_read 1 % q.max_count;
  }

  -- The opening `if` of the four functions that add: the oldest item is given up.
  pub make_room : Queue A → Queue A
  unfolding is_fill advance
  make_room q = if is_fill q then advance q else q

  pub put_back : A → Queue A → Queue A
  put_back item q = record q {
    ring_buffer = set q.ring_buffer q.next_write item;
    count = add_size q.count 1;
    next_write = add_size q.next_write 1 % q.max_count;
  }

  pub put_front : A → Queue A → Queue A
  put_front item q =
      let next_read = sub_size q.next_read 1 % q.max_count in
      record q {
        next_read = next_read;
        ring_buffer = set q.ring_buffer next_read item;
        count = add_size q.count 1;
      }

  pub add : Queue A → A → Queue A
  unfolding make_room put_back
  add q item = put_back item (make_room q)

  pub add_front : Queue A → A → Queue A
  unfolding make_room put_front
  add_front q item = put_front item (make_room q)

  -- The raw versions leave the write to the caller, who is given the cell.
  pub add_front_raw : Queue A → ℕ × Queue A
  unfolding make_room
  add_front_raw q =
      let r = make_room q in
      let next_read = sub_size r.next_read 1 % r.max_count in
      (next_read, record r { next_read = next_read; count = add_size r.count 1 })

  pub add_raw : Queue A → ℕ × Queue A
  unfolding make_room
  add_raw q =
      let r = make_room q in
      (
        r.next_write,
        record r { count = add_size r.count 1; next_write = add_size r.next_write 1 % r.max_count },
      )

  -- `none` is the return value 0. The index that is computed is not the one that is read.
  pub readonly : Queue A → ℕ → Option A
  readonly q index =
      if leb q.count index
      then none
      else let index' = add_size q.next_read index % q.max_count in
        get_elem? q.ring_buffer q.next_read

  -- The option is what goes through `data`, and the return value 1.
  pub get : Queue A → Option A × Queue A
  unfolding advance
  get q = if q.count == 0 then (none, q) else (get_elem? q.ring_buffer q.next_read, advance q)

  pub get_raw : Queue A → Option ℕ × Queue A
  unfolding advance
  get_raw q = if q.count == 0 then (none, q) else (some q.next_read, advance q)
