-- ===== src/Std/Buffer.antt =====
-- lib/std_api/src/sa_buffer.c: a sequence in memory that grows and shrinks by blocks. The memory is a
-- list of items of `one_data_size` bytes each, and what the allocator gives is an argument: `junk k` is
-- what item `k` of new memory holds. `none` is an access out of bounds, or a division by zero.
pub mod Blocks
pub mod Splice
pub mod Refine
pub mod Edits
pub mod Removal
pub mod Copies
pub mod Ends
mod Tests
use rmm_2023_pre.Common.{
  ℕ, zero, suc, ◌+◌, ◌-◌, ◌*◌, ◌/◌, ◌%◌, ◌^◌, Bool, List, [], ◌∷◌, ◌++◌, Option, none, some, ltb,
  leb, ◌&&◌, ◌==◌, if◌then◌else◌, length, take, drop, tabulate, add_size, sub_size,
}

-- `SABuffer_t`.
pub record Buffer {ℓ} (A : Type ℓ) : Type ℓ where
  pub one_data_size : ℕ
  pub data_count : ℕ
  pub one_block_count : ℕ
  pub block_count : ℕ
  pub cells : List A

abbrev pub mul_size : ℕ → ℕ → ℕ
mul_size a b = a * b % 2 ^ 64

-- The new `block_count` of `SABuffer_realloc`.
pub next_blocks : ℕ → ℕ → ℕ → ℕ
next_blocks one_block_count block_count data_count =
    let allocating = mul_size one_block_count block_count in
    if ltb allocating data_count
    then add_size block_count (add_size (sub_size data_count allocating / one_block_count) 1)
    else (let left = sub_size block_count (sub_size allocating data_count / one_block_count) in
        if leb left 0 then 1 else left)

module _ {ℓ} {A : Type ℓ} (junk : ℕ → A) where
  -- What `realloc` keeps of the old memory, and what comes after it.
  pub resize : ℕ → List A → List A
  resize n cells = take n (cells ++ tabulate n junk)

  pub realloc : Buffer A → Option (Buffer A)
  unfolding next_blocks resize
  realloc obj =
      let blocks = next_blocks obj.one_block_count obj.block_count obj.data_count in
      if obj.one_block_count == 0
      then none
      else if obj.block_count == blocks
      then some obj
      else some (record obj {
        block_count = blocks;
        cells = resize (mul_size obj.one_block_count blocks) obj.cells;
      })

  pub create : ℕ → Buffer A
  create one_data_size = record {
    one_data_size = one_data_size;
    data_count = 0;
    one_block_count = 1024 / one_data_size;
    block_count = 1;
    cells = tabulate (mul_size (1024 / one_data_size) 1) junk;
  }

  pub clone : Buffer A → Buffer A
  clone obj = record obj { cells = tabulate (mul_size obj.one_block_count obj.block_count) junk }

module _ {ℓ} {A : Type ℓ} where
  pub clear : Buffer A → Buffer A
  clear obj = record obj { data_count = 0 }

  -- `memmove` of `n` items within the memory, and `memcpy` into it.
  pub move_items : List A → ℕ → ℕ → ℕ → Option (List A)
  move_items cells dst src n =
      if leb (dst + n) (length cells) && leb (src + n) (length cells)
      then some (take dst cells ++ (take n (drop src cells) ++ drop (dst + n) cells))
      else none

  pub write_items : List A → ℕ → List A → Option (List A)
  write_items cells dst xs =
      if leb (dst + length xs) (length cells)
      then some (take dst cells ++ (xs ++ drop (dst + length xs) cells))
      else none

  abbrev pub with_cells : Buffer A → Option (List A) → Option (Buffer A)
  with_cells obj none = none
  with_cells obj (some cells) = some (record obj { cells = cells })

  -- The two copies of `SABuffer_insert_stream`.
  pub open_and_write : ℕ → ℕ → List A → Buffer A → Option (Buffer A)
  unfolding move_items write_items
  open_and_write befo_count index xs obj =
      elim (move_items obj.cells (index + length xs) index (befo_count - index)) [
        | none ↦ none
        | some cells ↦ with_cells obj (write_items cells index xs)
      ]

  -- An index out of range is logged, and nothing changes.
  pub replace_stream : Buffer A → ℕ → List A → Option (Buffer A)
  unfolding write_items
  replace_stream obj index xs =
      if ltb obj.data_count (add_size index (length xs))
      then some obj
      else with_cells obj (write_items obj.cells index xs)

  pub replace : Buffer A → ℕ → A → Option (Buffer A)
  unfolding replace_stream
  replace obj index x = replace_stream obj index (x ∷ [])

  -- What goes out; `[]` if an index out of range is logged.
  pub read_stream : Buffer A → ℕ → ℕ → List A
  read_stream obj index n =
      if ltb obj.data_count (add_size index n) then [] else take n (drop index obj.cells)

  pub read_at_index : Buffer A → ℕ → List A
  unfolding read_stream
  read_at_index obj index = read_stream obj index 1

  pub read_last : Buffer A → List A
  unfolding read_stream
  read_last obj = if obj.data_count == 0 then [] else read_stream obj (sub_size obj.data_count 1) 1

  -- The index that the pointer is to.
  pub read_at_index_pointer : Buffer A → ℕ → Option ℕ
  read_at_index_pointer obj index = if leb obj.data_count index then none else some index

  pub read_last_pointer : Buffer A → Option ℕ
  unfolding read_at_index_pointer
  read_last_pointer obj =
      if obj.data_count == 0 then none else read_at_index_pointer obj (sub_size obj.data_count 1)

module _ {ℓ} {A : Type ℓ} (junk : ℕ → A) where
  pub insert_stream : Buffer A → ℕ → List A → Option (Buffer A)
  unfolding realloc open_and_write
  insert_stream obj index xs =
      if ltb obj.data_count index
      then some obj
      else elim (realloc junk (record obj { data_count = add_size obj.data_count (length xs) })) [
        | none ↦ none
        | some grown ↦ open_and_write obj.data_count index xs grown
      ]

  pub insert : Buffer A → ℕ → A → Option (Buffer A)
  unfolding insert_stream
  insert obj index x = insert_stream obj index (x ∷ [])

  pub add_stream : Buffer A → List A → Option (Buffer A)
  unfolding insert_stream
  add_stream obj xs = insert_stream obj obj.data_count xs

  pub add : Buffer A → A → Option (Buffer A)
  unfolding add_stream
  add obj x = add_stream obj (x ∷ [])

  pub remove_stream : Buffer A → ℕ → ℕ → Option (Buffer A)
  unfolding move_items realloc
  remove_stream obj index n =
      if ltb obj.data_count (add_size index n)
      then some obj
      else elim (move_items obj.cells index (index + n) (obj.data_count - (index + n))) [
        | none ↦ none
        | some cells ↦
            realloc junk (record obj { data_count = sub_size obj.data_count n; cells = cells })
      ]

  pub remove_at_index : Buffer A → ℕ → Option (Buffer A)
  unfolding remove_stream
  remove_at_index obj index = remove_stream obj index 1

  pub remove_last : Buffer A → Option (Buffer A)
  unfolding remove_at_index
  remove_last obj =
      if obj.data_count == 0 then some obj else remove_at_index obj (sub_size obj.data_count 1)

  pub remove_all : Buffer A → Option (Buffer A)
  unfolding remove_stream
  remove_all obj = remove_stream obj 0 obj.data_count
