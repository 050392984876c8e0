-- ===== src/Std/Buffer/Tests.antt =====
-- Runs and instances for lib/std_api/src/sa_buffer.c.
use rmm_2023_pre.Common.{ℕ, ◌+◌, ◌≡◌, refl, [], ◌∷◌, ◌++◌, some, take, drop, arith}
use rmm_2023_pre.Std.Buffer.{Buffer, insert_stream, remove_stream, next_blocks}
use rmm_2023_pre.Std.Buffer.Refine.{items, IsValid}
use rmm_2023_pre.Std.Buffer.Edits.{insert_stream_lem}
use rmm_2023_pre.Std.Buffer.Removal.{remove_stream_lem}

-- New memory that holds its own addresses.
abbrev junk : ℕ → ℕ
junk k = 1000 + k

-- Four items of 512 bytes, two to a block.
abbrev four : Buffer ℕ
four = record {
  one_data_size = 512;
  data_count = 4;
  one_block_count = 2;
  block_count = 2;
  cells = 7 ∷ 8 ∷ 9 ∷ 10 ∷ [];
}

four-IsValid : IsValid four
four-IsValid = omega arith

five-blocks : next_blocks 2 2 5 ≡ 3
unfolding next_blocks
five-blocks = refl

two-blocks : next_blocks 2 2 2 ≡ 1
unfolding next_blocks
two-blocks = refl

insert_stream_lem_example :
    (obj' : Buffer ℕ) × (insert_stream junk four 1 (5 ∷ 6 ∷ 4 ∷ []) ≡ some obj')
    × IsValid obj'
    × (items obj' ≡ take 1 (items four) ++ ((5 ∷ 6 ∷ 4 ∷ []) ++ drop 1 (items four)))
insert_stream_lem_example =
    insert_stream_lem junk four 1 (5 ∷ 6 ∷ 4 ∷ []) four-IsValid (omega arith) (omega arith)

remove_stream_lem_example :
    (obj' : Buffer ℕ) × (remove_stream junk four 0 3 ≡ some obj')
    × IsValid obj'
    × (items obj' ≡ take 0 (items four) ++ drop (0 + 3) (items four))
remove_stream_lem_example = remove_stream_lem junk four 0 3 four-IsValid (omega arith)
