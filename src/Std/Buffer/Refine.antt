-- ===== src/Std/Buffer/Refine.antt =====
-- lib/std_api/src/sa_buffer.c as a list of its items.
use rmm_2023_pre.Common.{
  ℕ, ◌*◌, ◌^◌, ◌≤◌, ◌<◌, ◌≡◌, refl, ◌∙◌, false, List, ◌++◌, some, ◌==◌, length, take, tabulate,
  length-append, length-take, length-tabulate, arith, Bool-cases, inl, inr,
}
use rmm_2023_pre.Std.Buffer.{Buffer, mul_size, next_blocks, resize, realloc}
use rmm_2023_pre.Std.Buffer.Blocks.{Fits, next_blocks-Fits}
use rmm_2023_pre.Std.Buffer.Splice.{take-take, take-append}

module _ {ℓ} {A : Type ℓ} where
  -- The items, in order.
  abbrev pub items : Buffer A → List A
  items obj = take obj.data_count obj.cells

  -- The items fit into the memory, which has the blocks that are counted. Sizes up to 2^32 items of at
  -- most 1024 bytes do not overflow.
  pub record IsValid (obj : Buffer A) : Type 0 where
    pub some_block : 0 < obj.one_block_count
    pub block_small : obj.one_block_count ≤ 1024
    pub few_items : obj.data_count ≤ 2 ^ 32
    pub fits : Fits obj.one_block_count obj.block_count obj.data_count
    pub storage : length obj.cells ≡ obj.one_block_count * obj.block_count

  module _ (junk : ℕ → A) where
    -- Memory of `n` items keeps what it had of them.
    resize_keeps :
        (n : ℕ) (cells : List A)
        → (length (resize junk n cells) ≡ n)
          × ((k : ℕ) → k ≤ n → k ≤ length cells → take k (resize junk n cells) ≡ take k cells)
    unfolding resize
    resize_keeps n cells = (
      omega (
        arith,
        length-take n (cells ++ tabulate n junk),
        length-append cells (tabulate n junk),
        length-tabulate n junk,
      ),
      λ k h l. take-take k n (cells ++ tabulate n junk) h ∙ take-append k cells (tabulate n junk) l,
    )

    pub realloc_keeps :
        (obj : Buffer A)
        → 0 < obj.one_block_count
        → obj.one_block_count ≤ 1024
        → obj.data_count ≤ 2 ^ 32
        → 0 < obj.block_count
        → obj.one_block_count * obj.block_count ≤ 2 ^ 40
        → length obj.cells ≡ obj.one_block_count * obj.block_count
        → (obj' : Buffer A) × (realloc junk obj ≡ some obj')
          × IsValid obj'
          × (obj'.data_count ≡ obj.data_count)
          × ((k : ℕ)
              → k ≤ obj.data_count
              → k ≤ length obj.cells
              → take k obj'.cells ≡ take k obj.cells)
    unfolding realloc
    realloc_keeps obj h s c p k l =
        let m = obj.one_block_count in
        let blocks = next_blocks m obj.block_count obj.data_count in
        let f = next_blocks-Fits m obj.block_count obj.data_count h p (omega arith) (omega arith) in
        let some_block : m == 0 ≡ false = ground arith in
        elim (Bool-cases (obj.block_count == blocks)) [
          | inl e ↦
              let same : obj.block_count ≡ blocks = ground arith in
              (
                obj,
                rw (some_block, e) refl,
                record {
                  some_block = h;
                  block_small = s;
                  few_items = c;
                  fits = rw same f;
                  storage = l;
                },
                refl,
                λ j a b. refl,
              )
          | inr e ↦
              let r = resize_keeps (mul_size m blocks) obj.cells in
              let small : mul_size m blocks ≡ m * blocks = omega (arith, f.2) in
              (
                record obj {
                  block_count = blocks;
                  cells = resize junk (mul_size m blocks) obj.cells;
                },
                rw (some_block, e) refl,
                record {
                  some_block = h;
                  block_small = s;
                  few_items = c;
                  fits = f;
                  storage = r.0 ∙ small;
                },
                refl,
                λ j a b. r.1 j (omega (arith, small, f.1)) b,
              )
        ]
