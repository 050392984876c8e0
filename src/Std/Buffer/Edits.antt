-- ===== src/Std/Buffer/Edits.antt =====
-- The operations of lib/std_api/src/sa_buffer.c that insert.
use rmm_2023_pre.Common.{
  ℕ, ◌+◌, ◌-◌, ◌^◌, ◌≤◌, ◌≡◌, refl, ap, ap₂, sym, ◌∙◌, false, List, ◌++◌, some, ltb, length, take,
  drop, length-append, length-drop, add_size, arith,
}
use mathlib.Core.List.{append_assoc}
use rmm_2023_pre.Std.Buffer.{Buffer, realloc, open_and_write, insert_stream}
use rmm_2023_pre.Std.Buffer.Splice.{take-length, drop-length, split_at, splice}
use rmm_2023_pre.Std.Buffer.Refine.{items, IsValid, realloc_keeps}

module _ {ℓ} {A : Type ℓ} where
  -- A list that is split at `index` of its first `n` items.
  pub three_parts :
      (n index : ℕ) (cells : List A)
      → index ≤ n
      → n ≤ length cells
      → (front back rest : List A) × (cells ≡ front ++ (back ++ rest))
        × (length front ≡ index)
        × (length back ≡ n - index)
        × (length cells ≡ n + length rest)
        × (take n cells ≡ front ++ back)
  three_parts n index cells h l =
      let (pre, rest, e, pn) = split_at n cells l in
      let (front, back, f, fn) = split_at index pre (omega arith) in
      (
        front,
        back,
        rest,
        e ∙ ap (λ t. t ++ rest) f ∙ append_assoc front back rest,
        fn,
        omega (arith, ap length f, length-append front back),
        omega (arith, ap length e, length-append pre rest),
        ap (λ t. take n t) e ∙ take-length n pre rest pn ∙ f,
      )

  pub cut_items :
      (n index : ℕ) (cells front back : List A)
      → length front ≡ index
      → take n cells ≡ front ++ back
      → (take index (take n cells) ≡ front) × (drop index (take n cells) ≡ back)
  cut_items n index cells front back h e = (
    ap (λ t. take index t) e ∙ take-length index front back h,
    ap (λ t. drop index t) e ∙ drop-length index front back h,
  )

  pub take_four :
      (n : ℕ) (a b c d : List A)
      → length a + (length b + length c) ≡ n
      → take n (a ++ (b ++ (c ++ d))) ≡ a ++ (b ++ c)
  take_four n a b c d h =
      ap (λ t. take n (a ++ t)) (sym (append_assoc b c d))
      ∙ ap (λ t. take n t) (sym (append_assoc a (b ++ c) d))
      ∙ take-length n (a ++ (b ++ c)) d (omega (arith, length-append a (b ++ c), length-append b c))

  -- The copies of an insertion, on memory that has the room.
  open_items :
      (g : Buffer A) (n index : ℕ) (xs : List A)
      → index ≤ n
      → n + length xs ≤ length g.cells
      → (cells : List A) × (open_and_write n index xs g ≡ some (record g { cells = cells }))
        × (length cells ≡ length g.cells)
        × (take (n + length xs) cells
            ≡ take index (take n g.cells) ++ (xs ++ drop index (take n g.cells)))
  open_items g n index xs h l =
      let (front, back, rest, e, fn, bn, cn, t) = three_parts n index g.cells h (omega arith) in
      let k = length xs in
      let count : length front + length back ≡ n = omega arith in
      let cut = cut_items n index g.cells front back fn t in
      let done = splice g front back rest xs e (omega arith) in
      (
        front ++ (xs ++ (back ++ drop k rest)),
        ap₂ (λ a b. open_and_write a b xs g) (sym count) (sym fn) ∙ done,
        omega (
          arith,
          length-append front (xs ++ (back ++ drop k rest)),
          length-append xs (back ++ drop k rest),
          length-append back (drop k rest),
          length-drop k rest,
        ),
        take_four (n + k) front xs back (drop k rest) (omega arith)
            ∙ ap₂ (λ a b. a ++ (xs ++ b)) (sym cut.0) (sym cut.1),
      )

  pub room_of : (obj : Buffer A) → IsValid obj → obj.data_count ≤ length obj.cells
  room_of obj v = omega (arith, v.storage, v.fits.1)

  pub same_storage :
      (g : Buffer A) (cells : List A)
      → IsValid g
      → length cells ≡ length g.cells
      → IsValid (record g { cells = cells })
  same_storage g cells v e = record {
    some_block = v.some_block;
    block_small = v.block_small;
    few_items = v.few_items;
    fits = v.fits;
    storage = e ∙ v.storage;
  }

  module _ (junk : ℕ → A) where
    insert_of :
        (obj g r : Buffer A) (index : ℕ) (xs : List A)
        → index ≤ obj.data_count
        → obj.data_count + length xs ≤ 2 ^ 32
        → realloc junk (record obj { data_count = obj.data_count + length xs }) ≡ some g
        → open_and_write obj.data_count index xs g ≡ some r
        → insert_stream junk obj index xs ≡ some r
    unfolding insert_stream
    insert_of obj g r index xs h l e f =
        let sum : add_size obj.data_count (length xs) ≡ obj.data_count + length xs = omega arith in
        let inside : ltb obj.data_count index ≡ false = ground arith in rw (inside, sum, e, f) refl

    -- Inserting items at an index that is not past the end stays in bounds, keeps the buffer valid,
    -- and puts them between the items before the index and the ones from it on, if the buffer is
    -- valid and at most 2^32 items result.
    pub insert_stream_lem :
        (obj : Buffer A) (index : ℕ) (xs : List A)
        → IsValid obj
        → index ≤ obj.data_count
        → obj.data_count + length xs ≤ 2 ^ 32
        → (obj' : Buffer A) × (insert_stream junk obj index xs ≡ some obj')
          × IsValid obj'
          × (items obj' ≡ take index (items obj) ++ (xs ++ drop index (items obj)))
    insert_stream_lem obj index xs v h l =
        let n = obj.data_count in
        let (g, e, w, c, keep) =
          realloc_keeps junk (record obj { data_count = n + length xs }) v.some_block v.block_small
            l v.fits.0 (omega (arith, v.fits.2, v.block_small, v.few_items)) v.storage in
        let (cells, f, size, t) = open_items g n index xs h (omega (arith, room_of g w)) in
        let old : take n g.cells ≡ items obj = keep n (omega arith) (room_of obj v) in
        (
          record g { cells = cells },
          insert_of obj g (record g { cells = cells }) index xs h l e f,
          same_storage g cells w size,
          ap (λ k. take k cells) c ∙ t ∙ ap (λ its. take index its ++ (xs ++ drop index its)) old,
        )
