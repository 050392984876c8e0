-- ===== src/Std/Buffer/Copies.antt =====
-- The operations of lib/std_api/src/sa_buffer.c that create, replace, read and clone.
use rmm_2023_pre.Common.{
  ℕ, zero, suc, ◌+◌, ◌*◌, ◌/◌, ◌≤◌, ◌<◌, ◌≡◌, refl, ap, ap₂, sym, ◌∙◌, false, List, [], ◌∷◌, ◌++◌,
  none, some, ltb, length, take, drop, tabulate, length-append, length-tabulate, add_size, arith,
}
use native.Mathlib.Nat.{div-eq_of_lt, div-le_self, mul-one, le-div_iff_mul-le}
use mathlib.Core.List.{append_assoc}
use rmm_2023_pre.Std.Buffer.{
  Buffer, mul_size, realloc, write_items, replace_stream, read_stream, create, clone, add,
}
use rmm_2023_pre.Std.Buffer.Splice.{take-length, drop-length, split_at, write_parts}
use rmm_2023_pre.Std.Buffer.Refine.{items, IsValid}
use rmm_2023_pre.Std.Buffer.Edits.{three_parts, cut_items, take_four, room_of, same_storage}

module _ {ℓ} {A : Type ℓ} where
  take-tabulate : (k n : ℕ) (f : ℕ → A) → k ≤ n → take k (tabulate n f) ≡ tabulate k f
  take-tabulate zero n f h = refl
  take-tabulate (suc k) zero f h = absurd (omega arith)
  take-tabulate (suc k) (suc n) f h =
      ap (λ l. f 0 ∷ l) (take-tabulate k n (λ i. f (i + 1)) (omega arith))

  -- Replacing items that are there in a valid buffer stays in bounds, keeps the buffer valid, and
  -- puts the new ones in their place.
  pub replace_stream_lem :
      (obj : Buffer A) (index : ℕ) (xs : List A)
      → IsValid obj
      → index + length xs ≤ obj.data_count
      → (obj' : Buffer A) × (replace_stream obj index xs ≡ some obj')
        × IsValid obj'
        × (items obj' ≡ take index (items obj) ++ (xs ++ drop (index + length xs) (items obj)))
  unfolding replace_stream
  replace_stream_lem obj index xs v h =
      let m = obj.data_count in
      let n = length xs in
      let (first, back, rest, e, fn, bn, cn, t) =
        three_parts m (index + n) obj.cells h (room_of obj v) in
      let (front, old, f, gn) = split_at index first (omega arith) in
      let on : length xs ≡ length old = omega (arith, ap length f, length-append front old) in
      let at : obj.cells ≡ front ++ (old ++ (back ++ rest)) =
        e ∙ ap (λ t. t ++ (back ++ rest)) f ∙ append_assoc front old (back ++ rest) in
      let cells = front ++ (xs ++ (back ++ rest)) in
      let wrote : write_items obj.cells index xs ≡ some cells =
        ap₂ (λ a b. write_items a b xs) at (sym gn) ∙ write_parts front old (back ++ rest) xs on in
      let sum : add_size index n ≡ index + n = omega (arith, v.few_items) in
      let inside : ltb m (index + n) ≡ false = ground arith in
      let size : length cells ≡ length obj.cells = omega (
        arith,
        ap length at,
        length-append front (xs ++ (back ++ rest)),
        length-append xs (back ++ rest),
        length-append front (old ++ (back ++ rest)),
        length-append old (back ++ rest),
      ) in
      let cut = cut_items m (index + n) obj.cells first back fn t in
      let front_of : take index (take m obj.cells) ≡ front =
        ap (λ t. take index t) (t ∙ ap (λ t. t ++ back) f ∙ append_assoc front old back)
        ∙ take-length index front (old ++ back) gn in
      (
        record obj { cells = cells },
        rw (sum, inside, wrote) refl,
        same_storage obj cells v size,
        take_four m front xs back rest (omega arith)
            ∙ ap₂ (λ a b. a ++ (xs ++ b)) (sym front_of) (sym cut.1),
      )

  -- Reading items that are there from a valid buffer hands them over, in order.
  pub read_stream_lem :
      (obj : Buffer A) (index n : ℕ)
      → IsValid obj
      → index + n ≤ obj.data_count
      → read_stream obj index n ≡ take n (drop index (items obj))
  unfolding read_stream
  read_stream_lem obj index n v h =
      let m = obj.data_count in
      let (front, back, rest, e, fn, bn, cn, t) =
        three_parts m index obj.cells (omega arith) (room_of obj v) in
      let (mid, tail, f, gn) = split_at n back (omega arith) in
      let sum : add_size index n ≡ index + n = omega (arith, v.few_items) in
      let inside : ltb m (index + n) ≡ false = ground arith in
      let got : take n (drop index obj.cells) ≡ mid =
        ap (λ t. take n (drop index t)) e
        ∙ ap (λ t. take n t) (drop-length index front (back ++ rest) fn)
        ∙ ap (λ t. take n (t ++ rest)) f
        ∙ ap (λ t. take n t) (append_assoc mid tail rest)
        ∙ take-length n mid (tail ++ rest) gn in
      let want : take n (drop index (items obj)) ≡ mid =
        ap (λ t. take n t) ((cut_items m index obj.cells front back fn t).1 ∙ f)
        ∙ take-length n mid tail gn in
      rw (sum, inside) (got ∙ sym want)

  module _ (junk : ℕ → A) where
    -- A new buffer of items of at most 1024 bytes is valid and empty.
    pub create_lem :
        (one_data_size : ℕ)
        → 0 < one_data_size
        → one_data_size ≤ 1024
        → IsValid (create junk one_data_size) × (items (create junk one_data_size) ≡ [])
    unfolding create
    create_lem one_data_size h k =
        let m = 1024 / one_data_size in
        let low : 1 ≤ m = (le-div_iff_mul-le {x = 1} {y = 1024} h).1 (omega arith) in
        let high : m ≤ 1024 = div-le_self 1024 one_data_size in
        let one : m * 1 ≡ m = mul-one m in
        (
          record {
            some_block = low;
            block_small = high;
            few_items = omega arith;
            fits = omega (arith, one);
            storage = length-tabulate (mul_size m 1) junk ∙ omega (arith, one);
          },
          refl,
        )

    -- An item of more than 1024 bytes cannot be added to a new buffer: the count of items in a
    -- block is 0, and `SABuffer_realloc` divides by it.
    pub add_large :
        (one_data_size : ℕ) (x : A)
        → 1024 < one_data_size
        → add junk (create junk one_data_size) x ≡ none
    unfolding add create realloc
    add_large one_data_size x h = let z = div-eq_of_lt h in rw z refl

    -- A clone of a valid buffer has as many items as it, but they are what the new memory holds.
    pub clone_loses :
        (obj : Buffer A) → IsValid obj → items (clone junk obj) ≡ tabulate obj.data_count junk
    unfolding clone
    clone_loses obj v =
        let size : mul_size obj.one_block_count obj.block_count
            ≡ obj.one_block_count * obj.block_count =
          omega (arith, v.fits.2, v.block_small, v.few_items) in
        rw size (take-tabulate obj.data_count (obj.one_block_count * obj.block_count) junk v.fits.1)
