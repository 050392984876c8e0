-- ===== src/Std/Buffer/Removal.antt =====
-- The operations of lib/std_api/src/sa_buffer.c that remove.
use rmm_2023_pre.Common.{
  ℕ, ◌+◌, ◌-◌, ◌^◌, ◌≤◌, ◌≡◌, refl, ap, ap₂, sym, ◌∙◌, false, List, ◌++◌, some, ltb, length, take,
  drop, length-append, length-drop, add_size, sub_size, arith,
}
use mathlib.Core.List.{append_assoc}
use rmm_2023_pre.Std.Buffer.{Buffer, realloc, move_items, remove_stream}
use rmm_2023_pre.Std.Buffer.Splice.{take-length, drop-length, split_at, move_parts}
use rmm_2023_pre.Std.Buffer.Refine.{items, IsValid, realloc_keeps}
use rmm_2023_pre.Std.Buffer.Edits.{three_parts, cut_items, room_of}

module _ {ℓ} {A : Type ℓ} where
  -- The copy of a removal.
  close_items :
      (cells : List A) (m index n : ℕ)
      → index + n ≤ m
      → m ≤ length cells
      → (moved : List A) × (move_items cells index (index + n) (m - (index + n)) ≡ some moved)
        × (length moved ≡ length cells)
        × (take (m - n) moved ≡ take index (take m cells) ++ drop (index + n) (take m cells))
  close_items cells m index n h l =
      let (first, back, rest, e, fn, bn, cn, t) = three_parts m (index + n) cells h l in
      let (front, mid, f, gn) = split_at index first (omega arith) in
      let j = m - (index + n) in
      let c = drop (index + j) cells in
      let at : cells ≡ front ++ (mid ++ (back ++ rest)) =
        e ∙ ap (λ t. t ++ (back ++ rest)) f ∙ append_assoc front mid (back ++ rest) in
      let a : take index cells ≡ front =
        ap (λ t. take index t) at ∙ take-length index front (mid ++ (back ++ rest)) gn in
      let b : take j (drop (index + n) cells) ≡ back =
        ap (λ t. take j (drop (index + n) t)) e
        ∙ ap (λ t. take j t) (drop-length (index + n) first (back ++ rest) fn)
        ∙ take-length j back rest bn in
      let cut = cut_items m (index + n) cells first back fn t in
      let front_of : take index (take m cells) ≡ front =
        ap (λ t. take index t) (t ∙ ap (λ t. t ++ back) f ∙ append_assoc front mid back)
        ∙ take-length index front (mid ++ back) gn in
      (
        front ++ (back ++ c),
        move_parts cells front back c index (index + n) j (omega arith) (omega arith) a b refl,
        omega (
          arith,
          length-append front (back ++ c),
          length-append back c,
          length-drop (index + j) cells,
        ),
        ap (λ t. take (m - n) t) (sym (append_assoc front back c))
            ∙ take-length (m - n) (front ++ back) c (omega (arith, length-append front back))
            ∙ ap₂ (λ a b. a ++ b) (sym front_of) (sym cut.1),
      )

  module _ (junk : ℕ → A) where
    remove_of :
        (obj g : Buffer A) (moved : List A) (index n : ℕ)
        → index + n ≤ obj.data_count
        → obj.data_count ≤ 2 ^ 32
        → move_items obj.cells index (index + n) (obj.data_count - (index + n)) ≡ some moved
        → realloc junk (record obj { data_count = obj.data_count - n; cells = moved }) ≡ some g
        → remove_stream junk obj index n ≡ some g
    unfolding remove_stream
    remove_of obj g moved index n h l e f =
        let sum : add_size index n ≡ index + n = omega arith in
        let less : sub_size obj.data_count n ≡ obj.data_count - n = omega arith in
        let inside : ltb obj.data_count (index + n) ≡ false = ground arith in
        rw (sum, inside, e, less, f) refl

    -- Removing items that are there from a valid buffer stays in bounds, keeps the buffer valid,
    -- and leaves the items before and after them.
    pub remove_stream_lem :
        (obj : Buffer A) (index n : ℕ)
        → IsValid obj
        → index + n ≤ obj.data_count
        → (obj' : Buffer A) × (remove_stream junk obj index n ≡ some obj')
          × IsValid obj'
          × (items obj' ≡ take index (items obj) ++ drop (index + n) (items obj))
    remove_stream_lem obj index n v h =
        let m = obj.data_count in
        let (moved, e, size, t) = close_items obj.cells m index n h (room_of obj v) in
        let (g, f, w, c, keep) =
          realloc_keeps junk (record obj { data_count = m - n; cells = moved }) v.some_block
            v.block_small (omega (arith, v.few_items)) v.fits.0
            (omega (arith, v.fits.2, v.block_small, v.few_items)) (size ∙ v.storage) in
        (
          g,
          remove_of obj g moved index n h v.few_items e f,
          w,
          ap (λ k. take k g.cells) c
              ∙ keep (m - n) (omega arith) (omega (arith, size, room_of obj v))
              ∙ t,
        )
