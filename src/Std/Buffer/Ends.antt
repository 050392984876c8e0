-- ===== src/Std/Buffer/Ends.antt =====
-- The operations of lib/std_api/src/sa_buffer.c that add one item and remove all.
use rmm_2023_pre.Common.{
  ℕ, zero, suc, ◌+◌, ◌^◌, ◌<◌, ◌≡◌, refl, ap, sym, ◌∙◌, List, [], ◌∷◌, ◌++◌, some, length, take,
  drop, length-take, length-drop, arith,
}
use rmm_2023_pre.Std.Buffer.{Buffer, add, add_stream, remove_all}
use rmm_2023_pre.Std.Buffer.Refine.{items, IsValid}
use rmm_2023_pre.Std.Buffer.Edits.{room_of, insert_stream_lem}
use rmm_2023_pre.Std.Buffer.Removal.{remove_stream_lem}

module _ {ℓ} {A : Type ℓ} where
  pub length-items : (obj : Buffer A) → IsValid obj → length (items obj) ≡ obj.data_count
  length-items obj v = omega (arith, length-take obj.data_count obj.cells, room_of obj v)

  module _ (junk : ℕ → A) where
    -- `SABuffer_add` puts one item last.
    pub add_lem :
        (obj : Buffer A) (x : A)
        → IsValid obj
        → obj.data_count < 2 ^ 32
        → (obj' : Buffer A) × (add junk obj x ≡ some obj')
          × IsValid obj'
          × (items obj' ≡ items obj ++ (x ∷ []))
    unfolding add add_stream
    add_lem obj x v h =
        let n = obj.data_count in
        let (obj', e, w, i) = insert_stream_lem junk obj n (x ∷ []) v (omega arith) (omega arith) in
        let l : length (items obj) ≡ n = length-items obj v in
        (obj', e, w, i ∙ whole n (items obj) l)
      where
        whole :
            (n : ℕ) (its : List A)
            → length its ≡ n
            → take n its ++ ((x ∷ []) ++ drop n its) ≡ its ++ (x ∷ [])
        whole zero [] l = refl
        whole zero (y ∷ its) l = absurd (omega arith)
        whole (suc n) [] l = absurd (omega arith)
        whole (suc n) (y ∷ its) l = ap (λ t. y ∷ t) (whole n its (omega arith))

    -- `SABuffer_removeAll` leaves nothing.
    pub remove_all_lem :
        (obj : Buffer A)
        → IsValid obj
        → (obj' : Buffer A) × (remove_all junk obj ≡ some obj')
          × IsValid obj'
          × (obj'.data_count ≡ 0)
    unfolding remove_all
    remove_all_lem obj v =
        let n = obj.data_count in
        let (obj', e, w, i) = remove_stream_lem junk obj 0 n v (omega arith) in
        let none_left : length (drop (0 + n) (items obj)) ≡ 0 =
          omega (arith, length-drop (0 + n) (items obj), length-items obj v) in
        (obj', e, w, sym (length-items obj' w) ∙ ap length i ∙ none_left)
