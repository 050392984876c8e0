-- ===== src/Std/Buffer/Splice.antt =====
-- What the copies of lib/std_api/src/sa_buffer.c do to a list that is split where they cut.
use rmm_2023_pre.Common.{
  ℕ, zero, suc, ◌+◌, ◌-◌, ◌≤◌, ◌≡◌, refl, ap, sym, ◌∙◌, true, List, [], ◌∷◌, ◌++◌, some, leb,
  length, take, drop, length-append, length-take, take-append-drop, arith,
}
use mathlib.Core.List.{append_assoc}
use rmm_2023_pre.Std.Buffer.{Buffer, move_items, write_items, open_and_write}

module _ {ℓ} {A : Type ℓ} where
  pub take-length : (n : ℕ) (xs ys : List A) → length xs ≡ n → take n (xs ++ ys) ≡ xs
  take-length zero [] ys h = refl
  take-length zero (x ∷ xs) ys h = absurd (omega arith)
  take-length (suc n) [] ys h = absurd (omega arith)
  take-length (suc n) (x ∷ xs) ys h = ap (λ l. x ∷ l) (take-length n xs ys (omega arith))

  pub drop-length : (n : ℕ) (xs ys : List A) → length xs ≡ n → drop n (xs ++ ys) ≡ ys
  drop-length zero [] ys h = refl
  drop-length zero (x ∷ xs) ys h = absurd (omega arith)
  drop-length (suc n) [] ys h = absurd (omega arith)
  drop-length (suc n) (x ∷ xs) ys h = drop-length n xs ys (omega arith)

  pub take-take : (k n : ℕ) (xs : List A) → k ≤ n → take k (take n xs) ≡ take k xs
  take-take zero n xs h = refl
  take-take (suc k) zero xs h = absurd (omega arith)
  take-take (suc k) (suc n) [] h = refl
  take-take (suc k) (suc n) (x ∷ xs) h = ap (λ l. x ∷ l) (take-take k n xs (omega arith))

  pub take-append : (k : ℕ) (xs ys : List A) → k ≤ length xs → take k (xs ++ ys) ≡ take k xs
  take-append zero xs ys h = refl
  take-append (suc k) [] ys h = absurd (omega arith)
  take-append (suc k) (x ∷ xs) ys h = ap (λ l. x ∷ l) (take-append k xs ys (omega arith))

  -- A list is cut at any place that it has.
  pub split_at :
      (n : ℕ) (xs : List A)
      → n ≤ length xs
      → (front back : List A) × (xs ≡ front ++ back) × (length front ≡ n)
  split_at n xs h =
      (take n xs, drop n xs, sym (take-append-drop n xs), omega (arith, length-take n xs))

  -- A copy within memory whose three parts are known.
  pub move_parts :
      (cells a b c : List A) (dst src n : ℕ)
      → dst + n ≤ length cells
      → src + n ≤ length cells
      → take dst cells ≡ a
      → take n (drop src cells) ≡ b
      → drop (dst + n) cells ≡ c
      → move_items cells dst src n ≡ some (a ++ (b ++ c))
  unfolding move_items
  move_parts cells a b c dst src n h k e f g =
      let h' : leb (dst + n) (length cells) ≡ true = ground arith in
      let k' : leb (src + n) (length cells) ≡ true = ground arith in rw (h', k', e, f, g) refl

  -- A copy into memory: what stands at the place is replaced.
  pub write_parts :
      (front old back xs : List A)
      → length xs ≡ length old
      → write_items (front ++ (old ++ back)) (length front) xs ≡ some (front ++ (xs ++ back))
  unfolding write_items
  write_parts front old back xs h =
      let l = length-append front (old ++ back) in
      let m = length-append old back in
      let fits : leb (length front + length xs) (length (front ++ (old ++ back))) ≡ true =
        ground (arith, l, m) in
      let cut : drop (length front + length xs) (front ++ (old ++ back)) ≡ back =
        ap (λ t. drop (length front + length xs) t) (sym (append_assoc front old back))
        ∙ drop-length (length front + length xs) (front ++ old) back
            (omega (arith, length-append front old)) in
      rw (fits, take-length (length front) front (old ++ back) refl, cut) refl

  -- The copies of an insertion into `front ++ (back ++ rest)`, where `rest` has the room.
  pub splice :
      (obj : Buffer A) (front back rest xs : List A)
      → obj.cells ≡ front ++ (back ++ rest)
      → length xs ≤ length rest
      → open_and_write (length front + length back) (length front) xs obj
        ≡ some (record obj { cells = front ++ (xs ++ (back ++ drop (length xs) rest)) })
  unfolding open_and_write
  splice obj front back rest xs e h =
      let i = length front in
      let k = length xs in
      let j = length back in
      let cells = front ++ (back ++ rest) in
      let size : length cells ≡ i + (j + length rest) =
        length-append front (back ++ rest) ∙ ap (λ n. i + n) (length-append back rest) in
      let w = split_at k (back ++ rest) (omega (arith, length-append back rest)) in
      let u = split_at k rest h in
      let a : take (i + k) cells ≡ front ++ w.0 =
        ap (λ t. take (i + k) (front ++ t)) w.2
        ∙ ap (λ t. take (i + k) t) (sym (append_assoc front w.0 w.1))
        ∙ take-length (i + k) (front ++ w.0) w.1 (omega (arith, length-append front w.0, w.3)) in
      let count : i + j - i ≡ j = omega arith in
      let b : take j (drop i cells) ≡ back =
        ap (λ t. take j t) (drop-length i front (back ++ rest) refl)
        ∙ take-length j back rest refl in
      let c : drop (i + k + j) cells ≡ drop k rest =
        ap (λ t. drop (i + k + j) (front ++ (back ++ t))) u.2
        ∙ ap (λ t. drop (i + k + j) (front ++ t)) (sym (append_assoc back u.0 u.1))
        ∙ ap (λ t. drop (i + k + j) t) (sym (append_assoc front (back ++ u.0) u.1))
        ∙ drop-length (i + k + j) (front ++ (back ++ u.0)) u.1
            (omega (arith, length-append front (back ++ u.0), length-append back u.0, u.3))
        ∙ sym (drop-length k u.0 u.1 u.3)
        ∙ ap (λ t. drop k t) (sym u.2) in
      let moved : move_items cells (i + k) i j ≡ some ((front ++ w.0) ++ (back ++ drop k rest)) =
        move_parts cells (front ++ w.0) back (drop k rest) (i + k) i j (omega arith) (omega arith) a
          b c in
      let wrote = write_parts front w.0 (back ++ drop k rest) xs (sym w.3) in
      rw (open_and_write, e, count, moved, append_assoc front w.0 (back ++ drop k rest), wrote) refl
