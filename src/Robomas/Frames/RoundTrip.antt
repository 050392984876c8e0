-- ===== src/Robomas/Frames/RoundTrip.antt =====
-- rm_m3508.c: what is read from the bytes of the packed structures, and the bytes of what is read.
use mathlib.Core.List.{append-nil}
use rmm_2023_pre.Common.{
  ℕ, zero, suc, ◌+◌, ◌*◌, ◌/◌, ◌%◌, ◌^◌, ◌<◌, ◌≡◌, refl, ap, ◌∙◌, arith, List, [], ◌∷◌, ◌++◌, take,
  drop, length, length-take, length-drop, take-append-drop, sym, ap₂, ◌≤◌,
}
use rmm_2023_pre.Robomas.Frames.{le_bytes, le_word, word_at, CoefFrame, coef_bytes, read_coef}

abbrev pub AllBytes : List ℕ → Type 0
AllBytes [] = Unit
AllBytes (b ∷ bs) = (b < 256) × AllBytes bs

pub length-le_bytes : (n x : ℕ) → length (le_bytes n x) ≡ n
unfolding le_bytes
length-le_bytes zero x = refl
length-le_bytes (suc n) x = ap suc (length-le_bytes n (x / 256))

pub le_bytes-le_word : (bs : List ℕ) → AllBytes bs → le_bytes (length bs) (le_word bs) ≡ bs
unfolding le_bytes le_word
le_bytes-le_word [] h = refl
le_bytes-le_word (b ∷ bs) h =
    let lo : (b + 256 * le_word bs) % 256 ≡ b = omega arith in
    let hi : (b + 256 * le_word bs) / 256 ≡ le_word bs = omega arith in
    rw (lo, hi, le_bytes-le_word bs h.1)

-- A word that fits is read from its bytes.
pub le_word-le_bytes_two : (x : ℕ) → x < 2 ^ 16 → le_word (le_bytes 2 x) ≡ x
unfolding le_bytes le_word
le_word-le_bytes_two x h = omega arith

pub le_word-le_bytes_four : (x : ℕ) → x < 2 ^ 32 → le_word (le_bytes 4 x) ≡ x
unfolding le_bytes le_word
le_word-le_bytes_four x h = omega arith

pub le_word-le_bytes_eight : (x : ℕ) → x < 2 ^ 64 → le_word (le_bytes 8 x) ≡ x
unfolding le_bytes le_word
le_word-le_bytes_eight x h = omega arith

pub AllBytes-take : (n : ℕ) (bs : List ℕ) → AllBytes bs → AllBytes (take n bs)
AllBytes-take zero bs h = tt
AllBytes-take (suc n) [] h = tt
AllBytes-take (suc n) (b ∷ bs) h = (h.0, AllBytes-take n bs h.1)

AllBytes-drop : (n : ℕ) (bs : List ℕ) → AllBytes bs → AllBytes (drop n bs)
AllBytes-drop zero bs h = h
AllBytes-drop (suc n) [] h = tt
AllBytes-drop (suc n) (b ∷ bs) h = AllBytes-drop n bs h.1

drop-nil : (n : ℕ) → drop {A = ℕ} n [] ≡ []
drop-nil zero = refl
drop-nil (suc n) = refl

pub drop-drop : (i n : ℕ) (bs : List ℕ) → drop n (drop i bs) ≡ drop (i + n) bs
drop-drop zero n bs = ap (λ k. drop k bs) (omega arith)
drop-drop (suc i) n [] = let e : suc i + n ≡ suc (i + n) = omega arith in rw (drop-nil n, e)
drop-drop (suc i) n (b ∷ bs) =
    let e : suc i + n ≡ suc (i + n) = omega arith in rw (e, drop-drop i n bs)

-- The bytes of the word at a place are the bytes there.
field_bytes :
    (i n : ℕ) (bs : List ℕ)
    → AllBytes bs
    → i + n ≤ length bs
    → le_bytes n (word_at i n bs) ++ drop (i + n) bs ≡ drop i bs
unfolding word_at
field_bytes i n bs h l =
    let part = take n (drop i bs) in
    let size : length part ≡ n = omega (arith, length-take n (drop i bs), length-drop i bs) in
    ap (λ k. le_bytes k (le_word part) ++ drop (i + n) bs) (sym size)
    ∙ ap₂ (λ x y. x ++ y)
        (le_bytes-le_word part (AllBytes-take n (drop i bs) (AllBytes-drop i bs h)))
        (sym (drop-drop i n bs))
    ∙ take-append-drop n (drop i bs)

pub record CoefFits (f : CoefFrame) : Type 0 where
  pub mot_id : f.mot_id < 256
  pub p : f.p < 2 ^ 32
  pub i : f.i < 2 ^ 32
  pub d : f.d < 2 ^ 32

pub read_coef-coef_bytes : (f : CoefFrame) → CoefFits f → read_coef (coef_bytes f) ≡ f
unfolding read_coef coef_bytes word_at le_bytes le_word
read_coef-coef_bytes f h = ground arith

drop_all : (bs : List ℕ) (n : ℕ) → length bs ≤ n → drop n bs ≡ []
drop_all [] n h = drop-nil n
drop_all (b ∷ bs) zero h = absurd (omega arith)
drop_all (b ∷ bs) (suc n) h = drop_all bs n (omega arith)

first_byte : (bs : List ℕ) → 0 < length bs → le_word (take 1 bs) ∷ drop 1 bs ≡ bs
unfolding le_word
first_byte [] h = absurd (omega arith)
first_byte (b ∷ bs) h = ap (λ x. x ∷ bs) (omega arith)

pub coef_bytes-read_coef :
    (bs : List ℕ) → AllBytes bs → length bs ≡ 13 → coef_bytes (read_coef bs) ≡ bs
unfolding read_coef coef_bytes word_at
coef_bytes-read_coef bs h l =
    ap (λ x. le_word (take 1 bs) ∷ x)
      (ap (λ x. le_bytes 4 (word_at 1 4 bs) ++ (le_bytes 4 (word_at 5 4 bs) ++ x))
          (sym (append-nil (le_bytes 4 (word_at 9 4 bs)))
            ∙ ap (λ x. le_bytes 4 (word_at 9 4 bs) ++ x) (sym (drop_all bs 13 (omega arith)))
            ∙ field_bytes 9 4 bs h (omega arith))
        ∙ ap (λ x. le_bytes 4 (word_at 1 4 bs) ++ x) (field_bytes 5 4 bs h (omega arith))
        ∙ field_bytes 1 4 bs h (omega arith))
    ∙ first_byte bs (omega arith)

pub take_all : (bs : List ℕ) (n : ℕ) → length bs ≤ n → take n bs ≡ bs
take_all [] zero h = refl
take_all [] (suc n) h = refl
take_all (b ∷ bs) zero h = absurd (omega arith)
take_all (b ∷ bs) (suc n) h = ap (λ l. b ∷ l) (take_all bs n (omega arith))
