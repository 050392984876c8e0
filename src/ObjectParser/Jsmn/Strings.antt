-- ===== src/ObjectParser/Jsmn/Strings.antt =====
-- jsmn_interface.c: how much of a text is copied out.
use rmm_2023_pre.Common.{
  ℕ, ◌+◌, ◌-◌, ◌^◌, ◌≤◌, ◌<◌, ◌≡◌, arith, true, none, some, [], ◌∷◌, ◌++◌, length, take, drop, ltb,
  leb, ◌&&◌, if◌then◌else◌, sub_size, ◌∙◌, false,
}
use rmm_2023_pre.ObjectParser.Jsmn.{string, Tok, Jsmn, Range, single, copy_text, parse_as_string}

copied_of :
    (obj : Jsmn) (token : Range) (copy_len : ℕ) (t : Tok)
    → single string obj token ≡ some (some t)
    → parse_as_string obj token copy_len ≡ copy_text obj t copy_len
unfolding parse_as_string
copied_of obj token copy_len t e = rw (parse_as_string, e)

copy_text_of :
    (obj : Jsmn) (t : Tok) (copy_len m : ℕ)
    → sub_size (if ltb (t.end - t.start + 1) copy_len then t.end - t.start else copy_len) 1 ≡ m
    → (ltb m copy_len && leb (t.start + m) (length obj.js)) ≡ true
    → copy_text obj t copy_len ≡ some (some (take m (drop t.start obj.js) ++ (0 ∷ []), m))
unfolding copy_text
copy_text_of obj t copy_len m e f = rw (copy_text, e, f)

copy_text_fault :
    (obj : Jsmn) (t : Tok) (copy_len m : ℕ)
    → sub_size (if ltb (t.end - t.start + 1) copy_len then t.end - t.start else copy_len) 1 ≡ m
    → (ltb m copy_len && leb (t.start + m) (length obj.js)) ≡ false
    → copy_text obj t copy_len ≡ none
unfolding copy_text
copy_text_fault obj t copy_len m e f = rw (copy_text, e, f)

chosen_text :
    (len copy_len : ℕ)
    → len + 1 < copy_len
    → sub_size (if ltb (len + 1) copy_len then len else copy_len) 1 ≡ sub_size len 1
chosen_text len copy_len h = ground arith

chosen_room :
    (len copy_len : ℕ)
    → copy_len ≤ len + 1
    → sub_size (if ltb (len + 1) copy_len then len else copy_len) 1 ≡ sub_size copy_len 1
chosen_room len copy_len h = ground arith

fits : (m n k l : ℕ) → m < n → k ≤ l → (ltb m n && leb k l) ≡ true
fits m n k l h j = ground arith

too_long : (m n k l : ℕ) → n ≤ m → (ltb m n && leb k l) ≡ false
too_long m n k l h = ground arith

-- The last byte of a text that is shorter than the room is not copied.
pub parse_as_string_short :
    (obj : Jsmn) (token : Range) (copy_len : ℕ) (t : Tok)
    → single string obj token ≡ some (some t)
    → t.start < t.end
    → t.end < length obj.js
    → t.end - t.start + 1 < copy_len
    → copy_len < 2 ^ 31
    → parse_as_string obj token copy_len
      ≡ some
          (some (take (t.end - t.start - 1) (drop t.start obj.js) ++ (0 ∷ []), t.end - t.start - 1))
parse_as_string_short obj token copy_len t e h l b c =
    let len = t.end - t.start in
    copied_of obj token copy_len t e
    ∙ copy_text_of obj t copy_len (len - 1) (chosen_text len copy_len b ∙ omega arith)
        (fits (len - 1) copy_len (t.start + (len - 1)) (length obj.js) (omega arith) (omega arith))

-- A longer text is cut to the room.
pub parse_as_string_long :
    (obj : Jsmn) (token : Range) (copy_len : ℕ) (t : Tok)
    → single string obj token ≡ some (some t)
    → t.start ≤ t.end
    → t.end < length obj.js
    → 1 ≤ copy_len
    → copy_len ≤ t.end - t.start + 1
    → copy_len < 2 ^ 31
    → parse_as_string obj token copy_len
      ≡ some (some (take (copy_len - 1) (drop t.start obj.js) ++ (0 ∷ []), copy_len - 1))
parse_as_string_long obj token copy_len t e h l a b c =
    let len = t.end - t.start in
    copied_of obj token copy_len t e
    ∙ copy_text_of obj t copy_len (copy_len - 1) (chosen_room len copy_len b ∙ omega arith) (
        fits (copy_len - 1) copy_len (t.start + (copy_len - 1)) (length obj.js) (omega arith)
          (omega arith))

-- An empty text is copied with a length below zero.
pub parse_as_string_empty :
    (obj : Jsmn) (token : Range) (copy_len : ℕ) (t : Tok)
    → single string obj token ≡ some (some t)
    → t.end ≡ t.start
    → 1 < copy_len
    → copy_len < 2 ^ 31
    → parse_as_string obj token copy_len ≡ none
parse_as_string_empty obj token copy_len t e h a b =
    copied_of obj token copy_len t e
    ∙ copy_text_fault obj t copy_len (2 ^ 64 - 1)
        (chosen_text (t.end - t.start) copy_len (omega arith) ∙ omega arith)
        (too_long (2 ^ 64 - 1) copy_len (t.start + (2 ^ 64 - 1)) (length obj.js) (omega arith))
