-- ===== src/ObjectParser/MsgpackDumper/Numbers.antt =====
-- op_msgpack_dumper.c: the width that is chosen for a number keeps the number.
use rmm_2023_pre.Common.{
  ℕ, ◌^◌, ◌<◌, ◌≡◌, refl, sym, subst, arith, Bool, true, false, ltb, if◌then◌else◌,
}
use rmm_2023_pre.Common.Int.{ℤ, pos, negsuc, ◌≤ℤ◌, ltb_ℤ, to_word}
use rmm_2023_pre.ObjectParser.MsgpackDumper.{
  Call, int8, int16, int32, int64, uint8, uint16, uint32, uint64, cast, signed_call, unsigned_call,
}

-- A call packs a number, which fits the call's type.
pub data Packs : ℤ → Call → Type 0 where
  as_int8 : (x : ℤ) → negsuc 127 ≤ℤ x → x ≤ℤ pos 127 → Packs x (int8 x)
  as_int16 : (x : ℤ) → negsuc 32767 ≤ℤ x → x ≤ℤ pos 32767 → Packs x (int16 x)
  as_int32 : (x : ℤ) → negsuc 2147483647 ≤ℤ x → x ≤ℤ pos 2147483647 → Packs x (int32 x)
  as_int64 :
      (x : ℤ) → negsuc 9223372036854775807 ≤ℤ x → x ≤ℤ pos 9223372036854775807 → Packs x (int64 x)
  as_uint8 : (n : ℕ) → n < 2 ^ 8 → Packs (pos n) (uint8 n)
  as_uint16 : (n : ℕ) → n < 2 ^ 16 → Packs (pos n) (uint16 n)
  as_uint32 : (n : ℕ) → n < 2 ^ 32 → Packs (pos n) (uint32 n)
  as_uint64 : (n : ℕ) → n < 2 ^ 64 → Packs (pos n) (uint64 n)

cast_8 : (x : ℤ) → negsuc 127 ≤ℤ x → x ≤ℤ pos 127 → cast 8 x ≡ x
cast_8 (pos n) h j = ground arith
cast_8 (negsuc n) h j = ground arith

cast_16 : (x : ℤ) → negsuc 32767 ≤ℤ x → x ≤ℤ pos 32767 → cast 16 x ≡ x
cast_16 (pos n) h j = ground arith
cast_16 (negsuc n) h j = ground arith

cast_32 : (x : ℤ) → negsuc 2147483647 ≤ℤ x → x ≤ℤ pos 2147483647 → cast 32 x ≡ x
cast_32 (pos n) h j = ground arith
cast_32 (negsuc n) h j = ground arith

fit_8 : (x : ℤ) → negsuc 127 ≤ℤ x → x ≤ℤ pos 127 → Packs x (int8 (cast 8 x))
fit_8 x h j = subst (λ y. Packs x (int8 y)) (sym (cast_8 x h j)) (as_int8 x h j)

fit_16 : (x : ℤ) → negsuc 32767 ≤ℤ x → x ≤ℤ pos 32767 → Packs x (int16 (cast 16 x))
fit_16 x h j = subst (λ y. Packs x (int16 y)) (sym (cast_16 x h j)) (as_int16 x h j)

fit_32 : (x : ℤ) → negsuc 2147483647 ≤ℤ x → x ≤ℤ pos 2147483647 → Packs x (int32 (cast 32 x))
fit_32 x h j = subst (λ y. Packs x (int32 y)) (sym (cast_32 x h j)) (as_int32 x h j)

one_of :
    (b : Bool) (x : ℤ) (c d : Call)
    → (b ≡ true → Packs x c)
    → (b ≡ false → Packs x d)
    → Packs x (if b then c else d)
one_of true x c d f g = f refl
one_of false x c d f g = g refl

-- The call that is chosen for an integer of 64 bits has a signed type that holds the integer, and
-- packs it unchanged.
pub signed_call-Packs :
    (x : ℤ)
    → negsuc 9223372036854775807 ≤ℤ x
    → x ≤ℤ pos 9223372036854775807
    → Packs x (signed_call x)
signed_call-Packs x h j =
    one_of (ltb_ℤ x (pos 0)) x _ _
      (λ low.
        one_of (ltb_ℤ (negsuc 32767) x) x _ _
          (λ a.
            one_of (ltb_ℤ (negsuc 127) x) x _ _ (λ b. fit_8 x (ground arith) (ground arith))
              (λ b. fit_16 x (ground arith) (ground arith)))
          (λ a.
            one_of (ltb_ℤ (negsuc 2147483647) x) x _ _ (λ b. fit_32 x (ground arith) (ground arith))
              (λ b. as_int64 x h j)))
      (λ high.
        one_of (ltb_ℤ x (pos 32767)) x _ _
          (λ a.
            one_of (ltb_ℤ x (pos 127)) x _ _ (λ b. fit_8 x (ground arith) (ground arith))
              (λ b. fit_16 x (ground arith) (ground arith)))
          (λ a.
            one_of (ltb_ℤ x (pos 2147483647)) x _ _ (λ b. fit_32 x (ground arith) (ground arith))
              (λ b. as_int64 x h j)))

word_8 : (n : ℕ) → n < 127 → to_word 8 (cast 8 (pos n)) ≡ n
word_8 n h = ground arith

word_16 : (n : ℕ) → n < 32767 → to_word 16 (cast 16 (pos n)) ≡ n
word_16 n h = ground arith

word_32 : (n : ℕ) → n < 2147483647 → to_word 32 (cast 32 (pos n)) ≡ n
word_32 n h = ground arith

word_64 : (n : ℕ) → n < 2 ^ 64 → to_word 64 (cast 64 (pos n)) ≡ n
word_64 n h = ground arith

-- The call for an unsigned integer of 64 bits has an unsigned type that holds it, and packs it unchanged.
pub unsigned_call-Packs : (n : ℕ) → n < 2 ^ 64 → Packs (pos n) (unsigned_call n)
unsigned_call-Packs n h =
    one_of (ltb n 32767) (pos n) _ _
      (λ a.
        one_of (ltb n 127) (pos n) _ _
          (λ b.
            subst (λ m. Packs (pos n) (uint8 m)) (sym (word_8 n (ground arith)))
              (as_uint8 n (ground arith)))
          (λ b.
            subst (λ m. Packs (pos n) (uint16 m)) (sym (word_16 n (ground arith)))
              (as_uint16 n (ground arith))))
      (λ a.
        one_of (ltb n 2147483647) (pos n) _ _
          (λ b.
            subst (λ m. Packs (pos n) (uint32 m)) (sym (word_32 n (ground arith)))
              (as_uint32 n (ground arith)))
          (λ b. subst (λ m. Packs (pos n) (uint64 m)) (sym (word_64 n h)) (as_uint64 n h)))
