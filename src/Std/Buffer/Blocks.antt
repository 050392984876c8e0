-- ===== src/Std/Buffer/Blocks.antt =====
-- How many blocks lib/std_api/src/sa_buffer.c keeps.
use native.Mathlib.Nat.{
  mul-add, mul-one, mul-div-le, lt-mul-div-succ, div-le_self, le_of_mul-le-mul_left,
  le-mul_of_pos_right, mul_comm,
}
use rmm_2023_pre.Common.{
  ℕ, ◌+◌, ◌-◌, ◌*◌, ◌/◌, ◌^◌, ◌≤◌, ◌<◌, ◌≡◌, refl, ap, sym, ◌∙◌, ltb, leb, if◌then◌else◌, add_size,
  sub_size, arith, Bool-cases, inl, inr,
}
use rmm_2023_pre.Std.Buffer.{mul_size, next_blocks}

-- The blocks have room for the data, and at most one block's items to spare.
abbrev pub Fits : ℕ → ℕ → ℕ → Type 0
Fits m blocks n = (0 < blocks) × (n ≤ m * blocks) × (m * blocks ≤ n + m)

grown-Fits : (m b n a q : ℕ) → 0 < m → a ≡ m * b → a < n → q ≡ (n - a) / m → Fits m (b + (q + 1)) n
grown-Fits m b n a q h e k f =
    let up : m * (b + (q + 1)) ≡ m * b + m * (q + 1) = mul-add m b (q + 1) in
    let more : m * (q + 1) ≡ m * q + m * 1 = mul-add m q 1 in
    let low : m * q ≤ n - a = rw f (mul-div-le (n - a) m) in
    let high : n - a < m * (q + 1) = rw f (lt-mul-div-succ (n - a) h) in
    omega (arith, up, more, low, high, mul-one m)

shrunk-Fits :
    (m b n a q : ℕ)
    → 0 < m
    → 0 < b
    → a ≡ m * b
    → n ≤ a
    → q ≡ (a - n) / m
    → (q ≤ b) × Fits m (if leb (b - q) 0 then 1 else b - q) n
shrunk-Fits m b n a q h p e k f =
    let low : m * q ≤ a - n = rw f (mul-div-le (a - n) m) in
    let high : a - n < m * (q + 1) = rw f (lt-mul-div-succ (a - n) h) in
    let more : m * (q + 1) ≡ m * q + m * 1 = mul-add m q 1 in
    let below : q ≤ b = le_of_mul-le-mul_left {k = m} (omega (arith, low, e)) h in
    let split : m * (q + (b - q)) ≡ m * q + m * (b - q) = mul-add m q (b - q) in
    let whole : q + (b - q) ≡ b = omega arith in
    let total : m * b ≡ m * q + m * (b - q) = ap (λ t. m * t) (sym whole) ∙ split in
    (
      below,
      elim (Bool-cases (leb (b - q) 0)) [
        | inl z ↦
            let none_left : b ≡ q = ground arith in
            let at : m * b ≡ m * q = ap (λ t. m * t) none_left in
            rw z (omega (arith, mul-one m, low, at, le-mul_of_pos_right m p))
        | inr z ↦
            let some_left : 0 < b - q = ground arith in
            rw z (omega (arith, mul-one m, low, high, more, total))
      ],
    )

-- `SABuffer_realloc` keeps as many blocks as the items need, and at most one more.
pub next_blocks-Fits :
    (m b n : ℕ) → 0 < m → 0 < b → m * b ≤ 2 ^ 62 → n ≤ 2 ^ 62 → Fits m (next_blocks m b n) n
unfolding next_blocks
next_blocks-Fits m b n h p k l =
    let a = m * b in
    let small : mul_size m b ≡ a = omega arith in
    let few : b ≤ m * b = omega (arith, le-mul_of_pos_right b h, mul_comm b m) in
    elim (Bool-cases (ltb a n)) [
      | inl e ↦
          let q = (n - a) / m in
          let f = grown-Fits m b n a q h refl (ground arith) refl in
          let gap : sub_size n a ≡ n - a = let o : a < n = ground arith in omega arith in
          let bound : q ≤ n - a = div-le_self (n - a) m in
          let one : add_size q 1 ≡ q + 1 = omega arith in
          let sum : add_size b (q + 1) ≡ b + (q + 1) = omega arith in rw (small, e, gap, one, sum) f
      | inr e ↦
          let q = (a - n) / m in
          let o : n ≤ a = ground arith in
          let f = shrunk-Fits m b n a q h p refl o refl in
          let gap : sub_size a n ≡ a - n = omega arith in
          let left : sub_size b q ≡ b - q = omega (arith, f.0) in rw (small, e, gap, left) f.1
    ]
