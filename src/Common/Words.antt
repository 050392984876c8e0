-- ===== src/Common/Words.antt =====
-- Machine integers as native numbers: the wrap is written out.
use Prim.Native.Nat.{ℕ, suc, ◌+◌, ◌-◌, ◌%◌, ◌^◌, ◌≤◌, ◌<◌}
use mathlib.Core.Path.{◌≡◌, ◌∙◌, ap}
use mathlib.Core.Logic.{◌≢◌, ◌⊎◌, inl, inr}
use native.Mathlib.Omega.{arith}
use native.Mathlib.Nat.{mod-eq_of_lt, mod-eq-sub-mod, mod-add-mod, mod-lt}
use native.Mathlib.Decide.{dec_lt}

-- `size_t` addition and subtraction.
abbrev pub add_size : ℕ → ℕ → ℕ
add_size a b = (a + b) % 2 ^ 64

abbrev pub sub_size : ℕ → ℕ → ℕ
sub_size a b = (a + 2 ^ 64 - b) % 2 ^ 64

-- A conversion to `uint8_t`.
abbrev pub to_u8 : ℕ → ℕ
to_u8 a = a % 2 ^ 8

-- A remainder of something below twice the modulus takes one subtraction at most.
pub mod_cases : (a m : ℕ) → a < m + m → ((a < m) × (a % m ≡ a)) ⊎ ((m ≤ a) × (a % m ≡ a - m))
mod_cases a m h = elim (dec_lt a m) [
  | yes p ↦ inl (p, mod-eq_of_lt p)
  | no p ↦ inr (
    omega arith,
    omega (
      arith,
      mod-eq-sub-mod {n = a} {m = m} (omega arith),
      mod-eq_of_lt {n = a - m} {m = m} (omega arith),
    ),
  )
]

-- One below a number leaves the greatest remainder exactly when that number leaves none.
pub pred-mod : (w m : ℕ) → 0 < m → suc w % m ≡ 0 → w % m ≡ m - 1
pred-mod w m h e =
    let next : (w % m + 1) % m ≡ suc w % m = mod-add-mod w m 1 ∙ ap (λ t. t % m) (omega arith) in
    omega (arith, next, mod-lt w h, mod_cases (w % m + 1) m (omega (arith, mod-lt w h)))

pub pred-mod_conv : (w m : ℕ) → 0 < m → w % m ≡ m - 1 → suc w % m ≡ 0
pred-mod_conv w m h e =
    let next : (w % m + 1) % m ≡ suc w % m = mod-add-mod w m 1 ∙ ap (λ t. t % m) (omega arith) in
    omega (arith, next, mod-lt w h, mod_cases (w % m + 1) m (omega (arith, mod-lt w h)))

-- `i - 1` in `size_t` arithmetic and then modulo `m` steps back round a ring of `m` places, if
-- `m` divides 2^64.
pub step_back :
    (i m : ℕ)
    → i < m
    → m ≤ 2 ^ 32
    → 2 ^ 64 % m ≡ 0
    → ((i ≡ 0) × (sub_size i 1 % m ≡ m - 1)) ⊎ ((0 < i) × (sub_size i 1 % m ≡ i - 1))
step_back i m h k e = elim (dec_lt 0 i) [
  | yes p ↦ inr (p, rw (less p) (mod-eq_of_lt (omega arith)))
  | no p ↦ inl (omega arith, rw (first p) (pred-mod (2 ^ 64 - 1) m (omega arith) e))
]
  where
    less : 0 < i → sub_size i 1 ≡ i - 1
    less p = omega arith

    first : ¬ (0 < i) → sub_size i 1 ≡ 2 ^ 64 - 1
    first p = omega arith

-- Places of a ring of `m` cells: the place `k` after the one behind `i`, places that differ, and the
-- place `k + 1` after the one before `i`.
pub ring_shift : (i k m : ℕ) → i < m → m ≤ 2 ^ 32 → (add_size i 1 % m + k) % m ≡ (i + (k + 1)) % m
ring_shift i k m h l =
    let small : add_size i 1 ≡ i + 1 = omega arith in
    let sum : i + 1 + k ≡ i + (k + 1) = omega arith in rw (small, mod-add-mod (i + 1) m k, sum)

pub ring_ne : (i k n m : ℕ) → i < m → k < n → n < m → (i + n) % m ≢ (i + k) % m
ring_ne i k n m h p l =
    omega (arith, mod_cases (i + k) m (omega arith), mod_cases (i + n) m (omega arith))

pub ring_back :
    (i k m : ℕ)
    → i < m
    → m ≤ 2 ^ 32
    → 2 ^ 64 % m ≡ 0
    → k < m
    → (sub_size i 1 % m + (k + 1)) % m ≡ (i + k) % m
ring_back i k m h l e p = omega (
  arith,
  step_back i m h l e,
  mod_cases (i + k) m (omega arith),
  mod_cases (sub_size i 1 % m + (k + 1)) m (omega (arith, step_back i m h l e)),
)

pub ring_back_ne :
    (i k m : ℕ) → i < m → m ≤ 2 ^ 32 → 2 ^ 64 % m ≡ 0 → suc k < m → sub_size i 1 % m ≢ (i + k) % m
ring_back_ne i k m h l e p = omega (arith, step_back i m h l e, mod_cases (i + k) m (omega arith))
