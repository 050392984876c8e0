-- ===== src/Common/Bits.antt =====
-- Facts about masks, checked value by value over a byte and over a 16-bit word.
use Prim.Native.Nat.{ℕ, zero, suc, ◌+◌, ◌*◌, ◌/◌, ◌%◌, ◌<◌, bit_and}
use mathlib.Core.Path.{◌≡◌, refl}
use mathlib.Core.Bool.{Bool, true, ◌&&◌}
use native.Mathlib.Omega.{arith}
use rmm_2023_pre.Common.Tests.{◌==◌, ==_iff}

-- The test holds at every number below `n`.
unfoldable pub every_below : ℕ → (ℕ → Bool) → Bool
every_below zero test = true
every_below (suc n) test = test n && every_below n test

pub every_below_sound :
    (n : ℕ) (test : ℕ → Bool) (x : ℕ) → every_below n test ≡ true → x < n → test x ≡ true
unfolding every_below
every_below_sound zero test x h lt = absurd (omega arith)
every_below_sound (suc n) test x h lt = ground (arith, every_below_sound n test x)

abbrev word_test : (ℕ → Bool) → Bool
word_test test = every_below 256 (λ hi. every_below 256 (λ lo. test (hi * 256 + lo)))

pub word_test_sound : (test : ℕ → Bool) (x : ℕ) → word_test test ≡ true → x < 65536 → test x ≡ true
word_test_sound test x h lt =
    let e : x / 256 * 256 + x % 256 ≡ x = omega arith in
    rw e at (
      every_below_sound 256 (λ lo. test (x / 256 * 256 + lo)) (x % 256)
        (every_below_sound 256 (λ hi. every_below 256 (λ lo. test (hi * 256 + lo))) (x / 256) h
          (omega arith))
        (omega arith))

mask10_table : word_test (λ x. bit_and x 0x3ff == x % 1024) ≡ true
unfolding every_below
mask10_table = refl

mask4_table : word_test (λ x. bit_and x 0x00f == x % 16) ≡ true
unfolding every_below
mask4_table = refl

-- `x & 0x3FF` and `x & 0x00F` of a 16-bit word are remainders.
pub mask10 : (x : ℕ) → x < 65536 → bit_and x 0x3ff ≡ x % 1024
mask10 x h = (==_iff _ _).0 (word_test_sound (λ x. bit_and x 0x3ff == x % 1024) x mask10_table h)

pub mask4 : (x : ℕ) → x < 65536 → bit_and x 0x00f ≡ x % 16
mask4 x h = (==_iff _ _).0 (word_test_sound (λ x. bit_and x 0x00f == x % 16) x mask4_table h)
