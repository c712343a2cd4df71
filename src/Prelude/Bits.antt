-- ===== src/Prelude/Bits.antt =====
-- Binary digits: masks of ones as remainders, and tests of all small numbers.
use Prim.Native.Nat.{
  ℕ, zero, suc, ◌+◌, ◌*◌, ◌/◌, ◌%◌, ◌≤◌, ◌<◌, min, bit_and, digits, bit_and-bitwise,
}
use mathlib.Core.Path.{◌≡◌, refl, ◌∙◌}
use mathlib.Core.Logic.{inl, inr}
use mathlib.Core.Bool.{Bool, true, ◌&&◌}
use native.Mathlib.Omega.{arith}
use walu_os.Prelude.Tests.{◌==◌, ==_iff, Bool-cases}

-- The number of `k` binary ones, and the lowest `k` digits of a number.
abbrev ones : ℕ → ℕ
ones zero = 0
ones (suc k) = ones k * 2 + 1

abbrev low : ℕ → ℕ → ℕ
low zero m = 0
low (suc k) m = low k (m / 2) * 2 + m % 2

low-zero : (k : ℕ) → low k 0 ≡ 0
low-zero zero = refl
low-zero (suc k) = omega (arith, low-zero k)

digits-ones : (k n a : ℕ) → a ≤ n → digits (λ b. 0) min n a (ones k) ≡ low k a
digits-ones k zero zero h = omega (arith, low-zero k)
digits-ones k zero (suc a) h = absurd (omega arith)
digits-ones k (suc n) zero h = omega (arith, low-zero k)
digits-ones zero (suc n) (suc a) h = omega (arith, digits-ones zero n (suc a / 2) (omega arith))
digits-ones (suc k) (suc n) (suc a) h =
    let half : (ones k * 2 + 1) / 2 ≡ ones k = omega arith in
    rw half (omega (arith, digits-ones k n (suc a / 2) (omega arith)))

bit_and-ones : (k a : ℕ) → bit_and a (ones k) ≡ low k a
bit_and-ones k a = bit_and-bitwise a (ones k) ∙ digits-ones k a a (omega arith)

pub bit_and_1 : (a : ℕ) → bit_and a 1 ≡ a % 2
bit_and_1 a = omega (arith, bit_and-ones 1 a)

pub bit_and_63 : (a : ℕ) → bit_and a 0x3f ≡ a % 64
bit_and_63 a = omega (arith, bit_and-ones 6 a)

pub bit_and_127 : (a : ℕ) → bit_and a 0x7f ≡ a % 128
bit_and_127 a = omega (arith, bit_and-ones 7 a)

-- A test of every number below a bound, and what it says of one.
abbrev pub all_below : ℕ → (ℕ → Bool) → Bool
all_below zero p = true
all_below (suc n) p = p n && all_below n p

pub all_below-holds : (p : ℕ → Bool) (n : ℕ) → all_below n p ≡ true → (x : ℕ) → x < n → p x ≡ true
all_below-holds p zero h x lt = absurd (omega arith)
all_below-holds p (suc n) h x lt = elim (Bool-cases (x == n)) [
  | inl e ↦ rw ((==_iff x n).0 e) (ground arith)
  | inr e ↦ all_below-holds p n (ground arith) x (ground arith)
]
