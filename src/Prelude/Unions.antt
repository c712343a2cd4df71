-- ===== src/Prelude/Unions.antt =====
-- The operation `|` on numbers whose digits fall into a high and a low part.
use Prim.Native.Nat.{
  ℕ, zero, suc, ◌+◌, ◌*◌, ◌/◌, ◌%◌, ◌^◌, ◌≤◌, ◌<◌, max, bit_or, digits, bit_or-bitwise,
}
use mathlib.Core.Path.{◌≡◌, refl, sym, ap, ap₂, ◌∙◌}
use native.Mathlib.Omega.{arith}

-- Rounds to spare change nothing.
unions-enough :
    (n m a b : ℕ) → a ≤ n → a ≤ m → digits (λ b. b) max n a b ≡ digits (λ b. b) max m a b
unions-enough zero zero a b h h' = refl
unions-enough zero (suc m) zero b h h' = refl
unions-enough zero (suc m) (suc a) b h h' = absurd (omega arith)
unions-enough (suc n) zero zero b h h' = refl
unions-enough (suc n) zero (suc a) b h h' = absurd (omega arith)
unions-enough (suc n) (suc m) zero b h h' = refl
unions-enough (suc n) (suc m) (suc a) b h h' =
    omega (arith, unions-enough n m (suc a / 2) (b / 2) (omega arith) (omega arith))

-- The lowest digit, and the rest.
pub bit_or-step : (a b : ℕ) → bit_or a b ≡ bit_or (a / 2) (b / 2) * 2 + max (a % 2) (b % 2)
bit_or-step zero b = omega (arith, bit_or-bitwise 0 b, bit_or-bitwise 0 (b / 2))
bit_or-step (suc a) b = omega (
  arith,
  bit_or-bitwise (suc a) b,
  bit_or-bitwise (suc a / 2) (b / 2),
  unions-enough a (suc a / 2) (suc a / 2) (b / 2) (omega arith) (omega arith),
)

-- `a`, followed by the lowest `k` digits of `b`
abbrev before : ℕ → ℕ → ℕ → ℕ
before zero a b = a
before (suc k) a b = before k a (b / 2) * 2 + b % 2

bit_or-before :
    (k a b c d : ℕ) → bit_or (before k a b) (before k c d) ≡ before k (bit_or a c) (bit_or b d)
bit_or-before zero a b c d = refl
bit_or-before (suc k) a b c d =
    let x = before k a (b / 2) in
    let y = before k c (d / 2) in
    let half_x : (x * 2 + b % 2) / 2 ≡ x = omega arith in
    let half_y : (y * 2 + d % 2) / 2 ≡ y = omega arith in
    let half : bit_or b d / 2 ≡ bit_or (b / 2) (d / 2) = omega (arith, bit_or-step b d) in
    let high : bit_or x y ≡ before k (bit_or a c) (bit_or (b / 2) (d / 2)) =
      bit_or-before k a (b / 2) c (d / 2) in
    let whole : bit_or (x * 2 + b % 2) (y * 2 + d % 2)
        ≡ bit_or x y * 2 + max ((x * 2 + b % 2) % 2) ((y * 2 + d % 2) % 2) =
      bit_or-step (x * 2 + b % 2) (y * 2 + d % 2)
      ∙ ap₂ (λ (p q : ℕ). bit_or p q * 2 + max ((x * 2 + b % 2) % 2) ((y * 2 + d % 2) % 2)) half_x
          half_y in
    rw half (omega (arith, whole, high, bit_or-step b d))

power : (k : ℕ) → 2 ^ suc k ≡ 2 ^ k * 2
power k = grind arith

scaled : (k a : ℕ) → a * 2 ^ suc k ≡ a * 2 ^ k * 2
scaled k a = grind (arith, power k)

before-is : (k a b : ℕ) → b < 2 ^ k → before k a b ≡ a * 2 ^ k + b
before-is zero a b h = omega arith
before-is (suc k) a b h =
    omega (arith, power k, scaled k a, before-is k a (b / 2) (omega (arith, power k)))

-- `|` of two numbers of the form `a * 2 ^ k + b` with `b` below `2 ^ k`
pub bit_or-split :
    (k a b c d : ℕ)
    → b < 2 ^ k
    → d < 2 ^ k
    → bit_or b d < 2 ^ k
    → bit_or (a * 2 ^ k + b) (c * 2 ^ k + d) ≡ bit_or a c * 2 ^ k + bit_or b d
bit_or-split k a b c d hb hd h =
    ap₂ bit_or (sym (before-is k a b hb)) (sym (before-is k c d hd))
    ∙ bit_or-before k a b c d
    ∙ before-is k (bit_or a c) (bit_or b d) h

bit_or-zero_from : (n a : ℕ) → a ≤ n → bit_or a 0 ≡ a
bit_or-zero_from n zero h = refl
bit_or-zero_from zero (suc a) h = absurd (omega arith)
bit_or-zero_from (suc n) (suc a) h =
    omega (arith, bit_or-step (suc a) 0, bit_or-zero_from n (suc a / 2) (omega arith))

pub bit_or-zero : (a : ℕ) → bit_or a 0 ≡ a
bit_or-zero a = bit_or-zero_from a a (omega arith)

pub zero-bit_or : (a : ℕ) → bit_or 0 a ≡ a
zero-bit_or a = bit_or-bitwise 0 a

-- A number that stands below the digits of the other, or beside its own low part.
pub bit_or-low :
    (k a b d : ℕ)
    → b < 2 ^ k
    → d < 2 ^ k
    → bit_or b d < 2 ^ k
    → bit_or (a * 2 ^ k + b) d ≡ a * 2 ^ k + bit_or b d
bit_or-low k a b d hb hd h =
    let split = bit_or-split k a b 0 d hb hd h in
    let zero_high : 0 * 2 ^ k + d ≡ d = omega arith in
    ap (bit_or (a * 2 ^ k + b)) (sym zero_high)
    ∙ split
    ∙ ap (λ (x : ℕ). x * 2 ^ k + bit_or b d) (bit_or-zero a)
