-- ===== src/Console/Numbers.antt =====
-- The numbers that kernel/src/core/console.c prints.
use walu_os.Prelude.{
  ℕ, zero, suc, ◌+◌, ◌-◌, ◌*◌, ◌/◌, ◌%◌, ◌^◌, ◌≡◌, ◌≢◌, ◌<◌, ◌≤◌, refl, inl, inr, ◌==◌, ==_iff,
  if◌then◌else◌, List, [], ◌∷◌, length, All, arith, Bool-cases,
}
use mathlib.Core.List.{reverse}
use walu_os.Console.Screen.{Console}
use walu_os.Console.Defs.{putc, write}

-- The first loop of `console_write_dec`, with the number of free cells of `buf` first: the digits, the
-- last one first.
unfoldable pub digits_from : ℕ → ℕ → List ℕ
digits_from zero value = []
digits_from (suc n) value =
    let rest = digits_from n (value / 10) in if value == 0 then [] else (b'0' + value % 10) ∷ rest

unfoldable pub write_dec : Console → ℕ → Console
write_dec c value = if value == 0 then putc c b'0' else write c (reverse (digits_from 21 value))

abbrev pow10 : ℕ → ℕ
pow10 zero = 1
pow10 (suc n) = 10 * pow10 n

abbrev pub IsDigit : ℕ → Type 0
IsDigit d = (b'0' ≤ d) × (d ≤ b'9')

-- The number that digits stand for, the last one first.
abbrev pub value_of : List ℕ → ℕ
value_of [] = 0
value_of (d ∷ ds) = (d - b'0') + 10 * value_of ds

digits_from-value :
    (n value : ℕ)
    → value < pow10 n
    → (value_of (digits_from n value) ≡ value) × All IsDigit (digits_from n value)
unfolding digits_from
digits_from-value zero value h = (omega arith, tt)
digits_from-value (suc n) value h =
    let rest = digits_from-value n (value / 10) (omega arith) in
    elim (Bool-cases (value == 0)) [
      | inl z ↦ rw z (omega (arith, (==_iff value 0).0 z), tt)
      | inr nz ↦ rw nz (omega (arith, rest.0), ((omega arith, omega arith), rest.1))
    ]

some_digits : (ds : List ℕ) → value_of ds ≢ 0 → 1 ≤ length ds
some_digits [] h = absurd (h refl)
some_digits (d ∷ ds) h = omega arith

-- `console_write_dec` writes decimal digits, at least one, that stand for the 64-bit number it is given; the
-- 21 cells of its buffer are enough.
pub write_dec-digits :
    (c : Console) (value : ℕ)
    → value < 2 ^ 64
    → (ds : List ℕ) × (write_dec c value ≡ write c (reverse ds))
      × (value_of ds ≡ value)
      × All IsDigit ds
      × (1 ≤ length ds)
unfolding write_dec write
write_dec-digits c value h = elim (Bool-cases (value == 0)) [
  | inl z ↦ (
    b'0' ∷ [],
    rw z,
    omega (arith, (==_iff value 0).0 z),
    ((omega arith, omega arith), tt),
    omega arith,
  )
  | inr nz ↦
      let d = digits_from-value 21 value (omega arith) in
      (
        digits_from 21 value,
        rw nz,
        d.0,
        d.1,
        some_digits (digits_from 21 value) (λ e. absurd (ground (arith, ==_iff value 0, d.0, e))),
      )
]
