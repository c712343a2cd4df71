-- ===== src/Ring/Wrap.antt =====
-- Indices that go round at `size`.
use walu_os.Prelude.{ℕ, ◌+◌, ◌-◌, ◌%◌, ◌≤◌, ◌<◌, ◌≡◌, ◌≢◌, ◌⊎◌, inl, inr, arith}
use native.Mathlib.Nat.{mod-eq_of_lt, mod-eq-sub-mod}
use native.Mathlib.Decide.{dec_lt}

module _ {size : ℕ} where
  pub wrap_cases :
      (i : ℕ)
      → i < size + size
      → ((i < size) × (i % size ≡ i)) ⊎ ((size ≤ i) × (i % size ≡ i - size))
  wrap_cases i h = elim (dec_lt i size) [
    | yes p ↦ inl (p, mod-eq_of_lt p)
    | no p ↦ inr (
      omega arith,
      omega (
        arith,
        mod-eq-sub-mod {n = i} {m = size} (omega arith),
        mod-eq_of_lt {n = i - size} {m = size} (omega arith),
      ),
    )
  ]

  pub wrap-lt : (i : ℕ) → i < size + size → i % size < size
  wrap-lt i h = omega (arith, wrap_cases i h)

  -- Different offsets below `size` are different cells.
  pub wrap_ne :
      (start i j : ℕ) → start < size → i < j → j < size → (start + i) % size ≢ (start + j) % size
  wrap_ne start i j hs hij hj e =
      omega (arith, wrap_cases (start + i) (omega arith), wrap_cases (start + j) (omega arith))

  pub wrap_suc :
      (start i : ℕ)
      → start < size
      → i < size
      → ((start + 1) % size + i) % size ≡ (start + (i + 1)) % size
  wrap_suc start i hs hi = omega (
    arith,
    wrap_cases (start + 1) (omega arith),
    wrap_cases ((start + 1) % size + i) (omega (arith, wrap-lt (start + 1) (omega arith))),
    wrap_cases (start + (i + 1)) (omega arith),
  )
