-- ===== src/Userland/Walud/Trim.antt =====
-- `trim` and `split_exec_start` of userland/walud/walud.c.
use walu_os.Prelude.{
  ℕ, zero, suc, Bool, not, ◌||◌, ◌==◌, Option, none, some, List, [], ◌∷◌, Bytes, drop_while,
  take_while, strtok,
}
use mathlib.Core.List.{reverse}

abbrev pub is_blank : ℕ → Bool
is_blank c = c == b' ' || c == b'\t' || c == b'\n' || c == b'\r'

-- The second loop: it starts at the last byte and stops before the first (`end > s`).
abbrev pub trim_end : Bytes → Bytes
trim_end [] = []
trim_end (c ∷ s) = c ∷ reverse (drop_while is_blank (reverse s))

unfoldable pub trim : Bytes → Bytes
trim s = trim_end (drop_while is_blank s)

abbrev pub is_gap : ℕ → Bool
is_gap c = c == b' ' || c == b'\t'

-- `split_exec_start` with room for `n` arguments and the null pointer behind them.
unfoldable pub split_exec_start : ℕ → Bytes → List Bytes
split_exec_start zero line = []
split_exec_start (suc n) line = elim (strtok is_gap line) [
  | none ↦ []
  | some (tok, rest) ↦ tok ∷ split_exec_start n rest
]

-- The text before a byte and that behind it, from the text that begins with it.
abbrev pub split_at : Bytes → Bytes → Option (Bytes × Bytes)
split_at [] before = none
split_at (c ∷ rest) before = some (before, rest)

-- `strchr`: what stands before the first such byte, and behind it.
abbrev pub strchr : Bytes → ℕ → Option (Bytes × Bytes)
strchr s c = split_at (drop_while (λ x. not (x == c)) s) (take_while (λ x. not (x == c)) s)
