-- ===== src/Prelude/Lines.antt =====
-- `fgets`: a file in lines.
use Prim.Native.Nat.{ℕ, ◌-◌, ◌<◌}
use mathlib.Core.Path.{◌≡◌, refl, ap, ◌∙◌}
use mathlib.Core.Bool.{Bool, true, false, ◌||◌}
use mathlib.Core.List.{List, [], ◌∷◌, ◌++◌, append_assoc}
use native.Mathlib.Omega.{arith}
use walu_os.Prelude.Tests.{◌==◌, ==_ne}
use walu_os.Prelude.Lists.{length}
use walu_os.Prelude.Text.{Bytes, NoneOf, terminated}

-- The chunks that `fgets` with a buffer of `size + 1` bytes reads from a file: a line with its end,
-- or `size` bytes of it. `room` is what is left of the buffer, `line` what is in it.
abbrev last_chunk : Bytes → List Bytes
last_chunk [] = []
last_chunk (c ∷ s) = (c ∷ s) ∷ []

abbrev pub chunks_from : ℕ → ℕ → Bytes → Bytes → List Bytes
chunks_from size room line [] = last_chunk line
chunks_from size room line (c ∷ s) = elim (c == b'\n' || room == 1) [
  | true ↦ (line ++ c ∷ []) ∷ chunks_from size size [] s
  | false ↦ chunks_from size (room - 1) (line ++ c ∷ []) s
]

abbrev pub chunks : ℕ → Bytes → List Bytes
chunks size s = chunks_from size size [] s

chunks_from_more :
    (size room : ℕ) (line : Bytes) (c : ℕ) (s : Bytes)
    → (c == b'\n') ≡ false
    → (room == 1) ≡ false
    → chunks_from size room line (c ∷ s) ≡ chunks_from size (room - 1) (line ++ c ∷ []) s
chunks_from_more size room line c s hc hr =
    let e : (c == b'\n' || room == 1) ≡ false = rw (hc, hr) refl in
    ap
      (λ b. elim b as (λ _. List Bytes) [
        | true ↦ (line ++ c ∷ []) ∷ chunks_from size size [] s
        | false ↦ chunks_from size (room - 1) (line ++ c ∷ []) s
      ])
      e

-- A line that fits is one chunk.
pub chunks_from-line :
    (size room : ℕ) (line w rest : Bytes)
    → NoneOf (λ c. c == b'\n') w
    → length w < room
    → chunks_from size room line (w ++ b'\n' ∷ rest)
      ≡ (line ++ (w ++ b'\n' ∷ [])) ∷ chunks size rest
chunks_from-line size room line [] rest h lt = refl
chunks_from-line size room line (c ∷ w) rest (hc, h) lt =
    chunks_from_more size room line c (w ++ b'\n' ∷ rest) hc
      (==_ne room 1 (λ e. absurd (omega (arith, lt, e))))
    ∙ (chunks_from-line size (room - 1) (line ++ c ∷ []) w rest h (omega (arith, lt))
        ∙ ap (λ l. l ∷ chunks size rest) (append_assoc line (c ∷ []) (w ++ b'\n' ∷ [])))

-- What ends a text or a line.
abbrev pub is_break : ℕ → Bool
is_break c = c == 0 || c == b'\n'

pub no_newline : (w : Bytes) → NoneOf is_break w → NoneOf (λ c. c == b'\n') w
no_newline [] h = tt
no_newline (c ∷ w) (hc, h) = (ground (arith, hc), no_newline w h)

-- A line has no null byte, so that all of it counts.
pub terminated_line :
    (w : Bytes) → NoneOf is_break w → terminated (w ++ b'\n' ∷ []) ≡ w ++ b'\n' ∷ []
terminated_line [] h = refl
terminated_line (c ∷ w) (hc, h) =
    let e : (c == 0) ≡ false = ground (arith, hc) in rw e (ap (◌∷◌ c) (terminated_line w h))
