-- ===== src/Tty/Canonical.antt =====
-- How the state of kernel/src/core/tty.c is read as a line editor, and what it is to follow it.
use walu_os.Prelude.{
  ℕ, zero, suc, ◌+◌, ◌-◌, ◌≡◌, ◌≤◌, refl, ap, ap₂, ◌∙◌, List, [], ◌∷◌, ◌++◌, set, set_self,
  set_other, length, take, u64, inc64, arith,
}
use mathlib.Core.List.{reverse, reverse-cons}
use native.Mathlib.Numerals.{add-one}
use walu_os.Tty.Defs.{Io, Tty, attached}
use walu_os.Tty.Sink.{Inv, Delivers, waiting, capacity}
use walu_os.Tty.Flush.{slice}
use walu_os.Tty.Editor.{Editor, Escape, resting, started, control, Step}

-- The first `n` bytes of the line buffer, the latest first.
abbrev pub typed : (ℕ → ℕ) → ℕ → List ℕ
typed line zero = []
typed line (suc n) = line n ∷ typed line n

abbrev pub escape_of : ℕ → Escape
escape_of zero = resting
escape_of (suc zero) = started
escape_of (suc (suc n)) = control

-- The editor that the state of the line discipline stands for.
abbrev pub editor_of : Tty → Editor
editor_of t = record { line = typed t.line t.line_len; escape = escape_of t.escape_state }

-- The reader's queue and the counters have gone from `io` to `out` as the step says: the queue has
-- what the step sends, as far as it fits, and each byte that did not fit there or in the line is
-- counted.
pub record Counts (io : Io) (s : Step) (out : Io) : Type 0 where
  pub reads : waiting out ≡ take capacity (waiting io ++ s.out)
  pub drops :
      out.tty.drop_count
      ≡ u64 (io.tty.drop_count + (length (waiting io) + length s.out - capacity) + s.lost)
  pub overflows : out.tty.line_overflow_count ≡ u64 (io.tty.line_overflow_count + s.lost)
  pub mode : out.tty.canonical ≡ io.tty.canonical
  pub target : attached out ≡ attached io
  pub counted : out.tty.rx_count ≡ io.tty.rx_count
  pub escapes : out.tty.escape_discard_count ≡ u64 (io.tty.escape_discard_count + s.eaten)

-- The line discipline has gone from `io` to `out` as the editor does by the step `s`.
pub record Handles (io : Io) (s : Step) (out : Io) : Type 0 where
  pub inv : Inv out
  pub edits : editor_of out.tty ≡ s.editor
  pub counts : Counts io s out

pub length-typed : (line : ℕ → ℕ) (n : ℕ) → length (typed line n) ≡ n
length-typed line zero = refl
length-typed line (suc n) = ap suc (length-typed line n)

typed-set : (line : ℕ → ℕ) (n i b : ℕ) → n ≤ i → typed (set line i b) n ≡ typed line n
typed-set line zero i b h = refl
typed-set line (suc n) i b h =
    ap₂ ◌∷◌ (set_other line i n b (omega arith)) (typed-set line n i b (omega arith))

pub typed-store : (line : ℕ → ℕ) (n b : ℕ) → typed (set line n b) (n + 1) ≡ b ∷ typed line n
typed-store line n b = rw add-one (ap₂ ◌∷◌ (set_self line n b) (typed-set line n n b (omega arith)))

slice_snoc : (line : ℕ → ℕ) (i n : ℕ) → slice line i (suc n) ≡ slice line i n ++ (line (i + n) ∷ [])
slice_snoc line i zero = ap (λ k. line k ∷ []) (omega arith)
slice_snoc line i (suc n) =
    ap (◌∷◌ (line i))
      (slice_snoc line (i + 1) n ∙ ap (λ k. slice line (i + 1) n ++ (line k ∷ [])) (omega arith))

pub slice-reverse : (line : ℕ → ℕ) (n : ℕ) → slice line 0 n ≡ reverse (typed line n)
slice-reverse line zero = refl
slice-reverse line (suc n) =
    slice_snoc line 0 n
    ∙ rw (slice-reverse line n, reverse-cons)
        (ap (λ k. reverse (typed line n) ++ (line k ∷ [])) (omega arith))

-- A change of the state that the counters and the queue do not see.
pub record Same (io mid : Io) : Type 0 where
  pub waits : waiting mid ≡ waiting io
  pub drops : mid.tty.drop_count ≡ io.tty.drop_count
  pub overflows : mid.tty.line_overflow_count ≡ io.tty.line_overflow_count
  pub mode : mid.tty.canonical ≡ io.tty.canonical
  pub target : attached mid ≡ attached io
  pub counted : mid.tty.rx_count ≡ io.tty.rx_count
  pub escapes : mid.tty.escape_discard_count ≡ io.tty.escape_discard_count

pub Same-refl : (io : Io) → Same io io
Same-refl io = record {
  waits = refl;
  drops = refl;
  overflows = refl;
  mode = refl;
  target = refl;
  counted = refl;
  escapes = refl;
}

pub Counts-Same :
    {io mid out out' : Io} {s : Step}
    → Same io mid
    → Counts mid s out
    → Same out out'
    → Counts io s out'
Counts-Same a c b = record {
  reads = b.waits ∙ c.reads ∙ rw a.waits;
  drops = b.drops ∙ c.drops ∙ rw (a.drops, a.waits);
  overflows = b.overflows ∙ c.overflows ∙ rw a.overflows;
  mode = b.mode ∙ c.mode ∙ a.mode;
  target = b.target ∙ c.target ∙ a.target;
  counted = b.counted ∙ c.counted ∙ a.counted;
  escapes = b.escapes ∙ c.escapes ∙ rw a.escapes;
}

pub delivered :
    {io out : Io} {e : Editor} {bs : List ℕ}
    → Inv io
    → Delivers io bs out
    → Counts io (record { editor = e; out = bs; lost = 0; eaten = 0 }) out
delivered {io} {out} {e} {bs} v d = record {
  reads = d.reads;
  drops = d.drops ∙ ap u64 (omega arith);
  overflows = ap (λ (t : Tty). t.line_overflow_count) d.rest ∙ omega (arith, v.overflow_fits);
  mode = ap (λ (t : Tty). t.canonical) d.rest;
  target = d.same_target;
  counted = ap (λ (t : Tty). t.rx_count) d.rest;
  escapes = ap (λ (t : Tty). t.escape_discard_count) d.rest ∙ omega (arith, v.escapes_fit);
}

-- The line buffer has refused a byte, which is counted twice over, as lost and as an overflow.
pub record Refused (io mid : Io) : Type 0 where
  pub waits : waiting mid ≡ waiting io
  pub drops : mid.tty.drop_count ≡ inc64 io.tty.drop_count
  pub overflows : mid.tty.line_overflow_count ≡ inc64 io.tty.line_overflow_count
  pub mode : mid.tty.canonical ≡ io.tty.canonical
  pub target : attached mid ≡ attached io
  pub counted : mid.tty.rx_count ≡ io.tty.rx_count
  pub escapes : mid.tty.escape_discard_count ≡ io.tty.escape_discard_count

pub Counts-Refused :
    {io mid out out' : Io} {e : Editor} {bs : List ℕ}
    → Refused io mid
    → Counts mid (record { editor = e; out = bs; lost = 0; eaten = 0 }) out
    → Same out out'
    → Counts io (record { editor = e; out = bs; lost = 1; eaten = 0 }) out'
Counts-Refused {io} {mid} a c b = record {
  reads = b.waits ∙ c.reads ∙ rw a.waits;
  drops = omega (arith, b.drops, c.drops, a.drops, ap length a.waits);
  overflows = omega (arith, b.overflows, c.overflows, a.overflows);
  mode = b.mode ∙ c.mode ∙ a.mode;
  target = b.target ∙ c.target ∙ a.target;
  counted = b.counted ∙ c.counted ∙ a.counted;
  escapes = b.escapes ∙ c.escapes ∙ rw a.escapes;
}
