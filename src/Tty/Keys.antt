-- ===== src/Tty/Keys.antt =====
-- What the keys of canonical mode of kernel/src/core/tty.c have in common: changes that neither the
-- editor nor the reader sees, sending one byte, and flushing the line.
use walu_os.Prelude.{
  ℕ, zero, suc, ◌-◌, ◌≡◌, ◌≢◌, ◌<◌, refl, ap, sym, subst, inl, inr, Bool, List, [], ◌∷◌, arith,
  Bool-cases,
}
use mathlib.Core.List.{reverse}
use walu_os.Tty.Defs.{
  Io, Echo, echoes, enqueue_read, flush_line_buffer, flush_from, overflow, line_buffer_size,
}
use walu_os.Tty.Sink.{Inv, enqueue_read-Delivers}
use walu_os.Tty.Flush.{flush_from-Delivers, Delivers-nil}
use walu_os.Tty.Canonical.{
  typed, slice-reverse, escape_of, Counts, Handles, Same, Same-refl, Counts-Same, delivered,
}
use walu_os.Tty.Editor
use walu_os.Tty.Editor.{Editor, Escape, resting, Step, keep, send_line, send_pending, key}

unfoldable pub with_line : Io → (ℕ → ℕ) → ℕ → Io
with_line io line n = record io { tty = record io.tty { line = line; line_len = n } }

pub line-Inv :
    {io : Io} → Inv io → (line : ℕ → ℕ) (n : ℕ) → n < line_buffer_size → Inv (with_line io line n)
unfolding with_line
line-Inv v line n h = record {
  ptys_inv = v.ptys_inv;
  read_in = v.read_in;
  line_fits = h;
  escape_in = v.escape_in;
  drop_fits = v.drop_fits;
  overflow_fits = v.overflow_fits;
  rx_fits = v.rx_fits;
  escapes_fit = v.escapes_fit;
}

pub with_line-Same : (io : Io) (line : ℕ → ℕ) (n : ℕ) → Same io (with_line io line n)
unfolding with_line
with_line-Same io line n = record {
  waits = refl;
  drops = refl;
  overflows = refl;
  mode = refl;
  target = refl;
  counted = refl;
  escapes = refl;
}

pub overflow-Inv : {io : Io} → Inv io → Inv (record io { tty = overflow io.tty })
overflow-Inv v = record {
  ptys_inv = v.ptys_inv;
  read_in = v.read_in;
  line_fits = v.line_fits;
  escape_in = v.escape_in;
  drop_fits = omega arith;
  overflow_fits = omega arith;
  rx_fits = v.rx_fits;
  escapes_fit = v.escapes_fit;
}

-- The console and the mark for a line that is too long are seen by neither editor nor reader.
unfoldable pub unseen : Io → List Echo → Bool → Io
unseen io console truncated = record io {
  tty = record io.tty { line_truncated = truncated };
  console = console;
}

module _ {io : Io} (console : List Echo) (truncated : Bool) where
  pub unseen-Inv : Inv io → Inv (unseen io console truncated)
  unfolding unseen
  unseen-Inv v = record {
    ptys_inv = v.ptys_inv;
    read_in = v.read_in;
    line_fits = v.line_fits;
    escape_in = v.escape_in;
    drop_fits = v.drop_fits;
    overflow_fits = v.overflow_fits;
    rx_fits = v.rx_fits;
    escapes_fit = v.escapes_fit;
  }

  pub unseen-Same : Same io (unseen io console truncated)
  unfolding unseen
  unseen-Same = record {
    waits = refl;
    drops = refl;
    overflows = refl;
    mode = refl;
    target = refl;
    counted = refl;
    escapes = refl;
  }

pub Handles-unseen :
    {io out : Io} {s : Step} (console : List Echo) (truncated : Bool)
    → Handles io s out
    → Handles io s (unseen out console truncated)
unfolding unseen
Handles-unseen {io} {out} console truncated h = record {
  inv = unseen-Inv console truncated h.inv;
  edits = h.edits;
  counts = Counts-Same (Same-refl io) h.counts (unseen-Same {io = out} console truncated);
}

-- The state that `echoes` leads to, as a change that is not seen.
pub echoed :
    (io : Io) (e : Echo)
    → (console : List Echo) × (echoes io e ≡ unseen io console io.tty.line_truncated)
unfolding unseen
echoed io e = elim (Bool-cases io.tty.echo) [
  | inl on ↦ (e ∷ io.console, rw on)
  | inr off ↦ (io.console, rw off)
]

pub Handles-echoes :
    {io out : Io} {s : Step} (e : Echo) → Handles io s out → Handles io s (echoes out e)
Handles-echoes {io} {out} {s} e h =
    let (console, same) = echoed out e in
    subst (Handles io s) (sym same) (Handles-unseen console out.tty.line_truncated h)

pub Handles-Same : {io mid out : Io} {s : Step} → Same io mid → Handles mid s out → Handles io s out
Handles-Same {out = out} a h = record {
  inv = h.inv;
  edits = h.edits;
  counts = Counts-Same a h.counts (Same-refl out);
}

pub without_last-typed :
    (line : ℕ → ℕ) (n : ℕ) → typed line (n - 1) ≡ Editor.without_last (typed line n)
without_last-typed line zero = refl
without_last-typed line (suc n) = ap (typed line) (omega arith)

pub send_pending-typed :
    (line : ℕ → ℕ) (n : ℕ) → n ≢ 0 → send_pending (typed line n) ≡ reverse (typed line n)
send_pending-typed line zero h = absurd (h refl)
send_pending-typed line (suc n) h = refl

module _ {io : Io} (v : Inv io) (g : io.tty.escape_state ≡ 0) where
  abbrev pub now : List ℕ
  now = typed io.tty.line io.tty.line_len

  pub in_ground :
      (line : List ℕ)
      → ◌≡◌ {A = Editor}
          (record { line = line; escape = escape_of io.tty.escape_state })
          (keep line)
  in_ground line = ap (λ k. record { line = line; escape = escape_of k }) g

  pub unchanged : Handles io (record { editor = keep now; out = []; lost = 0; eaten = 0 }) io
  unchanged = record { inv = v; edits = in_ground now; counts = delivered v (Delivers-nil v) }

  pub send :
      (b : ℕ)
      → Handles io
          (record { editor = keep now; out = b ∷ []; lost = 0; eaten = 0 })
          (enqueue_read io b).0
  send b =
      let d = enqueue_read-Delivers b v in
      record { inv = d.inv; edits = rw d.rest (in_ground now); counts = delivered v d }

  pub flush-Handles :
      Handles io
        (record { editor = keep []; out = reverse now; lost = 0; eaten = 0 })
        (flush_line_buffer io)
  unfolding flush_line_buffer with_line
  flush-Handles =
      let d = flush_from-Delivers io.tty.line_len 0 v in
      let out = flush_from io.tty.line_len 0 io in
      record {
        inv = line-Inv d.inv out.tty.line 0 (omega arith);
        edits = rw d.rest (in_ground []);
        counts =
            Counts-Same (Same-refl io)
              (subst
                (λ bs. Counts io (record { editor = keep []; out = bs; lost = 0; eaten = 0 }) out)
                (slice-reverse io.tty.line io.tty.line_len) (delivered v d))
              (with_line-Same out out.tty.line 0);
      }
