-- ===== src/Tty/Ending.antt =====
-- The end of a line in kernel/src/core/tty.c, and the bell of a full one.
use walu_os.Prelude.{ℕ, ◌≡◌, refl, sym, subst, Bool, true, false, if◌then◌else◌, List, [], ◌∷◌}
use mathlib.Core.List.{reverse}
use walu_os.Tty.Defs.{Io, Echo, putc, echoes, flush_line_buffer, overflow}
use walu_os.Tty.Sink.{Inv}
use walu_os.Tty.Canonical.{typed, Handles}
use walu_os.Tty.Keys.{
  unseen, unseen-Inv, unseen-Same, Handles-unseen, echoed, Handles-Same, flush-Handles,
}
use walu_os.Tty.Editor
use walu_os.Tty.Editor.{Editor, Escape, resting, Step, keep, send_line, send_pending, key}

pub typed_empty : (line : ℕ → ℕ) (n : ℕ) → n ≡ 0 → typed line n ≡ []
typed_empty line n e = rw e

pub without_last_empty :
    (line : ℕ → ℕ) (n : ℕ) → n ≡ 0 → Editor.without_last (typed line n) ≡ typed line n
without_last_empty line n e = rw e

-- A bell or none, then the mark of a line that is too long.
pub belled :
    (io : Io) (ring : Bool) (bell : Echo)
    → (console : List Echo) × (record (if ring
          then (record io { console = bell ∷ io.console })
          else io) { tty = overflow io.tty }
        ≡ unseen (record io { tty = overflow io.tty }) console true)
unfolding unseen
belled io true bell = (bell ∷ io.console, refl)
belled io false bell = (io.console, refl)

-- What `end_line` does once it has stored the end of the line, or found no room for it.
unfoldable pub finish_line : Io → Io
finish_line mid =
    let flushed = flush_line_buffer (echoes mid (putc b'\n')) in
    record flushed { tty = record flushed.tty { line_truncated = false } }

pub finish_line-Handles :
    {mid : Io}
    → Inv mid
    → mid.tty.escape_state ≡ 0
    → Handles mid
        (record {
          editor = keep [];
          out = reverse (typed mid.tty.line mid.tty.line_len);
          lost = 0;
          eaten = 0;
        })
        (finish_line mid)
unfolding finish_line unseen
finish_line-Handles {mid} v g =
    let (console, same) = echoed mid (putc b'\n') in
    let quiet = unseen mid console mid.tty.line_truncated in
    let sent =
      Handles-Same (unseen-Same console mid.tty.line_truncated)
        (flush-Handles (unseen-Inv console mid.tty.line_truncated v) g) in
    subst
      (λ (m : Io).
        Handles mid
          (record {
            editor = keep [];
            out = reverse (typed mid.tty.line mid.tty.line_len);
            lost = 0;
            eaten = 0;
          })
          (let flushed = flush_line_buffer m in
            record flushed { tty = record flushed.tty { line_truncated = false } }))
      (sym same) (Handles-unseen (flush_line_buffer quiet).console false sent)
