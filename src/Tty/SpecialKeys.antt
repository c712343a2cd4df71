-- ===== src/Tty/SpecialKeys.antt =====
-- What canonical mode of kernel/src/core/tty.c makes of the keys of keyboard.c that have no
-- character.
use walu_os.Prelude.{ℕ, ◌+◌, ◌≡◌, refl, ap, sym, subst, ◌∙◌, true, List, [], length, u64, arith}
use walu_os.Keyboard.Keycode.{
  Key, key_up, key_down, key_right, key_left, key_home, key_end, key_insert, key_delete, key_pageup,
  key_pagedown, key_f1, key_f2, key_f3, key_f4, key_f5, key_f6, key_f7, key_f8, key_f9, key_f10,
  key_f11, key_f12,
}
use walu_os.Keyboard.Keymap.{special_sequence}
use walu_os.Tty.Defs.{Io, attached, inject_bytes}
use walu_os.Tty.Sink.{Inv, waiting, length-waiting}
use walu_os.Tty.Flush.{Delivers-nil}
use walu_os.Tty.Canonical.{typed, escape_of, editor_of}
use walu_os.Tty.Editor
use walu_os.Tty.Editor.{Step, run, press, press_in, keep}
use walu_os.Tty.Refine.{Receives, inject_bytes-Receives}

-- The editor is as it was, and every byte was part of an escape sequence.
abbrev pub ignored : List ℕ → ℕ → Step
ignored line n = record { editor = keep line; out = []; lost = 0; eaten = n }

run-sequence :
    (line : List ℕ) (k : Key)
    → run (keep line) (special_sequence k) ≡ ignored line (length (special_sequence k))
unfolding run press press_in special_sequence
run-sequence line key_up = refl
run-sequence line key_down = refl
run-sequence line key_right = refl
run-sequence line key_left = refl
run-sequence line key_home = refl
run-sequence line key_end = refl
run-sequence line key_insert = refl
run-sequence line key_delete = refl
run-sequence line key_pageup = refl
run-sequence line key_pagedown = refl
run-sequence line key_f1 = refl
run-sequence line key_f2 = refl
run-sequence line key_f3 = refl
run-sequence line key_f4 = refl
run-sequence line key_f5 = refl
run-sequence line key_f6 = refl
run-sequence line key_f7 = refl
run-sequence line key_f8 = refl
run-sequence line key_f9 = refl
run-sequence line key_f10 = refl
run-sequence line key_f11 = refl
run-sequence line key_f12 = refl
run-sequence line _ = refl

-- What is left of the state that a reader, the user or `ttyinfo` sees: the line, the mode, the target
-- and what waits are as before; the `n` bytes are counted as received and as discarded.
pub record Ignores (io : Io) (n : ℕ) (out : Io) : Type 0 where
  pub inv : Inv out
  pub edits : editor_of out.tty ≡ editor_of io.tty
  pub reads : waiting out ≡ waiting io
  pub drops : out.tty.drop_count ≡ io.tty.drop_count
  pub overflows : out.tty.line_overflow_count ≡ io.tty.line_overflow_count
  pub mode : out.tty.canonical ≡ io.tty.canonical
  pub target : attached out ≡ attached io
  pub counted : out.tty.rx_count ≡ u64 (io.tty.rx_count + n)
  pub discarded : out.tty.escape_discard_count ≡ u64 (io.tty.escape_discard_count + n)

-- In canonical mode, with the escape filter at rest, the bytes that the keyboard sends for a key without a
-- character leave the line, the filter, what waits for the reader and the counts of dropped bytes
-- and overflows as they were; each of those bytes is counted as received and as discarded (modulo
-- 2 ^ 64).
pub inject_bytes-special_sequence :
    {io : Io} (k : Key)
    → Inv io
    → io.tty.canonical ≡ true
    → io.tty.escape_state ≡ 0
    → Ignores io (length (special_sequence k)) (inject_bytes io (special_sequence k))
inject_bytes-special_sequence {io} k v on rest =
    let line = typed io.tty.line io.tty.line_len in
    let bs = special_sequence k in
    let at_rest : editor_of io.tty ≡ keep line =
      ap (λ (n : ℕ). record { line = line; escape = escape_of n }) rest in
    let step : Editor.run (editor_of io.tty) bs ≡ ignored line (length bs) =
      ap (λ e. Editor.run e bs) at_rest ∙ run-sequence line k in
    let r : Receives io (ignored line (length bs)) bs (inject_bytes io bs) =
      subst (λ s. Receives io s bs (inject_bytes io bs)) step (inject_bytes-Receives bs v on) in
    record {
      inv = r.inv;
      edits = r.edits ∙ sym at_rest;
      reads = r.reads ∙ sym (Delivers-nil v).reads;
      drops = omega (arith, r.drops, v.drop_fits, length-waiting v);
      overflows = omega (arith, r.overflows, v.overflow_fits);
      mode = r.mode;
      target = r.target;
      counted = r.counted;
      discarded = r.escapes;
    }
