-- ===== src/Shell/Stale.antt =====
-- The form feed (Ctrl+L) of kernel/src/core/shell.c behind a text that Ctrl+D has sent, from the keyboard's queue
-- through tty.c and the terminal of the active session to the console.
use walu_os.Prelude.{
  ℕ, ◌≤◌, ◌<◌, ◌≡◌, ◌≢◌, refl, ap, sym, subst, ◌∙◌, true, [], ◌∷◌, ◌++◌, append-nil, List, Bytes,
  codes, All, length, length-append, take, take_all, drop, arith,
}
use mathlib.Core.List.{reverse, reverse-reverse}
use walu_os.Ring.{contents}
use walu_os.Keyboard.Queue.{pending}
use walu_os.Tty.{Io, write, clear, attached, inject_bytes}
use walu_os.Tty.Sink.{capacity}
use walu_os.Tty.Canonical.{editor_of}
use walu_os.Tty.Editor
use walu_os.Tty.Editor.{Step, keep, line_max, send_pending, press, press_in, key}
use walu_os.Tty.Lines.{IsText, run-text, run-append, length-reverse}
use walu_os.Tty.Refine.{inject_bytes-Receives}
use walu_os.Tty.Poll.{poll_input-inject_bytes}
use walu_os.Tty.Target.{inject_bytes-session_pty}
use walu_os.Pty.{index, slave_read, queue_size, is_valid}
use walu_os.Pty.Transfer
use walu_os.Shell.Defs.{Kernel, line_text}
use walu_os.Shell.Loop.{take_bytes, redraw, polled, shell_poll}
use walu_os.Shell.Line.{holding}
use walu_os.Shell.Redraw.{redraw_stale, redraw_ptys, take_bytes-redraw}
use walu_os.Shell.Poll.{
  AtPrompt, with_ptys, read_from_some, read_from_none, active_loop, read_all_of, waiting-attached,
  attached-is_valid,
}

-- Ctrl+D, then Ctrl+L
abbrev pub send_and_redraw : Bytes
send_and_redraw = 0x04 ∷ 0x0c ∷ []

send_pending_some : (line : List ℕ) → 0 < length line → send_pending line ≡ reverse line
send_pending_some [] h = absurd (omega arith)
send_pending_some (x ∷ xs) h = refl

run-send_and_redraw :
    (line : List ℕ) → (Editor.run (keep line) send_and_redraw).out ≡ send_pending line ++ 0x0c ∷ []
unfolding Editor.run press press_in key
run-send_and_redraw line = refl

-- What the editor sends to the shell.
sent_text :
    (cs : Bytes)
    → All IsText cs
    → 0 < length cs
    → length cs ≤ 127
    → (Editor.run (keep []) (cs ++ send_and_redraw)).out ≡ cs ++ 0x0c ∷ []
sent_text cs t some_typed few =
    let s = Editor.run (keep []) cs in
    let whole : take line_max cs ≡ cs = take_all line_max cs (omega arith) in
    let step = run-text line_max cs [] t refl in
    let editor : s.editor ≡ keep (reverse cs) =
      ap (λ (x : Step). x.editor) step ∙ rw (whole, append-nil) in
    ap (λ (x : Step). x.out) (run-append (keep []) cs send_and_redraw)
    ∙ ap (λ o. o ++ (Editor.run s.editor send_and_redraw).out) (ap (λ (x : Step). x.out) step)
    ∙ ap (λ e. (Editor.run e send_and_redraw).out) editor
    ∙ run-send_and_redraw (reverse cs)
    ∙ ap (λ o. o ++ 0x0c ∷ [])
        (send_pending_some (reverse cs) (omega (arith, length-reverse cs)) ∙ reverse-reverse cs)

module _ (k : Kernel) (v : AtPrompt k) where
  -- The line discipline has put what the editor sends into the queue of the terminal.
  queued :
      (keys sent : Bytes)
      → (Editor.run (editor_of k.io.tty) keys).out ≡ sent
      → length sent ≤ 128
      → let io = inject_bytes k.io keys in
        (contents queue_size (io.ptys.slots (index k.io.tty.session_pty)).m2s ≡ sent)
        × (is_valid io.ptys k.io.tty.session_pty ≡ true)
        × Transfer.Inv io.ptys
  queued keys sent e few =
      let io = inject_bytes k.io keys in
      let received = inject_bytes-Receives keys v.io_inv v.canonical in
      let still : attached io ≡ true = received.target ∙ v.is_attached in
      let same_id = inject_bytes-session_pty k.io keys in
      (
        ap (λ id. contents queue_size (io.ptys.slots (index id)).m2s) (sym same_id)
            ∙ sym (waiting-attached io still)
            ∙ received.reads
            ∙ rw (e, v.nothing_waits) (take_all capacity sent (omega arith)),
        ap (is_valid io.ptys) (sym same_id) ∙ attached-is_valid io still,
        received.inv.ptys_inv,
      )

  -- At the prompt, with an older text left in the buffer of the shell, a text of 1 to 127 bytes that is not longer
  -- than the old one, Ctrl+D (which hands it to the shell without the end of the line) and Ctrl+L: the next
  -- `shell_poll` clears the screen and prints the prompt and the text, and behind the text the rest of
  -- the older one.
  pub shell_poll-redraw_stale :
      (rounds : ℕ) (cs old : Bytes)
      → pending k.keyboard ≡ cs ++ send_and_redraw
      → line_text k ≡ old
      → All IsText cs
      → 0 < length cs
      → length cs ≤ length old
      → length cs ≤ 127
      → (shell_poll rounds k).io.console
        ≡ write (cs ++ drop (length cs) old)
          ∷ write (codes "\u{1b}[1;32mwalu\u{1b}[0m> ")
          ∷ clear
          ∷ (inject_bytes k.io (cs ++ send_and_redraw)).console
  shell_poll-redraw_stale rounds cs old typed stale t some_typed fits few =
      let id = k.io.tty.session_pty in
      let keys = cs ++ send_and_redraw in
      let sent = cs ++ 0x0c ∷ [] in
      let received : (polled k).io ≡ inject_bytes k.io keys =
        (poll_input-inject_bytes k.io k.keyboard v.keyboard_ok).0 ∙ ap (inject_bytes k.io) typed in
      let short : length sent ≤ 128 = omega (arith, few, length-append cs (0x0c ∷ [])) in
      let out : (Editor.run (editor_of k.io.tty) keys).out ≡ sent =
        ap (λ e. (Editor.run e keys).out) v.line_empty ∙ sent_text cs t some_typed few in
      let (holds, valid, inv) =
        subst
          (λ (io : Io).
            (contents queue_size (io.ptys.slots (index id)).m2s ≡ sent)
            × (is_valid io.ptys id ≡ true)
            × Transfer.Inv io.ptys)
          (sym received) (queued keys sent out short) in
      let first = read_all_of k v (polled k).io.ptys sent inv valid holds short in
      let between = (slave_read (polled k).io.ptys id true 128).0 in
      let second = read_all_of k v between [] first.2 first.3 first.1 (omega arith) in
      let k1 = with_ptys (polled k) between in
      let after = take_bytes k1 sent in
      let drawn : after ≡ redraw (holding k1 cs) = take_bytes-redraw k1 cs v.shell_empty t few in
      let same_ptys : after.io.ptys ≡ between =
        ap (λ x. x.io.ptys) drawn ∙ redraw_ptys (holding k1 cs) some_typed in
      let none_left : (slave_read after.io.ptys id true 128).1 ≡ [] =
        ap (λ p. (slave_read p id true 128).1) same_ptys ∙ second.0 in
      let some_sent : sent ≢ [] =
        λ z. absurd (omega (arith, length-append cs (0x0c ∷ []), ap length z)) in
      let ran : shell_poll rounds k ≡ with_ptys after (slave_read after.io.ptys id true 128).0 =
        active_loop k v rounds
        ∙ read_from_some 2047 id (polled k) sent first.0 some_sent
        ∙ read_from_none 2046 id after none_left in
      ap (λ x. x.io.console) ran
      ∙ redraw_stale k1 cs old v.shell_empty stale t some_typed fits few
      ∙ ap
          (λ (io : Io).
            write (cs ++ drop (length cs) old)
            ∷ write (codes "\u{1b}[1;32mwalu\u{1b}[0m> ")
            ∷ clear
            ∷ io.console)
          received
