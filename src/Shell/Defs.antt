-- ===== src/Shell/Defs.antt =====
-- The kernel as kernel/src/core/shell.c sees it: its own line, and the state of the files that it calls.
use walu_os.Prelude.{ℕ, zero, suc, ◌+◌, true, ◌==◌, if◌then◌else◌, List, [], ◌∷◌, Bytes, codes, ℤ}
use walu_os.Keyboard.{Keyboard}
use walu_os.Tty.{Io, Echo, write, is_nonneg}
use walu_os.Pty.{Ptys, slave_read, queue_size}
use walu_os.Session.{Sessions, active_pty}
use walu_os.Pmm.{Pmm}
use walu_os.Shell.History.{History}

-- `SHELL_LINE_MAX`
abbrev pub shell_line_max : ℕ
shell_line_max = 128

-- `ticks` is what `pit_ticks` returns; `shell_line` and `shell_len` are the globals of shell.c.
pub record Kernel : Type 0 where
  pub keyboard : Keyboard
  pub io : Io
  pub sessions : Sessions
  pub pmm : Pmm
  pub ticks : ℕ
  pub history : History
  pub shell_line : ℕ → ℕ
  pub shell_len : ℕ

-- A call of the console.
abbrev pub say : Kernel → Echo → Kernel
say k e = record k { io = record k.io { console = e ∷ k.io.console } }

unfoldable pub says : Kernel → List Echo → Kernel
says k [] = k
says k (e ∷ es) = says (say k e) es

unfoldable pub shell_prompt : Kernel → Kernel
shell_prompt k = say k (write (codes "\u{1b}[1;32mwalu\u{1b}[0m> "))

-- The loop of `drain_active_pty`, with the number of rounds left first.
unfoldable pub drain_from : ℕ → Ptys → ℤ → Ptys
drain_from zero p id = p
drain_from (suc n) p id =
    let (p', bytes) = slave_read p id true 128 in
    elim bytes [ [] ↦ p' | _ ∷ _ ↦ drain_from n p' id ]

-- A queue of 2048 cells takes fewer rounds than it has cells.
unfoldable pub drain_active_pty : Kernel → Kernel
drain_active_pty k =
    let pty_id = active_pty k.sessions in
    if is_nonneg pty_id
    then record k { io = record k.io { ptys = drain_from queue_size k.io.ptys pty_id } }
    else k

-- The text in an array at index `i`, up to its null byte, with the number of cells left first.
unfoldable pub text_from : ℕ → ℕ → (ℕ → ℕ) → Bytes
text_from zero i line = []
text_from (suc n) i line =
    let rest = text_from n (i + 1) line in if line i == 0 then [] else line i ∷ rest

-- `shell_line` as the text that the functions of the C library see.
abbrev pub line_text : Kernel → Bytes
line_text k = text_from shell_line_max 0 k.shell_line
