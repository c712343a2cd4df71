-- ===== src/Startup/Defs.antt =====
-- The end of `kernel_main` in kernel/src/core/kernel.c, from `keyboard_init` to its endless loop.
use walu_os.Prelude.{ℕ, ◌&&◌, if◌then◌else◌, List, [], ◌∷◌, codes, ℤ}
use walu_os.Keyboard
use walu_os.Tty
use walu_os.Tty.{Io, write, putc, is_nonneg, attach_session}
use walu_os.Pty
use walu_os.Session.{Sessions, create, set_controlling_pty, set_active}
use walu_os.Session
use walu_os.Shell.Defs.{Kernel, says}
use walu_os.Shell.Loop.{shell_init}

-- `keyboard_init`, `tty_init`, `pty_init` and `session_init`
unfoldable pub reset : Kernel → Kernel
reset k = record k {
  keyboard = Keyboard.init k.keyboard;
  io = record k.io { tty = Tty.init k.io.tty; ptys = Pty.init };
  sessions = Session.init;
}

-- The block that opens the first session; `&&` stops at the first that fails.
abbrev pub attach : Kernel → ℤ → ℤ → Kernel
attach k sid pty =
    says (record k { io = record k.io { tty = attach_session k.io.tty sid pty } })
      (write (codes "Session initialized\n") ∷ [])

abbrev pub degraded : Kernel → Kernel
degraded k = says k (write (codes "Session initialization degraded\n") ∷ [])

abbrev pub activate : Kernel → ℤ → ℤ → Kernel
activate k sid pty =
    let (sessions, active) = set_active k.sessions sid in
    let k' = record k { sessions = sessions } in if active then attach k' sid pty else degraded k'

abbrev pub control : Kernel → ℤ → ℤ → Kernel
control k sid pty =
    let (sessions, set) = set_controlling_pty k.sessions k.io.ptys sid pty in
    let k' = record k { sessions = sessions } in if set then activate k' sid pty else degraded k'

unfoldable pub open_session : Kernel → Kernel
open_session k =
    let (sessions, sid) = create k.sessions 1 in
    let (ptys, pty) = Pty.alloc k.io.ptys in
    let opened = record k { sessions = sessions; io = record k.io { ptys = ptys } } in
    if is_nonneg sid && is_nonneg pty then control opened sid pty else degraded opened

-- `rust_boot_banner`
abbrev pub banner : List ℕ
banner = codes "Rust subsystem online (no_std)"

unfoldable pub bring_up : Kernel → Kernel
bring_up k = shell_init (
    says (open_session (reset k)) (
      write (codes "Interrupts initialized\n")
      ∷ write banner
      ∷ putc b'\n'
      ∷ write (codes "Kernel ready. Type `help`.\n")
      ∷ []))
