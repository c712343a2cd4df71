-- ===== src/Shell/Reports.antt =====
-- The commands of kernel/src/core/shell.c that print.
use walu_os.Prelude.{ℕ, ◌==◌, if◌then◌else◌, List, [], ◌∷◌, ◌++◌, Bytes, codes, ℤ, pos, negsuc}
use walu_os.Tty.{Echo, write, write_dec, write_hex}
use walu_os.Session.{active_pty}
use walu_os.Pmm.{total_kib, used_kib, free_kib}
use walu_os.Keyboard.Keymap.{
  has_bit, mod_shift, mod_ctrl, mod_alt, mod_altgr, mod_meta, lock_caps, lock_num, lock_scroll,
}
use walu_os.Shell.Defs.{Kernel}

unfoldable pub cmd_help : List Echo
cmd_help =
    write (codes "Commands:\n")
    ∷ write (codes "  help     - show this help\n")
    ∷ write (codes "  clear    - clear the screen\n")
    ∷ write (codes "  meminfo  - show memory/timer stats\n")
    ∷ write (codes "  kbdinfo  - show keyboard modifier/lock state\n")
    ∷ write (codes "  ttyinfo  - show tty RX/drop counters\n")
    ∷ write (codes "  session  - show active session and controlling pty\n")
    ∷ write (codes "  health   - show subsystem fault/overflow counters\n")
    ∷ write (codes "  selftest - run input/pty stress self-test\n")
    ∷ write (codes "  ansi     - print ANSI color demo\n")
    ∷ write (codes "  echo ... - print text\n")
    ∷ []

unfoldable pub cmd_meminfo : Kernel → List Echo
cmd_meminfo k =
    write (codes "Memory total: ")
    ∷ write_dec (total_kib k.pmm)
    ∷ write (codes " KiB\n")
    ∷ write (codes "Memory used : ")
    ∷ write_dec (used_kib k.pmm)
    ∷ write (codes " KiB\n")
    ∷ write (codes "Memory free : ")
    ∷ write_dec (free_kib k.pmm)
    ∷ write (codes " KiB\n")
    ∷ write (codes "Timer ticks : ")
    ∷ write_dec k.ticks
    ∷ write (codes "\n")
    ∷ write (codes "Rust history entries: ")
    ∷ write_dec k.history.pushed
    ∷ write (codes "\n")
    ∷ []

-- A name for a bit that is set.
abbrev named : ℕ → ℕ → Bytes → List Echo
named flags bit name = if has_bit flags bit then write name ∷ [] else []

unfoldable pub cmd_kbdinfo : Kernel → List Echo
cmd_kbdinfo k =
    let modifiers = k.keyboard.flags.modifiers in
    let locks = k.keyboard.flags.locks in
    (write (codes "Modifiers: 0x") ∷ write_hex modifiers ∷ write (codes " (") ∷ [])
    ++ (if modifiers == 0
        then write (codes "none") ∷ []
        else named modifiers mod_shift (codes "SHIFT ")
          ++ named modifiers mod_ctrl (codes "CTRL ")
          ++ named modifiers mod_alt (codes "ALT ")
          ++ named modifiers mod_altgr (codes "ALTGR ")
          ++ named modifiers mod_meta (codes "META "))
    ++ (write (codes ")\n")
        ∷ write (codes "Locks    : 0x")
        ∷ write_hex locks
        ∷ write (codes " (")
        ∷ [])
    ++ (if locks == 0
        then write (codes "none") ∷ []
        else named locks lock_caps (codes "CAPS ")
          ++ named locks lock_num (codes "NUM ")
          ++ named locks lock_scroll (codes "SCROLL "))
    ++ (write (codes ")\n") ∷ [])

unfoldable pub cmd_ansi : List Echo
cmd_ansi =
    write (codes "ANSI demo:\n")
    ∷ write (codes "  \u{1b}[1;31mred\u{1b}[0m ")
    ∷ write (codes "\u{1b}[1;32mgreen\u{1b}[0m ")
    ∷ write (codes "\u{1b}[1;33myellow\u{1b}[0m ")
    ∷ write (codes "\u{1b}[1;34mblue\u{1b}[0m ")
    ∷ write (codes "\u{1b}[1;35mmagenta\u{1b}[0m ")
    ∷ write (codes "\u{1b}[1;36mcyan\u{1b}[0m\n")
    ∷ write (codes "UTF-8 sample bytes: cafe, naive, jalapeno\n")
    ∷ []

-- A counter behind its name.
abbrev counted : Bytes → ℕ → List Echo
counted name n = write name ∷ write_dec n ∷ write (codes "\n") ∷ []

unfoldable pub cmd_ttyinfo : Kernel → List Echo
cmd_ttyinfo k =
    counted (codes "TTY rx bytes: ") k.io.tty.rx_count
    ++ counted (codes "TTY dropped : ") k.io.tty.drop_count
    ++ counted (codes "TTY line ovf : ") k.io.tty.line_overflow_count
    ++ counted (codes "TTY esc disc : ") k.io.tty.escape_discard_count

unfoldable pub cmd_health : Kernel → List Echo
cmd_health k =
    counted (codes "KBD scancodes : ") k.keyboard.rx_scancode_count
    ++ counted (codes "KBD drop byte : ") k.keyboard.drop_byte_count
    ++ counted (codes "KBD drop event: ") k.keyboard.drop_event_count
    ++ counted (codes "TTY dropped   : ") k.io.tty.drop_count
    ++ counted (codes "PTY dropped   : ") k.io.ptys.dropped_bytes
    ++ counted (codes "PTY invalid   : ") k.io.ptys.invalid_ops
    ++ counted (codes "Session invalid: ") k.sessions.invalid_ops

-- `(uint64_t)(id < 0 ? 0 : id)`
abbrev shown : ℤ → ℕ
shown (pos i) = i
shown (negsuc i) = 0

unfoldable pub cmd_session : Kernel → List Echo
cmd_session k =
    counted (codes "Session active: ") (shown k.sessions.active)
    ++ counted (codes "Session pty   : ") (shown (active_pty k.sessions))
