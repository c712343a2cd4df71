-- ===== src/Shell/Loop.antt =====
-- `execute_command`, `shell_init` and `shell_poll` of kernel/src/core/shell.c. The two loops of
-- `shell_poll` treat a byte in the same words.
use walu_os.Prelude.{
  ℕ, zero, suc, ◌+◌, true, not, ◌&&◌, ◌||◌, ◌==◌, ltb, if◌then◌else◌, some, none, List, [], ◌∷◌,
  Bytes, codes, same, take, drop, drop_while, set, ℤ,
}
use walu_os.Tty.{write, putc, clear, is_nonneg, pop_char, set_canonical, set_echo}
use walu_os.Tty.Poll.{poll_input}
use walu_os.Pty.{slave_read, queue_size}
use walu_os.Session.{active_pty}
use walu_os.Shell.History.{history_push}
use walu_os.Shell.Defs.{Kernel, say, says, shell_prompt, shell_line_max, line_text}
use walu_os.Shell.Reports.{
  cmd_help, cmd_meminfo, cmd_kbdinfo, cmd_ansi, cmd_ttyinfo, cmd_health, cmd_session,
}
use walu_os.Shell.Selftest.{cmd_selftest}

-- The last comparisons of `execute_command`, on a line that is not empty.
abbrev pub others : Kernel → Bytes → Kernel
others k line =
    if same line (codes "echo")
    then say k (putc b'\n')
    else if same (take 5 line) (codes "echo ")
    then says k (write (drop 5 line) ∷ putc b'\n' ∷ [])
    else says k (write (codes "Unknown command: ") ∷ write line ∷ putc b'\n' ∷ [])

-- All of them.
abbrev pub dispatch : Kernel → Bytes → Kernel
dispatch k line =
    if same line (codes "help")
    then says k cmd_help
    else if same line (codes "clear")
    then say k clear
    else if same line (codes "meminfo")
    then says k (cmd_meminfo k)
    else if same line (codes "kbdinfo")
    then says k (cmd_kbdinfo k)
    else if same line (codes "ansi")
    then says k cmd_ansi
    else if same line (codes "ttyinfo")
    then says k (cmd_ttyinfo k)
    else if same line (codes "health")
    then says k (cmd_health k)
    else if same line (codes "session")
    then says k (cmd_session k)
    else if same line (codes "selftest")
    then cmd_selftest k
    else others k line

-- A line without the blanks before it.
unfoldable pub execute : Kernel → Bytes → Kernel
execute k [] = k
execute k (c ∷ line) =
    dispatch (record k { history = history_push k.history (c ∷ line) }) (c ∷ line)

unfoldable pub execute_command : Kernel → Bytes → Kernel
execute_command k line = execute k (drop_while (λ c. c == b' ') line)

-- `c == '\n'`
abbrev pub finish_line : Kernel → Kernel
finish_line k =
    let ended = record k { shell_line = set k.shell_line k.shell_len 0 } in
    shell_prompt (record (execute_command ended (line_text ended)) { shell_len = 0 })

-- `c == 0x0C`
abbrev pub redraw : Kernel → Kernel
redraw k =
    let prompted = shell_prompt (say k clear) in
    if ltb 0 k.shell_len then say prompted (write (line_text k)) else prompted

-- The last test of the loop.
abbrev pub store : Kernel → ℕ → Kernel
store k c =
    if ltb (k.shell_len + 1) shell_line_max
    then record k { shell_line = set k.shell_line k.shell_len c; shell_len = k.shell_len + 1 }
    else k

-- One byte of either loop.
unfoldable pub take_byte : Kernel → ℕ → Kernel
take_byte k c =
    if c == 0x03
    then shell_prompt (record k { shell_len = 0 })
    else if c == 0x0c
    then redraw k
    else if c == b'\n'
    then finish_line k
    else if c == 0x04
    then k
    else if (ltb c 0x20 || c == 0x7f) && not (c == b'\t')
    then k
    else store k c

unfoldable pub take_bytes : Kernel → List ℕ → Kernel
take_bytes k [] = k
take_bytes k (c ∷ cs) = take_bytes (take_byte k c) cs

unfoldable pub shell_init : Kernel → Kernel
shell_init k = shell_prompt (record k {
  shell_len = 0;
  io = record k.io { tty = set_echo (set_canonical k.io.tty true) true };
})

-- The loop over the terminal of the active session, with the number of rounds left first.
unfoldable pub read_from : ℕ → ℤ → Kernel → Kernel
read_from zero pty_id k = k
read_from (suc n) pty_id k =
    let (ptys, bytes) = slave_read k.io.ptys pty_id true 128 in
    let read = record k { io = record k.io { ptys = ptys } } in
    elim bytes [ [] ↦ read | b ∷ bs ↦ read_from n pty_id (take_bytes read (b ∷ bs)) ]

-- The loop over the read queue of tty.c, in the same way.
unfoldable pub pop_from : ℕ → Kernel → Kernel
pop_from zero k = k
pop_from (suc n) k =
    let (tty, popped) = pop_char k.io.tty in
    let read = record k { io = record k.io { tty = tty } } in
    elim popped [ none ↦ read | some c ↦ pop_from n (take_byte read c) ]

-- `tty_poll_input()`
abbrev pub polled : Kernel → Kernel
polled k =
    let (io, keyboard) = poll_input k.io k.keyboard in record k { io = io; keyboard = keyboard }

-- `rounds` is the number of rounds for the second loop.
unfoldable pub shell_poll : ℕ → Kernel → Kernel
shell_poll rounds k =
    let p = polled k in
    let pty_id = active_pty p.sessions in
    if is_nonneg pty_id then read_from queue_size pty_id p else pop_from rounds p
