-- ===== src/Shell/Quiet.antt =====
-- What the commands of kernel/src/core/shell.c leave alone.
use walu_os.Prelude.{
  ◌≡◌, ◌≢◌, refl, sym, subst, Bool, true, false, ◌==◌, if◌then◌else◌, List, [], ◌∷◌, Bytes, codes,
  same, same_iff, take, drop, drop_while, arith,
}
use walu_os.Tty.{Echo, write, putc, clear}
use walu_os.Shell.Defs.{Kernel, say, says}
use walu_os.Shell.Reports.{
  cmd_help, cmd_meminfo, cmd_kbdinfo, cmd_ansi, cmd_ttyinfo, cmd_health, cmd_session,
}
use walu_os.Shell.Selftest.{cmd_selftest}
use walu_os.Shell.Loop.{others, dispatch, execute, execute_command}

-- What the commands leave alone, but for the self-test.
pub record Same (k out : Kernel) : Type 0 where
  pub ptys : out.io.ptys ≡ k.io.ptys
  pub keyboard : out.keyboard ≡ k.keyboard

either-Same :
    {k : Kernel} (test : Bool) {a b : Kernel} → Same k a → Same k b → Same k (if test then a else b)
either-Same true x y = x
either-Same false x y = y

says-Same : (k : Kernel) (es : List Echo) → Same k (says k es)
unfolding says
says-Same k [] = record { ptys = refl; keyboard = refl }
says-Same k (e ∷ es) =
    let rest = says-Same (say k e) es in record { ptys = rest.ptys; keyboard = rest.keyboard }

say-Same : (k : Kernel) (e : Echo) → Same k (say k e)
say-Same k e = record { ptys = refl; keyboard = refl }

dispatch-Same :
    (k : Kernel) (line : Bytes) → same line (codes "selftest") ≡ false → Same k (dispatch k line)
dispatch-Same k line ne = either-Same (same line (codes "help")) (says-Same k cmd_help) (
    either-Same (same line (codes "clear")) (say-Same k clear) (
      either-Same (same line (codes "meminfo")) (says-Same k (cmd_meminfo k)) (
        either-Same (same line (codes "kbdinfo")) (says-Same k (cmd_kbdinfo k)) (
          either-Same (same line (codes "ansi")) (says-Same k cmd_ansi) (
            either-Same (same line (codes "ttyinfo")) (says-Same k (cmd_ttyinfo k)) (
              either-Same (same line (codes "health")) (says-Same k (cmd_health k)) (
                either-Same (same line (codes "session")) (says-Same k (cmd_session k)) (
                  subst (λ b. Same k (if b then cmd_selftest k else others k line)) (sym ne)
                    (either-Same (same line (codes "echo")) (say-Same k (putc b'\n')) (
                      either-Same (same (take 5 line) (codes "echo "))
                        (says-Same k (write (drop 5 line) ∷ putc b'\n' ∷ []))
                        (says-Same k (
                          write (codes "Unknown command: ")
                          ∷ write line
                          ∷ putc b'\n'
                          ∷ []))))))))))))

execute-Same :
    (k : Kernel) (line : Bytes) → same line (codes "selftest") ≡ false → Same k (execute k line)
unfolding execute
execute-Same k [] ne = record { ptys = refl; keyboard = refl }
execute-Same k (c ∷ line) ne =
    let r = dispatch-Same _ (c ∷ line) ne in record { ptys = r.ptys; keyboard = r.keyboard }

-- A command other than the self-test leaves the terminals and the keyboard alone.
pub execute_command-Same :
    (k : Kernel) (line : Bytes)
    → drop_while (λ c. c == b' ') line ≢ codes "selftest"
    → Same k (execute_command k line)
unfolding execute_command
execute_command-Same k line ne =
    let trimmed = drop_while (λ c. c == b' ') line in
    execute-Same k trimmed (ground (arith, same_iff trimmed (codes "selftest"), ne))
