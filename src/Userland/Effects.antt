-- ===== src/Userland/Effects.antt =====
-- What a program does that others can see, and userland/common/log.c.
use walu_os.Prelude.{ℕ, Option, none, some, List, [], ◌∷◌, ◌++◌, Bytes, codes}

-- A line on the standard output or the standard error, a line added to a file, and a command given
-- to the shell by `popen`.
pub data Effect : Type 0 where
  stdout stderr : Bytes → Effect
  append : Bytes → Bytes → Effect
  shell : Bytes → Effect

abbrev pub Run : Type 0
Run = List Effect × ℕ

-- More effects before those of a run.
abbrev pub after : List Effect → Run → Run
after es (fs, code) = (es ++ fs, code)

-- `log_emit`; the argument is the time in UTC, or `none` where `gmtime_r` or `strftime` fails.
unfoldable pub log_emit : Option Bytes → Bytes → Bytes → Bytes → List Effect
log_emit none level component message = []
log_emit (some ts) level component message =
    stderr (
      codes "ts="
      ++ ts
      ++ codes " level="
      ++ level
      ++ codes " component="
      ++ component
      ++ codes " msg=\""
      ++ message
      ++ codes "\"")
    ∷ []

unfoldable pub log_info : Option Bytes → Bytes → Bytes → List Effect
log_info now component message = log_emit now (codes "info") component message

unfoldable pub log_error : Option Bytes → Bytes → Bytes → List Effect
log_error now component message = log_emit now (codes "error") component message
