-- ===== src/Userland/Walud/Tests.antt =====
-- Unit files.
use walu_os.Prelude.{
  ℕ, ◌≡◌, refl, true, none, some, [], Bytes, codes, is_break, is_clear-NoneOf, length, ◌≤◌, arith,
  is_clear,
}
use mathlib.Core.List.{reverse}
use walu_os.Userland.Walud.Trimmed.{Plain}
use walu_os.Userland.Walud.Lines.{IsValue}
use walu_os.Userland.Walud.Unit.{UnitService, parsed, parse_unit_file}
use walu_os.Userland.Walud.Render.{IsUnit, render, parse_unit_file-render}
use walu_os.Userland.Walud.Bounds.{Fits, parse_unit_file-Fits}
use walu_os.Userland.Walud.Start.{System, Status}
use walu_os.Userland.Walud.Launch.{Lawful, nothing_held, start-Lawful}
use walu_os.Userland.Walud.Defs.{start}

abbrev web : UnitService
web = record {
  description = codes "Web server";
  after = codes "network";
  requires = [];
  exec_start = codes "/bin/web --port 80";
  user = codes "www";
  restart = codes "always";
  wanted_by = codes "multi-user";
}

abbrev system : System
system = record {
  now = none;
  files = λ path. none;
  getpwnam = λ user. some (record { pw_uid = 33; pw_gid = 34 });
  waitpid = some (Status.exited 0);
  fork_succeeds = true;
  setgid_succeeds = λ gid. true;
  setuid_succeeds = λ uid. true;
  execv_succeeds = true;
}

value :
    {n : ℕ} (s : Bytes)
    → Plain s
    → Plain (reverse s)
    → is_clear is_break s ≡ true
    → length s ≤ n
    → IsValue n s
value s f b e le = record {
  trimmed = record { front = f; back = b };
  unbroken = is_clear-NoneOf is_break s e;
  fits = le;
}

web-IsUnit : IsUnit web
web-IsUnit = record {
  description = value web.description refl refl refl (omega arith);
  after = value web.after refl refl refl (omega arith);
  requires = value web.requires tt tt refl (omega arith);
  exec_start = value web.exec_start refl refl refl (omega arith);
  user = value web.user refl refl refl (omega arith);
  restart = value web.restart refl refl refl (omega arith);
  wanted_by = value web.wanted_by refl refl refl (omega arith);
}

parse_unit_file-render_example : parse_unit_file (render web) ≡ parsed web
parse_unit_file-render_example = parse_unit_file-render web web-IsUnit

parse_unit_file-Fits_example : Fits web
parse_unit_file-Fits_example =
    parse_unit_file-Fits (render web) (parse_unit_file-render web web-IsUnit)

start-Lawful_example : Lawful system web.user nothing_held (start system web).acts
start-Lawful_example = start-Lawful system web
