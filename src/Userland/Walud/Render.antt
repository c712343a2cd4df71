-- ===== src/Userland/Walud/Render.antt =====
-- A unit file written out, and read by `parse_unit_file` of userland/walud/walud.c.
use walu_os.Prelude.{
  ℕ, ◌+◌, ◌≤◌, ◌≡◌, refl, ap, ◌∙◌, true, [], ◌∷◌, ◌++◌, Bytes, codes, is_clear, is_clear-NoneOf,
  length, length-append, is_break, no_newline, chunks, chunks_from-line, take_all, clip, arith,
}
use mathlib.Core.List.{reverse}
use walu_os.Userland.Walud.Trim.{trim}
use walu_os.Userland.Walud.Trimmed.{Plain, IsTrimmed}
use walu_os.Userland.Walud.Lines.{
  IsValue, IsKey, is_equals, begins_setting, equation, equation-unbroken, set_to,
  parse_line-equation,
}
use walu_os.Userland.Walud.Unit.{
  UnitService, Parser, parsed, assign, parse_line, parse_lines, parse_unit_file, start_parser,
}

-- A unit whose texts fit the buffers and the lines of a file.
pub record IsUnit (u : UnitService) : Type 0 where
  pub description : IsValue 127 u.description
  pub after : IsValue 127 u.after
  pub requires : IsValue 127 u.requires
  pub exec_start : IsValue 255 u.exec_start
  pub user : IsValue 63 u.user
  pub restart : IsValue 31 u.restart
  pub wanted_by : IsValue 63 u.wanted_by

-- A line `key=value`, with something behind it.
abbrev entry : Bytes → Bytes → Bytes → Bytes
entry key value rest = equation key value ++ b'\n' ∷ rest

abbrev install_part : UnitService → Bytes
install_part u = codes "[Install]\n" ++ entry (codes "WantedBy") u.wanted_by []

abbrev service_part : UnitService → Bytes
service_part u =
    codes "[Service]\n"
    ++ entry (codes "ExecStart") u.exec_start
        (entry (codes "User") u.user (entry (codes "Restart") u.restart (install_part u)))

-- The three sections.
abbrev pub render : UnitService → Bytes
render u =
    codes "[Unit]\n"
    ++ entry (codes "Description") u.description
        (entry (codes "After") u.after (entry (codes "Requires") u.requires (service_part u)))

tested :
    (key : Bytes)
    → begins_setting key ≡ true
    → IsTrimmed key
    → IsTrimmed (key ++ b'=' ∷ [])
    → is_clear is_break key ≡ true
    → is_clear is_equals key ≡ true
    → length key ≤ 20
    → IsKey key
tested key begins trimmed front unbroken simple fits = record {
  begins = begins;
  named = record {
    trimmed = trimmed;
    unbroken = is_clear-NoneOf is_break key unbroken;
    fits = fits;
  };
  simple = is_clear-NoneOf is_equals key simple;
  front = front;
}

closed : {s : Bytes} → Plain s → Plain (reverse s) → IsTrimmed s
closed f b = record { front = f; back = b }

description-IsKey : IsKey (codes "Description")
description-IsKey =
    tested (codes "Description") refl (closed refl refl) (closed refl refl) refl refl (omega arith)

after-IsKey : IsKey (codes "After")
after-IsKey =
    tested (codes "After") refl (closed refl refl) (closed refl refl) refl refl (omega arith)

requires-IsKey : IsKey (codes "Requires")
requires-IsKey =
    tested (codes "Requires") refl (closed refl refl) (closed refl refl) refl refl (omega arith)

exec_start-IsKey : IsKey (codes "ExecStart")
exec_start-IsKey =
    tested (codes "ExecStart") refl (closed refl refl) (closed refl refl) refl refl (omega arith)

user-IsKey : IsKey (codes "User")
user-IsKey =
    tested (codes "User") refl (closed refl refl) (closed refl refl) refl refl (omega arith)

restart-IsKey : IsKey (codes "Restart")
restart-IsKey =
    tested (codes "Restart") refl (closed refl refl) (closed refl refl) refl refl (omega arith)

wanted_by-IsKey : IsKey (codes "WantedBy")
wanted_by-IsKey =
    tested (codes "WantedBy") refl (closed refl refl) (closed refl refl) refl refl (omega arith)

parse_lines-equation :
    (n : ℕ) (s : Parser) (key value rest : Bytes)
    → IsKey key
    → IsValue 255 value
    → parse_lines n s (chunks 511 (entry key value rest))
      ≡ parse_lines (n + 1) (set_to s key value) (chunks 511 rest)
unfolding parse_lines
parse_lines-equation n s key value rest k v =
    let line = equation key value in
    let unbroken = equation-unbroken key value k v.unbroken in
    ap (parse_lines n s) (
      chunks_from-line 511 511 [] line rest (no_newline line unbroken)
        (omega (arith, length-append key (b'=' ∷ value), k.named.fits, v.fits)))
    ∙ rw (parse_line-equation s key value k v.trimmed v.unbroken, parse_lines) refl

parse_lines-unit_header :
    (n : ℕ) (s : Parser) (rest : Bytes)
    → parse_lines n s (chunks 511 (codes "[Unit]\n" ++ rest))
      ≡ parse_lines (n + 1) (record s { section = codes "Unit" }) (chunks 511 rest)
unfolding parse_lines parse_line trim
parse_lines-unit_header n s rest = refl

parse_lines-service_header :
    (n : ℕ) (s : Parser) (rest : Bytes)
    → parse_lines n s (chunks 511 (codes "[Service]\n" ++ rest))
      ≡ parse_lines (n + 1) (record s { section = codes "Service" }) (chunks 511 rest)
unfolding parse_lines parse_line trim
parse_lines-service_header n s rest = refl

parse_lines-install_header :
    (n : ℕ) (s : Parser) (rest : Bytes)
    → parse_lines n s (chunks 511 (codes "[Install]\n" ++ rest))
      ≡ parse_lines (n + 1) (record s { section = codes "Install" }) (chunks 511 rest)
unfolding parse_lines parse_line trim
parse_lines-install_header n s rest = refl

widen : {n : ℕ} {s : Bytes} → n ≤ 255 → IsValue n s → IsValue 255 s
widen le v = record { trimmed = v.trimmed; unbroken = v.unbroken; fits = omega (arith, le, v.fits) }

last_line : (n : ℕ) (s : Parser) → parse_lines n s [] ≡ parsed s.unit
unfolding parse_lines
last_line n s = refl

-- What the buffers keep of a unit.
abbrev clipped : UnitService → UnitService
clipped u = record {
  description = clip 128 u.description;
  after = clip 128 u.after;
  requires = clip 128 u.requires;
  exec_start = clip 256 u.exec_start;
  user = clip 64 u.user;
  restart = clip 32 u.restart;
  wanted_by = clip 64 u.wanted_by;
}

clipped-IsUnit : (u : UnitService) → IsUnit u → clipped u ≡ u
clipped-IsUnit u h =
    rw
      (
        take_all 127 u.description h.description.fits,
        take_all 127 u.after h.after.fits,
        take_all 127 u.requires h.requires.fits,
        take_all 255 u.exec_start h.exec_start.fits,
        take_all 63 u.user h.user.fits,
        take_all 31 u.restart h.restart.fits,
        take_all 63 u.wanted_by h.wanted_by.fits,
      )
      refl

-- The unit file that states a unit, section by section, is read back as that unit, if its texts fit the buffers,
-- have no blanks at their ends, and no end of a line and no null byte in them.
pub parse_unit_file-render : (u : UnitService) → IsUnit u → parse_unit_file (render u) ≡ parsed u
unfolding parse_unit_file assign
parse_unit_file-render u h =
    let wanted_by = entry (codes "WantedBy") u.wanted_by [] in
    let restart = entry (codes "Restart") u.restart (install_part u) in
    let user = entry (codes "User") u.user restart in
    let exec_start = entry (codes "ExecStart") u.exec_start user in
    let requires = entry (codes "Requires") u.requires (service_part u) in
    let after = entry (codes "After") u.after requires in
    parse_lines-unit_header 0 start_parser (entry (codes "Description") u.description after)
    ∙ parse_lines-equation 1 _ _ u.description after description-IsKey
        (widen (omega arith) h.description)
    ∙ parse_lines-equation 2 _ _ u.after requires after-IsKey (widen (omega arith) h.after)
    ∙ parse_lines-equation 3 _ _ u.requires (service_part u) requires-IsKey
        (widen (omega arith) h.requires)
    ∙ parse_lines-service_header 4 _ exec_start
    ∙ parse_lines-equation 5 _ _ u.exec_start user exec_start-IsKey
        (widen (omega arith) h.exec_start)
    ∙ parse_lines-equation 6 _ _ u.user restart user-IsKey (widen (omega arith) h.user)
    ∙ parse_lines-equation 7 _ _ u.restart (install_part u) restart-IsKey
        (widen (omega arith) h.restart)
    ∙ parse_lines-install_header 8 _ wanted_by
    ∙ parse_lines-equation 9 _ _ u.wanted_by [] wanted_by-IsKey (widen (omega arith) h.wanted_by)
    ∙ last_line 10 (record { section = codes "Install"; unit = clipped u })
    ∙ ap parsed (clipped-IsUnit u h)
