-- ===== src/Userland/Walud/Bounds.antt =====
-- What `parse_unit_file` of userland/walud/walud.c stores fits the buffers.
use walu_os.Prelude.{
  ℕ, ◌+◌, ◌<◌, ◌≡◌, refl, sym, ◌∙◌, inl, inr, Bool, true, false, if◌then◌else◌, ◌==◌, ◌||◌,
  terminated, subst, Option, none, some, List, [], ◌∷◌, Bytes, codes, same, take, length,
  length-take, chunks, Option-cases, arith,
}
use walu_os.Userland.Walud.Trim.{trim, strchr}
use walu_os.Userland.Walud.Unit.{
  UnitService, Parser, parsed, assign, assign_unit, assign_service, assign_install, parse_line,
  parse_lines, parse_unit_file, start_parser, set_from, enter, trimmed_line,
}

-- Each text with its null byte has room in its buffer.
pub record Fits (u : UnitService) : Type 0 where
  pub description : length u.description < 128
  pub after : length u.after < 128
  pub requires : length u.requires < 128
  pub exec_start : length u.exec_start < 256
  pub user : length u.user < 64
  pub restart : length u.restart < 32
  pub wanted_by : length u.wanted_by < 64

take_lt : (n : ℕ) (s : Bytes) → length (take n s) < n + 1
take_lt n s = omega (arith, length-take n s)

either-Fits : (test : Bool) {a b : UnitService} → Fits a → Fits b → Fits (if test then a else b)
either-Fits true x y = x
either-Fits false x y = y

assign_unit-Fits : (u : UnitService) (key value : Bytes) → Fits u → Fits (assign_unit u key value)
assign_unit-Fits u key value h =
    either-Fits (same key (codes "Description"))
      (record {
        description = take_lt 127 value;
        after = h.after;
        requires = h.requires;
        exec_start = h.exec_start;
        user = h.user;
        restart = h.restart;
        wanted_by = h.wanted_by;
      })
      (either-Fits (same key (codes "After"))
        (record {
          description = h.description;
          after = take_lt 127 value;
          requires = h.requires;
          exec_start = h.exec_start;
          user = h.user;
          restart = h.restart;
          wanted_by = h.wanted_by;
        })
        (either-Fits (same key (codes "Requires"))
          (record {
            description = h.description;
            after = h.after;
            requires = take_lt 127 value;
            exec_start = h.exec_start;
            user = h.user;
            restart = h.restart;
            wanted_by = h.wanted_by;
          })
          h))

assign_service-Fits :
    (u : UnitService) (key value : Bytes) → Fits u → Fits (assign_service u key value)
assign_service-Fits u key value h =
    either-Fits (same key (codes "ExecStart"))
      (record {
        description = h.description;
        after = h.after;
        requires = h.requires;
        exec_start = take_lt 255 value;
        user = h.user;
        restart = h.restart;
        wanted_by = h.wanted_by;
      })
      (either-Fits (same key (codes "User"))
        (record {
          description = h.description;
          after = h.after;
          requires = h.requires;
          exec_start = h.exec_start;
          user = take_lt 63 value;
          restart = h.restart;
          wanted_by = h.wanted_by;
        })
        (either-Fits (same key (codes "Restart"))
          (record {
            description = h.description;
            after = h.after;
            requires = h.requires;
            exec_start = h.exec_start;
            user = h.user;
            restart = take_lt 31 value;
            wanted_by = h.wanted_by;
          })
          h))

assign_install-Fits :
    (u : UnitService) (key value : Bytes) → Fits u → Fits (assign_install u key value)
assign_install-Fits u key value h =
    either-Fits (same key (codes "WantedBy"))
      (record {
        description = h.description;
        after = h.after;
        requires = h.requires;
        exec_start = h.exec_start;
        user = h.user;
        restart = h.restart;
        wanted_by = take_lt 63 value;
      })
      h

assign-Fits :
    (section : Bytes) (u : UnitService) (key value : Bytes)
    → Fits u
    → Fits (assign section u key value)
unfolding assign
assign-Fits section u key value h =
    either-Fits (same section (codes "Unit")) (assign_unit-Fits u key value h) (
      either-Fits (same section (codes "Service")) (assign_service-Fits u key value h)
        (either-Fits (same section (codes "Install")) (assign_install-Fits u key value h) h))

-- The texts that the loop keeps.
record Kept (o : Option Parser) : Type 0 where
  fits : (s : Parser) → o ≡ some s → Fits s.unit

some-Kept : (s : Parser) → Fits s.unit → Kept (some s)
some-Kept s h = record {
  fits = λ t e. let same_parser : s ≡ t = cc in subst (λ p. Fits p.unit) same_parser h;
}

none-Kept : Kept none
none-Kept = record { fits = λ t e. absurd cc }

set_from-Kept : (s : Parser) (o : Option (Bytes × Bytes)) → Fits s.unit → Kept (set_from s o)
set_from-Kept s none h = some-Kept s h
set_from-Kept s (some (key, value)) h =
    some-Kept _ (assign-Fits s.section s.unit (trim key) (trim value) h)

enter-Kept : (s : Parser) (o : Option (Bytes × Bytes)) → Fits s.unit → Kept (enter s o)
enter-Kept s none h = none-Kept
enter-Kept s (some (name, rest)) h = some-Kept _ h

either-Kept : (test : Bool) {a b : Option Parser} → Kept a → Kept b → Kept (if test then a else b)
either-Kept true x y = x
either-Kept false x y = y

trimmed_line-Kept : (s : Parser) (p : Bytes) → Fits s.unit → Kept (trimmed_line s p)
trimmed_line-Kept s [] h = some-Kept s h
trimmed_line-Kept s (c ∷ p) h = either-Kept (c == b'#' || c == b';') (some-Kept s h) (
    either-Kept (c == b'[') (enter-Kept s (strchr (c ∷ p) b']') h)
      (set_from-Kept s (strchr (c ∷ p) b'=') h))

parse_line-Kept : (s : Parser) (line : Bytes) → Fits s.unit → Kept (parse_line s line)
unfolding parse_line
parse_line-Kept s line h = trimmed_line-Kept s (trim (terminated line)) h

parse_lines-Fits :
    (n : ℕ) (s : Parser) (lines : List Bytes) {u : UnitService}
    → Fits s.unit
    → parse_lines n s lines ≡ parsed u
    → Fits u
unfolding parse_lines
parse_lines-Fits n s [] {u} h e = let same_unit : s.unit ≡ u = cc in subst Fits same_unit h
parse_lines-Fits n s (line ∷ lines) {u} h e = elim (Option-cases (parse_line s line)) [
  | inl bad ↦ absurd (ground (arith, e, bad))
  | inr (s', good) ↦
      let next : parse_lines n s (line ∷ lines) ≡ parse_lines (n + 1) s' lines =
        rw (good, parse_lines) refl in
      parse_lines-Fits (n + 1) s' lines ((parse_line-Kept s line h).fits s' good) (sym next ∙ e)
]

-- Whatever a unit file holds, each text of the unit it gives has room in its buffer, with a null byte behind it.
pub parse_unit_file-Fits :
    (file : Bytes) {u : UnitService} → parse_unit_file file ≡ parsed u → Fits u
unfolding parse_unit_file
parse_unit_file-Fits file e = parse_lines-Fits 0 start_parser (chunks 511 file) (ground arith) e
