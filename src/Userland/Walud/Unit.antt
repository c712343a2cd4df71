-- ===== src/Userland/Walud/Unit.antt =====
-- The unit file: `parse_unit_file`, `validate_unit` and `print_unit` of userland/walud/walud.c.
use walu_os.Prelude.{
  ℕ, ◌+◌, Bool, true, false, not, ◌&&◌, ◌||◌, if◌then◌else◌, ◌==◌, Option, none, some, List, [],
  ◌∷◌, ◌++◌, Bytes, codes, same, clip, tail, terminated, chunks, take,
}
use walu_os.Userland.Effects.{Effect, stdout}
use walu_os.Userland.Walud.Trim.{trim, strchr}

-- `unit_service_t`: the texts in its buffers.
pub record UnitService : Type 0 where
  pub description : Bytes
  pub after : Bytes
  pub requires : Bytes
  pub exec_start : Bytes
  pub user : Bytes
  pub restart : Bytes
  pub wanted_by : Bytes

abbrev pub blank_unit : UnitService
blank_unit = record {
  description = [];
  after = [];
  requires = [];
  exec_start = [];
  user = [];
  restart = [];
  wanted_by = [];
}

-- What a line `key=value` does in each of the three sections.
abbrev pub assign_unit : UnitService → Bytes → Bytes → UnitService
assign_unit unit key value =
    if same key (codes "Description")
    then record unit { description = clip 128 value }
    else if same key (codes "After")
    then record unit { after = clip 128 value }
    else if same key (codes "Requires")
    then record unit { requires = clip 128 value }
    else unit

abbrev pub assign_service : UnitService → Bytes → Bytes → UnitService
assign_service unit key value =
    if same key (codes "ExecStart")
    then record unit { exec_start = clip 256 value }
    else if same key (codes "User")
    then record unit { user = clip 64 value }
    else if same key (codes "Restart")
    then record unit { restart = clip 32 value }
    else unit

abbrev pub assign_install : UnitService → Bytes → Bytes → UnitService
assign_install unit key value =
    if same key (codes "WantedBy") then record unit { wanted_by = clip 64 value } else unit

unfoldable pub assign : Bytes → UnitService → Bytes → Bytes → UnitService
assign section unit key value =
    if same section (codes "Unit")
    then assign_unit unit key value
    else if same section (codes "Service")
    then assign_service unit key value
    else if same section (codes "Install")
    then assign_install unit key value
    else unit

-- The variables of the loop.
pub record Parser : Type 0 where
  pub section : Bytes
  pub unit : UnitService

-- A line that begins with `[`, by where it has its `]`.
abbrev pub enter : Parser → Option (Bytes × Bytes) → Option Parser
enter s none = none
enter s (some (name, rest)) = some (record s { section = clip 32 (tail name) })

abbrev header : Parser → Bytes → Option Parser
header s p = enter s (strchr p b']')

-- Any other line, by where it has its first `=`; without one it is passed over.
abbrev pub set_from : Parser → Option (Bytes × Bytes) → Option Parser
set_from s none = some s
set_from s (some (key, value)) =
    some (record s { unit = assign s.section s.unit (trim key) (trim value) })

abbrev pub setting : Parser → Bytes → Option Parser
setting s p = set_from s (strchr p b'=')

-- A line without the blanks around it; `none` where its section header is malformed.
abbrev pub trimmed_line : Parser → Bytes → Option Parser
trimmed_line s [] = some s
trimmed_line s (c ∷ p) =
    if c == b'#' || c == b';'
    then some s
    else if c == b'['
    then header s (c ∷ p)
    else setting s (c ∷ p)

unfoldable pub parse_line : Parser → Bytes → Option Parser
parse_line s line = trimmed_line s (trim (terminated line))

-- The unit, or the number of the line that is malformed.
pub data Parsed : Type 0 where
  parsed : UnitService → Parsed
  malformed : ℕ → Parsed

-- The loop over the lines, behind line `line_no`.
unfoldable pub parse_lines : ℕ → Parser → List Bytes → Parsed
parse_lines line_no s [] = parsed s.unit
parse_lines line_no s (line ∷ lines) = elim (parse_line s line) [
  | none ↦ malformed (line_no + 1)
  | some s' ↦ parse_lines (line_no + 1) s' lines
]

abbrev pub start_parser : Parser
start_parser = record { section = []; unit = blank_unit }

-- `parse_unit_file` on the text of a file.
unfoldable pub parse_unit_file : Bytes → Parsed
parse_unit_file file = parse_lines 0 start_parser (chunks 511 file)

-- `path[0] == '/'`; the path is a buffer, so no null pointer.
abbrev pub is_absolute_path : Bytes → Bool
is_absolute_path path = same (take 1 path) (codes "/")

abbrev is_nil : Bytes → Bool
is_nil [] = true
is_nil (c ∷ s) = false

-- What `validate_unit` logs before it returns false; `none` where it returns true.
unfoldable pub validate_unit : UnitService → Option Bytes
validate_unit unit =
    if is_nil unit.description
    then some (codes "missing Unit.Description")
    else if is_nil unit.exec_start
    then some (codes "missing Service.ExecStart")
    else if not (is_absolute_path unit.exec_start)
    then some (codes "Service.ExecStart must be an absolute path")
    else if not (is_nil unit.restart)
        && not (same unit.restart (codes "no"))
        && not (same unit.restart (codes "on-failure"))
        && not (same unit.restart (codes "always"))
    then some (codes "Service.Restart must be no|on-failure|always")
    else none

abbrev pub print_unit : UnitService → List Effect
print_unit unit =
    stdout (codes "Description=" ++ unit.description)
    ∷ stdout (codes "After=" ++ unit.after)
    ∷ stdout (codes "Requires=" ++ unit.requires)
    ∷ stdout (codes "ExecStart=" ++ unit.exec_start)
    ∷ stdout (codes "User=" ++ unit.user)
    ∷ stdout (codes "Restart=" ++ unit.restart)
    ∷ stdout (codes "WantedBy=" ++ unit.wanted_by)
    ∷ []
