-- ===== src/Userland/Walud/Defs.antt =====
-- `main` of userland/walud/walud.c.
use walu_os.Prelude.{ℕ, if◌then◌else◌, Option, none, some, List, [], ◌∷◌, ◌++◌, Bytes, codes, same}
use walu_os.Userland.Effects.{Effect, stdout, stderr, log_info, log_error}
use walu_os.Userland.Walud.Unit.{
  UnitService, parsed, malformed, parse_unit_file, validate_unit, print_unit,
}
use walu_os.Userland.Walud.Start.{System, Started, alone, start_unit, walud}

abbrev pub misused : Started
misused = alone (stdout (codes "Usage: walud <validate|show|start> <unit-file>") ∷ [], 1)

abbrev invalid : System → Bytes → Started
invalid sys message = alone (log_error sys.now walud message, 3)

-- The three commands on a unit.
unfoldable pub validate : System → UnitService → Started
validate sys unit = elim (validate_unit unit) [
  | none ↦ alone (log_info sys.now walud (codes "unit validation succeeded"), 0)
  | some message ↦ invalid sys message
]

unfoldable pub start : System → UnitService → Started
start sys unit = elim (validate_unit unit) [
  | none ↦ start_unit sys unit
  | some message ↦ invalid sys message
]

unfoldable pub command_on : System → Bytes → UnitService → Started
command_on sys command unit =
    if same command (codes "validate")
    then validate sys unit
    else if same command (codes "show")
    then alone (print_unit unit, 0)
    else if same command (codes "start")
    then start sys unit
    else misused

-- The line about a malformed section header; `decimal` is how `printf` writes a number.
abbrev complaint : (ℕ → Bytes) → Bytes → ℕ → Effect
complaint decimal path line_no =
    stderr (
      codes "walud: " ++ path ++ codes ":" ++ decimal line_no ++ codes ": malformed section header")

module _ (decimal : ℕ → Bytes) where
  abbrev on_file : System → Bytes → Bytes → Option Bytes → Started
  on_file sys command path none =
      alone (log_error sys.now walud (codes "failed to open unit file"), 2)
  on_file sys command path (some file) = elim (parse_unit_file file) [
    | parsed unit ↦ command_on sys command unit
    | malformed line_no ↦ alone (complaint decimal path line_no ∷ [], 2)
  ]

  -- `main`, on the words behind the name of the program
  unfoldable pub main : System → List Bytes → Started
  main sys [] = misused
  main sys (command ∷ []) = misused
  main sys (command ∷ path ∷ []) = on_file sys command path (sys.files path)
  main sys (command ∷ path ∷ w ∷ ws) = misused
