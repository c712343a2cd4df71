-- ===== src/Userland/Storaged/Commands.antt =====
-- `command_probe`, `command_format` and `main` of userland/storaged/storaged.c.
use walu_os.Prelude.{
  ℕ, Bool, true, not, ◌||◌, if◌then◌else◌, none, some, List, [], ◌∷◌, ◌++◌, Bytes, codes, same,
}
use walu_os.Userland.Effects.{Effect, stdout, Run, log_info, log_error}
use walu_os.Userland.Storaged.Mounts.{is_device_mounted}
use walu_os.Userland.Storaged.Defs.{
  Host, FormatArgs, audit_event, usage, parse_format_args, is_valid_block_path, is_block_device,
  yes_no, print_probe_info,
}

abbrev pub storaged : Bytes
storaged = codes "storaged"

-- A refusal: a line of the log, one of the audit log and the exit code. `printed` comes between them.
unfoldable pub denied : Host → Bytes → Bytes → Bytes → List Effect → Bytes → ℕ → Run
denied host op device message printed detail code = (
  log_error host.now storaged message
      ++ printed
      ++ audit_event host op (some device) (codes "deny") detail,
  code,
)

unfoldable pub command_probe : Host → Bytes → Run
command_probe host device =
    if not (is_valid_block_path device)
    then denied host (codes "probe") device (codes "invalid device path for probe") []
        (codes "invalid-path") 2
    else (
      print_probe_info host device
          ++ audit_event host (codes "probe") (some device) (codes "ok") (codes "reported"),
      0,
    )

-- `!args->force || !args->yes || !args->confirm || strcmp(args->confirm, args->device) != 0`
abbrev pub is_unconfirmed : FormatArgs → Bytes → Bool
is_unconfirmed args device =
    not args.force
    || not args.yes
    || elim args.confirm [ none ↦ true | some confirm ↦ not (same confirm device) ]

-- What a dry run prints.
abbrev pub dry_run_report : Host → Bytes → List Effect
dry_run_report host device =
    stdout (codes "dry-run: mkfs.ext4 " ++ device)
    ∷ stdout (codes "dry-run: mounted=" ++ yes_no (is_device_mounted host.mounts device))
    ∷ []

-- `command_format` on arguments that name `device`, as `parse_format_args` makes sure.
unfoldable pub command_format : Host → FormatArgs → Bytes → Run
command_format host args device =
    if not (is_valid_block_path device)
    then denied host (codes "format") device (codes "device path must be under /dev/") []
        (codes "invalid-path") 2
    else if not (is_block_device host device)
    then denied host (codes "format") device (codes "device path is not a block device") []
        (codes "not-block-device") 2
    else if args.dry_run
    then (
      dry_run_report host device
          ++ audit_event host (codes "format") (some device) (codes "dry-run")
              (codes "policy-check-only"),
      0,
    )
    else if is_device_mounted host.mounts device
    then denied host (codes "format") device (codes "refusing to format a mounted device") []
        (codes "mounted") 4
    else if is_unconfirmed args device
    then denied host (codes "format") device
        (codes "missing mandatory destructive-operation confirmation flags") usage
        (codes "missing-force-confirm-yes") 3
    else (
      stdout (codes "approved: mkfs.ext4 " ++ device)
            ∷ log_info host.now storaged
                (codes "format request approved by force+confirm+yes policy")
          ++ audit_event host (codes "format") (some device) (codes "approved")
              (codes "force-confirm-yes"),
      0,
    )

abbrev pub misused : Run
misused = (usage, 1)

-- `storaged probe ws`
abbrev pub probe : Host → List Bytes → Run
probe host [] = misused
probe host (w ∷ []) = misused
probe host (w ∷ device ∷ []) =
    if same w (codes "--device") then command_probe host device else misused
probe host (w ∷ device ∷ x ∷ ws) = misused

-- `storaged format ws`
unfoldable pub format : Host → List Bytes → Run
format host ws = elim (parse_format_args ws) [
  | none ↦ misused
  | some (args, device) ↦ command_format host args device
]

-- `main`, on the words behind the name of the program
unfoldable pub main : Host → List Bytes → Run
main host [] = misused
main host (command ∷ ws) =
    if same command (codes "probe")
    then probe host ws
    else if same command (codes "format")
    then format host ws
    else misused
