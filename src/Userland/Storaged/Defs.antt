-- ===== src/Userland/Storaged/Defs.antt =====
-- The commands of userland/storaged/storaged.c. What the system answers is a record that each takes.
use walu_os.Prelude.{
  Bool, true, false, ◌&&◌, if◌then◌else◌, ltb, Option, none, some, List, [], ◌∷◌, ◌++◌, Bytes,
  codes, same, take, length, chunks, chomp, terminated,
}
use walu_os.Userland.Effects.{Effect, stdout, append, shell}
use walu_os.Userland.Storaged.Mounts.{is_device_mounted}

-- `now` is for the log; `stat` says whether a path is a block device, or fails; `mounts` is the
-- mount table, `popen` the output of a command, and `audit_opens` whether the audit log can be opened.
pub record Host : Type 0 where
  pub now : Option Bytes
  pub audit_opens : Bool
  pub stat : Bytes → Option Bool
  pub mounts : Option Bytes
  pub popen : Bytes → Option Bytes

-- `format_args_t`
pub record FormatArgs : Type 0 where
  pub device : Option Bytes
  pub dry_run : Bool
  pub force : Bool
  pub yes : Bool
  pub confirm : Option Bytes

abbrev pub audit_log_path : Bytes
audit_log_path = codes "/tmp/walu_storaged_audit.log"

abbrev or_dash : Option Bytes → Bytes
or_dash none = codes "-"
or_dash (some s) = s

-- The line of the audit log.
abbrev pub audit_line : Bytes → Option Bytes → Bytes → Bytes → Bytes
audit_line op device result detail =
    codes "op="
    ++ op
    ++ codes " device="
    ++ or_dash device
    ++ codes " result="
    ++ result
    ++ codes " detail="
    ++ detail

-- Only the device can be a null pointer where `audit_event` is called.
unfoldable pub audit_event : Host → Bytes → Option Bytes → Bytes → Bytes → List Effect
audit_event host op device result detail =
    if host.audit_opens then append audit_log_path (audit_line op device result detail) ∷ [] else []

abbrev pub usage : List Effect
usage =
    stdout (codes "Usage:")
    ∷ stdout (codes "  storaged probe --device <path>")
    ∷ stdout
        (codes "  storaged format --device <path> [--dry-run] [--force --confirm <path> --yes]")
    ∷ stdout (codes "Safety:")
    ∷ stdout (codes "  destructive operations require --force, --confirm <exact-device>, and --yes")
    ∷ []

-- The loop of `parse_format_args` over the words that are left; `none` is its error.
unfoldable pub parse_from : FormatArgs → List Bytes → Option FormatArgs
parse_from args [] = some args
parse_from args (w ∷ []) =
    if same w (codes "--dry-run")
    then some (record args { dry_run = true })
    else if same w (codes "--force")
    then some (record args { force = true })
    else if same w (codes "--yes")
    then some (record args { yes = true })
    else none
parse_from args (w ∷ v ∷ ws) = elim (same w (codes "--device")) [
  | true ↦ parse_from (record args { device = some v }) ws
  | false ↦ elim (same w (codes "--dry-run")) [
    | true ↦ parse_from (record args { dry_run = true }) (v ∷ ws)
    | false ↦ elim (same w (codes "--force")) [
      | true ↦ parse_from (record args { force = true }) (v ∷ ws)
      | false ↦ elim (same w (codes "--yes")) [
        | true ↦ parse_from (record args { yes = true }) (v ∷ ws)
        | false ↦ elim (same w (codes "--confirm")) [
          | true ↦ parse_from (record args { confirm = some v }) ws
          | false ↦ none
        ]
      ]
    ]
  ]
]

abbrev pub no_args : FormatArgs
no_args = record { device = none; dry_run = false; force = false; yes = false; confirm = none }

-- `!args->device` is an error, so the device is known after it.
abbrev pub has_device : FormatArgs → Option (FormatArgs × Bytes)
has_device args = elim args.device [ none ↦ none | some device ↦ some (args, device) ]

-- `parse_format_args`, on the words behind `storaged format`
unfoldable pub parse_format_args : List Bytes → Option (FormatArgs × Bytes)
parse_format_args ws = elim (parse_from no_args ws) [ none ↦ none | some args ↦ has_device args ]

-- `strncmp(path, "/dev/", 5) == 0 && strlen(path) > 5`
unfoldable pub is_valid_block_path : Bytes → Bool
is_valid_block_path path = same (take 5 path) (codes "/dev/") && ltb 5 (length path)

unfoldable pub is_block_device : Host → Bytes → Bool
is_block_device host path = elim (host.stat path) [ none ↦ false | some block ↦ block ]

abbrev pub yes_no : Bool → Bytes
yes_no b = if b then codes "yes" else codes "no"

abbrev first_chunk : List Bytes → Option Bytes
first_chunk [] = none
first_chunk (c ∷ cs) = some c

-- A command and what `fgets` with a buffer of 256 bytes takes of its output, under a name.
abbrev report : Host → Bytes → Bytes → List Effect
report host name cmd =
    let line : Option Bytes = elim (host.popen cmd) [
      | none ↦ none
      | some text ↦ first_chunk (chunks 255 text)
    ] in
    shell cmd
    ∷ stdout (
        name
        ++ codes "="
        ++ elim line [ none ↦ codes "unknown" | some buf ↦ chomp (terminated buf) ])
    ∷ []

-- The command is cut to its buffer of 512 bytes.
unfoldable pub print_probe_info : Host → Bytes → List Effect
print_probe_info host device =
    stdout (codes "device=" ++ device)
      ∷ stdout (codes "block_device=" ++ yes_no (is_block_device host device))
      ∷ stdout (codes "mounted=" ++ yes_no (is_device_mounted host.mounts device))
      ∷ report host (codes "size")
          (take 511 (codes "lsblk -ndo SIZE " ++ device ++ codes " 2>/dev/null"))
    ++ report host (codes "fstype")
        (take 511 (codes "blkid -o value -s TYPE " ++ device ++ codes " 2>/dev/null"))
