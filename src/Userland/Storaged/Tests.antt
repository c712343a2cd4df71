-- ===== src/Userland/Storaged/Tests.antt =====
-- Requests and a mount table.
use walu_os.Prelude.{
  ◌≡◌, ◌↔◌, refl, true, false, none, some, List, [], ◌∷◌, Bytes, codes, arith, is_clear-NoneOf,
}
use walu_os.Userland.Storaged.Defs.{
  Host, FormatArgs, parse_format_args, parse_from, no_args, is_valid_block_path, is_block_device,
}
use walu_os.Userland.Storaged.Mounts.{
  is_space, is_device_mounted, mounted_from, scan_entry, word, skip_ints,
}
use walu_os.Userland.Storaged.Commands.{command_format, main, format}
use walu_os.Userland.Storaged.Safety.{IsSafe, main-IsSafe}
use walu_os.Userland.Storaged.Audit.{AuditedRun, main-Audited}
use walu_os.Userland.Storaged.Options.{Spelled, parse_format_args-spell}
use walu_os.Userland.Storaged.Table.{Row, IsRow, table, Lists, is_device_mounted-table}

abbrev root_row : Row
root_row = record {
  dev = codes "/dev/sda1";
  dir = codes "/";
  fstype = codes "ext4";
  opts = codes "rw";
}

-- A host with one block device mounted, and another.
abbrev desktop : Host
desktop = record {
  now = some (codes "2026-01-01T00:00:00Z");
  audit_opens = true;
  stat = λ path. some true;
  mounts = some (table (root_row ∷ []));
  popen = λ cmd. none;
}

abbrev sdb_args : FormatArgs
sdb_args = record {
  device = some (codes "/dev/sdb");
  dry_run = false;
  force = true;
  yes = true;
  confirm = some (codes "/dev/sdb");
}

abbrev sdb_words : List Bytes
sdb_words =
    codes "--device"
    ∷ codes "/dev/sdb"
    ∷ codes "--force"
    ∷ codes "--confirm"
    ∷ codes "/dev/sdb"
    ∷ codes "--yes"
    ∷ []

sdb_mounted : is_device_mounted desktop.mounts (codes "/dev/sdb") ≡ false
unfolding is_device_mounted mounted_from scan_entry word skip_ints
sdb_mounted = refl

root_row-IsRow : IsRow root_row
root_row-IsRow = record {
  dev_word = record {
    more = λ e. cc;
    plain = is_clear-NoneOf is_space root_row.dev refl;
    fits = omega arith;
  };
  dir_word = record {
    more = λ e. cc;
    plain = is_clear-NoneOf is_space root_row.dir refl;
    fits = omega arith;
  };
  fstype_word = record {
    more = λ e. cc;
    plain = is_clear-NoneOf is_space root_row.fstype refl;
    fits = omega arith;
  };
  opts_word = record {
    more = λ e. cc;
    plain = is_clear-NoneOf is_space root_row.opts refl;
    fits = omega arith;
  };
}

main-IsSafe_example : ((main desktop (codes "format" ∷ sdb_words)).1 ≡ 0) ↔ (
    (args : FormatArgs) × (device : Bytes) × Spelled no_args sdb_words args
    × (args.device ≡ some device)
    × IsSafe (root_row ∷ []) desktop args device)
main-IsSafe_example = main-IsSafe (root_row ∷ []) desktop refl (root_row-IsRow, tt) sdb_words

sdb_approved : (main desktop (codes "format" ∷ sdb_words)).1 ≡ 0
unfolding main format command_format parse_format_args parse_from is_device_mounted mounted_from
    scan_entry word skip_ints is_valid_block_path is_block_device
sdb_approved = refl

main-Audited_example :
    AuditedRun desktop (codes "format" ∷ sdb_words) (main desktop (codes "format" ∷ sdb_words))
main-Audited_example = main-Audited desktop (codes "format" ∷ sdb_words)

parse_format_args-spell_example :
    (parse_format_args sdb_words ≡ some (sdb_args, codes "/dev/sdb"))
    ↔ (Spelled no_args sdb_words sdb_args × (sdb_args.device ≡ some (codes "/dev/sdb")))
parse_format_args-spell_example = parse_format_args-spell sdb_words sdb_args (codes "/dev/sdb")

is_device_mounted-table_example :
    (is_device_mounted (some (table (root_row ∷ []))) (codes "/dev/sda1") ≡ true)
    ↔ Lists (codes "/dev/sda1") (root_row ∷ [])
is_device_mounted-table_example =
    is_device_mounted-table (root_row ∷ []) (codes "/dev/sda1") (root_row-IsRow, tt)
