-- ===== src/Userland/Storaged/Safety.antt =====
-- Which formats storaged (userland/storaged/storaged.c) lets pass.
use walu_os.Prelude.{
  ◌≡◌, ◌↔◌, refl, true, false, some, List, ◌∷◌, Bytes, codes, same_iff, arith, sym, ◌∙◌, All, ◌<◌,
  take, length, ◌⊎◌, Option-cases, inl, inr,
}
use walu_os.Userland.Storaged.Mounts.{is_device_mounted}
use walu_os.Userland.Storaged.Defs.{
  Host, FormatArgs, no_args, parse_format_args, is_valid_block_path, is_block_device,
}
use walu_os.Userland.Storaged.Table.{Row, IsRow, table, Lists, is_device_mounted-table}
use walu_os.Userland.Storaged.Options.{Spelled, parse_format_args-spell}
use walu_os.Userland.Storaged.Commands.{denied, command_format, is_unconfirmed, format, main}

-- What makes a request on `device` pass: a dry run needs only the path of a block device.
pub record IsSafe (rows : List Row) (host : Host) (args : FormatArgs) (device : Bytes)
    : Type 0 where
  pub path : (take 5 device ≡ codes "/dev/") × (5 < length device)
  pub block : host.stat device ≡ some true
  pub allowed :
      (args.dry_run ≡ true)
      ⊎ (¬ Lists device rows)
        × (args.force ≡ true)
        × (args.yes ≡ true)
        × (args.confirm ≡ some device)

is_unconfirmed_iff :
    (args : FormatArgs) (device : Bytes)
    → (is_unconfirmed args device ≡ false)
      ↔ ((args.force ≡ true) × (args.yes ≡ true) × (args.confirm ≡ some device))
is_unconfirmed_iff args device = elim (Option-cases args.confirm) [
  | inl e ↦ rw e (ground arith)
  | inr (c, e) ↦ rw e (ground (arith, same_iff c device))
]

is_valid_block_path_iff :
    (device : Bytes)
    → (is_valid_block_path device ≡ true) ↔ ((take 5 device ≡ codes "/dev/") × (5 < length device))
unfolding is_valid_block_path
is_valid_block_path_iff device = ground (arith, same_iff (take 5 device) (codes "/dev/"))

is_block_device_iff :
    (host : Host) (device : Bytes)
    → (is_block_device host device ≡ true) ↔ (host.stat device ≡ some true)
unfolding is_block_device
is_block_device_iff host device = elim (Option-cases (host.stat device)) [
  | inl e ↦ rw (e, is_block_device) (ground arith)
  | inr (b, e) ↦ rw (e, is_block_device) (ground arith)
]

module _ (rows : List Row) (host : Host) (mounts : host.mounts ≡ some (table rows))
    (words : All IsRow rows) where
  command_format-IsSafe :
      (args : FormatArgs) (device : Bytes)
      → ((command_format host args device).1 ≡ 0) ↔ IsSafe rows host args device
  unfolding command_format denied
  command_format-IsSafe args device =
      let listed : (is_device_mounted host.mounts device ≡ true) ↔ Lists device rows =
        rw mounts (is_device_mounted-table rows device words) in
      ground (
        arith,
        is_valid_block_path_iff device,
        is_block_device_iff host device,
        listed,
        is_unconfirmed_iff args device,
      )

  -- Where the mount table can be read and consists of lines whose device, directory, type and options
  -- are words that fit the buffers (255 bytes, 63 for the type), followed by `0 0`: `storaged format`
  -- ends with code 0 exactly if its command line spells flags that name a device, the path is
  -- one of a block device under /dev/, and it is a dry run or no entry of the table names the device
  -- and the flags force, yes and a confirmation of that very path are given.
  pub main-IsSafe :
      (ws : List Bytes)
      → ((main host (codes "format" ∷ ws)).1 ≡ 0) ↔ (
          (args : FormatArgs) × (device : Bytes) × Spelled no_args ws args
          × (args.device ≡ some device)
          × IsSafe rows host args device)
  unfolding main format
  main-IsSafe ws = (
    λ h. elim (Option-cases (parse_format_args ws)) [
      | inl e ↦ absurd (ground (arith, h, e))
      | inr ((args, device), e) ↦
          let (spelled, named) = (parse_format_args-spell ws args device).0 e in
          let same_code : (main host (codes "format" ∷ ws)).1
              ≡ (command_format host args device).1 =
            rw (e, format) refl in
          (args, device, spelled, named, (command_format-IsSafe args device).0 (sym same_code ∙ h))
    ],
    λ (args, device, spelled, named, safe).
        let parsed = (parse_format_args-spell ws args device).1 (spelled, named) in
        rw (parsed, format) ((command_format-IsSafe args device).1 safe),
  )
