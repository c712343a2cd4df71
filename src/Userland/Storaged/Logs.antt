-- ===== src/Userland/Storaged/Logs.antt =====
-- The entries of storaged's audit log (userland/storaged/storaged.c) and the commands that leave them.
use walu_os.Prelude.{
  ℕ, ◌≡◌, refl, ap, ◌∙◌, Bool, Bool-cases, true, false, not, inl, inr, Option, none, some, List, [],
  ◌∷◌, ◌++◌, Bytes, codes, if◌then◌else◌,
}
use walu_os.Userland.Effects.{
  Effect, stdout, stderr, append, shell, Run, log_info, log_error, log_emit,
}
use walu_os.Userland.Storaged.Mounts.{is_device_mounted}
use walu_os.Userland.Storaged.Defs.{
  Host, FormatArgs, audit_line, audit_event, usage, is_valid_block_path, is_block_device,
  print_probe_info,
}
use walu_os.Userland.Storaged.Commands.{
  storaged, dry_run_report, denied, command_probe, command_format, is_unconfirmed,
}

-- The lines that a run adds to files, each with the file's path.
abbrev pub appended : List Effect → List (Bytes × Bytes)
appended [] = []
appended (append path line ∷ es) = (path, line) ∷ appended es
appended (stdout line ∷ es) = appended es
appended (stderr line ∷ es) = appended es
appended (shell cmd ∷ es) = appended es

appended-append : (es fs : List Effect) → appended (es ++ fs) ≡ appended es ++ appended fs
appended-append [] fs = refl
appended-append (append path line ∷ es) fs = ap (◌∷◌ (path, line)) (appended-append es fs)
appended-append (stdout line ∷ es) fs = appended-append es fs
appended-append (stderr line ∷ es) fs = appended-append es fs
appended-append (shell cmd ∷ es) fs = appended-append es fs

-- The results of `probe` and `format`: what is done, its result and detail, and the exit code.
pub data Ending : Bytes → Bytes → Bytes → ℕ → Type 0 where
  probe_denied : Ending (codes "probe") (codes "deny") (codes "invalid-path") 2
  probed : Ending (codes "probe") (codes "ok") (codes "reported") 0
  bad_path : Ending (codes "format") (codes "deny") (codes "invalid-path") 2
  not_block : Ending (codes "format") (codes "deny") (codes "not-block-device") 2
  rehearsed : Ending (codes "format") (codes "dry-run") (codes "policy-check-only") 0
  mounted : Ending (codes "format") (codes "deny") (codes "mounted") 4
  unconfirmed : Ending (codes "format") (codes "deny") (codes "missing-force-confirm-yes") 3
  approved : Ending (codes "format") (codes "approved") (codes "force-confirm-yes") 0

-- The entry of the audit log, where it can be opened.
abbrev pub entry : Host → Bytes → List (Bytes × Bytes)
entry host line = if host.audit_opens then (codes "/tmp/walu_storaged_audit.log", line) ∷ [] else []

-- The run leaves one entry, about `op` and `device`, that belongs to its exit code.
pub record Logged (host : Host) (op device : Bytes) (run : Run) : Type 0 where
  pub result : Bytes
  pub detail : Bytes
  pub ending : Ending op result detail run.1
  pub entries : appended run.0 ≡ entry host (audit_line op (some device) result detail)

log_silent :
    (now : Option Bytes) (level component message : Bytes)
    → appended (log_emit now level component message) ≡ []
unfolding log_emit
log_silent none level component message = refl
log_silent (some ts) level component message = refl

error_silent :
    (now : Option Bytes) (component message : Bytes)
    → appended (log_error now component message) ≡ []
unfolding log_error
error_silent now component message = log_silent now (codes "error") component message

info_silent :
    (now : Option Bytes) (component message : Bytes)
    → appended (log_info now component message) ≡ []
unfolding log_info
info_silent now component message = log_silent now (codes "info") component message

either-Logged :
    {host : Host} {op device : Bytes} (b : Bool) {x y : Run}
    → Logged host op device x
    → Logged host op device y
    → Logged host op device (if b then x else y)
either-Logged true l r = l
either-Logged false l r = r

probe_silent : (host : Host) (device : Bytes) → appended (print_probe_info host device) ≡ []
unfolding print_probe_info
probe_silent host device = refl

module _ (host : Host) where
  event_logged :
      (op device result detail : Bytes)
      → appended (audit_event host op (some device) result detail)
        ≡ entry host (audit_line op (some device) result detail)
  unfolding audit_event
  event_logged op device result detail = elim (Bool-cases host.audit_opens) [
    | inl opens ↦ rw opens refl
    | inr fails ↦ rw fails refl
  ]

  -- Silent effects and one entry.
  entry-Logged :
      (es : List Effect) {op result detail : Bytes} {code : ℕ} (device : Bytes)
      → appended es ≡ []
      → Ending op result detail code
      → Logged host op device (es ++ audit_event host op (some device) result detail, code)
  entry-Logged es {op} {result} {detail} {code} device silent e = record {
    result = result;
    detail = detail;
    ending = e;
    entries =
        appended-append es (audit_event host op (some device) result detail)
        ∙ rw silent (event_logged op device result detail);
  }

  denied-Logged :
      (op device message : Bytes) (printed : List Effect) (detail : Bytes) (code : ℕ)
      → appended printed ≡ []
      → Ending op (codes "deny") detail code
      → Logged host op device (denied host op device message printed detail code)
  unfolding denied
  denied-Logged op device message printed detail code silent e =
      entry-Logged (log_error host.now storaged message ++ printed) device
        (appended-append (log_error host.now storaged message) printed
          ∙ rw (error_silent host.now storaged message, silent))
        e

  pub command_format-Logged :
      (args : FormatArgs) (device : Bytes)
      → Logged host (codes "format") device (command_format host args device)
  unfolding command_format
  command_format-Logged args device =
      either-Logged (not (is_valid_block_path device))
        (denied-Logged (codes "format") device _ [] _ 2 refl bad_path)
        (either-Logged (not (is_block_device host device))
          (denied-Logged (codes "format") device _ [] _ 2 refl not_block)
          (either-Logged args.dry_run
            (entry-Logged (dry_run_report host device) device refl rehearsed)
            (either-Logged (is_device_mounted host.mounts device)
              (denied-Logged (codes "format") device (codes "refusing to format a mounted device")
                [] _ 4 refl mounted)
              (either-Logged (is_unconfirmed args device)
                (denied-Logged (codes "format") device
                  (codes "missing mandatory destructive-operation confirmation flags") usage _ 3
                  refl unconfirmed)
                (entry-Logged
                  (stdout (codes "approved: mkfs.ext4 " ++ device)
                    ∷ log_info host.now storaged
                        (codes "format request approved by force+confirm+yes policy"))
                  device
                  (info_silent host.now storaged
                    (codes "format request approved by force+confirm+yes policy"))
                  approved)))))

  pub command_probe-Logged :
      (device : Bytes) → Logged host (codes "probe") device (command_probe host device)
  unfolding command_probe
  command_probe-Logged device =
      either-Logged (not (is_valid_block_path device))
        (denied-Logged (codes "probe") device _ [] _ 2 refl probe_denied)
        (entry-Logged (print_probe_info host device) device (probe_silent host device) probed)
