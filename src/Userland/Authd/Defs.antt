-- ===== src/Userland/Authd/Defs.antt =====
-- `main` of userland/authd/authd.c.
use walu_os.Prelude.{
  ℕ, Bool, true, false, if◌then◌else◌, ◌==◌, Option, none, some, List, [], ◌∷◌, Bytes, codes, same,
  chomp, terminated, chunks,
}
use walu_os.Userland.Effects.{Effect, stdout, Run, log_info, log_error}
use walu_os.Userland.Authd.Policy.{PasswordPolicy, check_policy}
use walu_os.Userland.Authd.Shadow.{verify_user_password, check_shadow_hash_state}

-- The surroundings: the time for the log, the standard input, the files by path, and `crypt`.
pub record Host : Type 0 where
  pub now : Option Bytes
  pub stdin : Bytes
  pub files : Bytes → Option Bytes
  pub crypt : Bytes → Bytes → Option Bytes

abbrev pub authd : Bytes
authd = codes "authd"

abbrev pub policy : PasswordPolicy
policy = record {
  min_len = 12;
  require_upper = true;
  require_lower = true;
  require_digit = true;
  require_symbol = true;
}

abbrev pub usage : List Effect
usage =
    stdout (codes "Usage:")
    ∷ stdout (codes "  authd policy-check <password>")
    ∷ stdout (codes "  authd policy-check --stdin")
    ∷ stdout (codes "  authd shadow-state <hash-field>")
    ∷ stdout (codes "  authd verify --user <name> [--shadow <path>] --password-stdin")
    ∷ []

abbrev pub misused : Run
misused = (usage, 1)

-- `fgets` with a buffer of 512 bytes on the standard input, up to the end of the line.
abbrev first_line : List Bytes → Option Bytes
first_line [] = none
first_line (line ∷ lines) = some (chomp (terminated line))

unfoldable pub read_password : Host → Option Bytes
read_password host = first_line (chunks 511 host.stdin)

abbrev answer_policy : Host → ℕ → Run
answer_policy host rc =
    if rc == 0
    then (log_info host.now authd (codes "password policy check passed"), 0)
    else (log_error host.now authd (codes "password policy check failed"), rc)

-- `authd policy-check argument`
unfoldable pub policy_check : Host → Bytes → Run
policy_check host argument =
    if same argument (codes "--stdin")
    then elim (read_password host) [
      | none ↦ (log_error host.now authd (codes "failed reading password from stdin"), 6)
      | some password ↦ answer_policy host (check_policy password policy)
    ]
    else answer_policy host (check_policy argument policy)

-- The variables that the options of `verify` set.
pub record VerifyArgs : Type 0 where
  pub user : Option Bytes
  pub shadow_path : Bytes
  pub got_pw_stdin : Bool

abbrev pub no_args : VerifyArgs
no_args = record { user = none; shadow_path = codes "/etc/shadow"; got_pw_stdin = false }

-- The loop over the options; `none` where it ends with the usage.
unfoldable pub parse_from : VerifyArgs → List Bytes → Option VerifyArgs
parse_from args [] = some args
parse_from args (w ∷ []) =
    if same w (codes "--password-stdin") then some (record args { got_pw_stdin = true }) else none
parse_from args (w ∷ v ∷ ws) = elim (same w (codes "--user")) [
  | true ↦ parse_from (record args { user = some v }) ws
  | false ↦ elim (same w (codes "--shadow")) [
    | true ↦ parse_from (record args { shadow_path = v }) ws
    | false ↦ elim (same w (codes "--password-stdin")) [
      | true ↦ parse_from (record args { got_pw_stdin = true }) (v ∷ ws)
      | false ↦ none
    ]
  ]
]

abbrev answer_verify : Host → ℕ → Run
answer_verify host rc =
    if rc == 0
    then (log_info host.now authd (codes "password verify succeeded"), 0)
    else (log_error host.now authd (codes "password verify failed"), rc)

-- `verify` for a user, on the password of the standard input.
unfoldable pub verify_user : Host → Bytes → Bytes → Run
verify_user host user shadow_path = elim (read_password host) [
  | none ↦ (log_error host.now authd (codes "failed to read password from stdin"), 6)
  | some password ↦
      answer_verify host (verify_user_password host.crypt user password (host.files shadow_path))
]

abbrev verify_with : Host → VerifyArgs → Run
verify_with host args = elim args.user [
  | none ↦ misused
  | some user ↦ if args.got_pw_stdin then verify_user host user args.shadow_path else misused
]

-- `authd verify ws`
unfoldable pub verify : Host → List Bytes → Run
verify host ws = elim (parse_from no_args ws) [ none ↦ misused | some args ↦ verify_with host args ]

-- `authd shadow-state hash_field`
unfoldable pub shadow_state : Bytes → Run
shadow_state hash_field =
    let rc = check_shadow_hash_state hash_field in
    if rc == 0
    then (stdout (codes "state=active") ∷ [], 0)
    else if rc == 1
    then (stdout (codes "state=unset") ∷ [], 2)
    else (stdout (codes "state=locked") ∷ [], 3)

-- `main`, on the words behind the name of the program
unfoldable pub main : Host → List Bytes → Run
main host [] = misused
main host (command ∷ []) = misused
main host (command ∷ w ∷ ws) =
    if same command (codes "policy-check")
    then policy_check host w
    else if same command (codes "verify")
    then verify host (w ∷ ws)
    else if same command (codes "shadow-state")
    then shadow_state w
    else misused
