-- ===== src/Userland/Authd/Tests.antt =====
-- Passwords and a shadow file.
use walu_os.Prelude.{
  ◌≡◌, ◌≢◌, ◌↔◌, refl, Option, some, [], ◌∷◌, ◌++◌, Bytes, codes, arith, is_clear-NoneOf, is_break,
}
use walu_os.Userland.Authd.Policy.{check_policy}
use walu_os.Userland.Authd.Strength.{Judged, check_policy-Judged}
use walu_os.Userland.Authd.Shadow.{is_delim, verify_user_password}
use walu_os.Userland.Authd.Accounts.{
  Account, IsAccount, body, file, hash_of, IsLocked, verify_user_password-file,
}
use walu_os.Userland.Authd.Unset.{verify_never_unset}
use walu_os.Userland.Authd.Defs.{policy}

-- A function that stands for `crypt`: the hash of a password is a mark before it.
abbrev mark : Bytes → Bytes → Option Bytes
mark password hash = some (codes "$" ++ password)

abbrev ada : Account
ada = record { name = codes "ada"; hash = codes "$pw"; rest = codes "19000:0" }

ada-IsAccount : IsAccount ada
ada-IsAccount = record {
  named = λ e. cc;
  hashed = λ e. cc;
  name_plain = is_clear-NoneOf is_delim ada.name refl;
  hash_plain = is_clear-NoneOf is_delim ada.hash refl;
  line_plain = is_clear-NoneOf is_break (body ada) refl;
  line_fits = omega arith;
  hash_fits = omega arith;
}

check_policy-Judged_example :
    Judged policy (codes "Correct-Horse-7") (check_policy (codes "Correct-Horse-7") policy)
check_policy-Judged_example = check_policy-Judged (codes "Correct-Horse-7") policy (omega arith)

verify_user_password-file_example :
    (verify_user_password mark (codes "ada") (codes "pw") (some (file (ada ∷ []))) ≡ 0) ↔ (
      (hash : Bytes) × (hash_of (codes "ada") (ada ∷ []) ≡ some hash)
      × (¬ IsLocked hash)
      × (mark (codes "pw") hash ≡ some hash))
verify_user_password-file_example =
    verify_user_password-file mark (codes "ada") (codes "pw") (ada ∷ []) (ada-IsAccount, tt)

verify_never_unset_example :
    verify_user_password mark (codes "bob") (codes "") (some (codes "bob::19000:0\n")) ≢ 9
verify_never_unset_example =
    verify_never_unset mark (codes "bob") (codes "") (some (codes "bob::19000:0\n"))
