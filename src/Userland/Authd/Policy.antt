-- ===== src/Userland/Authd/Policy.antt =====
-- `check_policy` of userland/authd/authd.c.
use walu_os.Prelude.{
  ℕ, ◌%◌, ◌^◌, Bool, true, false, not, ◌&&◌, if◌then◌else◌, ltb, leb, [], ◌∷◌, Bytes, length,
}

-- `password_policy_t`. The numbers that C tests for 0 are Booleans; `min_len` is not negative.
pub record PasswordPolicy : Type 0 where
  pub min_len : ℕ
  pub require_upper : Bool
  pub require_lower : Bool
  pub require_digit : Bool
  pub require_symbol : Bool

-- The tests of `ctype.h` in the C locale.
abbrev pub is_upper : ℕ → Bool
is_upper c = leb b'A' c && leb c b'Z'

abbrev pub is_lower : ℕ → Bool
is_lower c = leb b'a' c && leb c b'z'

abbrev pub is_digit : ℕ → Bool
is_digit c = leb b'0' c && leb c b'9'

-- The flags of the loop.
pub record Classes : Type 0 where
  pub has_upper : Bool
  pub has_lower : Bool
  pub has_digit : Bool
  pub has_symbol : Bool

abbrev pub noted : Classes → ℕ → Classes
noted k c =
    if is_upper c
    then record k { has_upper = true }
    else if is_lower c
    then record k { has_lower = true }
    else if is_digit c
    then record k { has_digit = true }
    else record k { has_symbol = true }

unfoldable pub classify : Classes → Bytes → Classes
classify k [] = k
classify k (c ∷ password) = classify (noted k c) password

abbrev pub no_class : Classes
no_class = record { has_upper = false; has_lower = false; has_digit = false; has_symbol = false }

-- `(int)len < min_len`: the length as a 32-bit number, negative from 2 ^ 31 on.
abbrev pub is_short : ℕ → ℕ → Bool
is_short len min_len = let r = len % 2 ^ 32 in if ltb r (2 ^ 31) then ltb r min_len else true

-- The tests behind the loop.
abbrev judge : PasswordPolicy → ℕ → Classes → ℕ
judge policy len k =
    if is_short len policy.min_len
    then 1
    else if policy.require_upper && not k.has_upper
    then 2
    else if policy.require_lower && not k.has_lower
    then 3
    else if policy.require_digit && not k.has_digit
    then 4
    else if policy.require_symbol && not k.has_symbol
    then 5
    else 0

unfoldable pub check_policy : Bytes → PasswordPolicy → ℕ
check_policy password policy = judge policy (length password) (classify no_class password)
