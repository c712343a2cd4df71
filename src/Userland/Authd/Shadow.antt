-- ===== src/Userland/Authd/Shadow.antt =====
-- `parse_shadow_hash`, `check_shadow_hash_state` and `verify_user_password` of userland/authd/authd.c.
use walu_os.Prelude.{
  ℕ, Bool, ◌||◌, if◌then◌else◌, ◌==◌, Option, none, some, List, [], ◌∷◌, Bytes, same, strtok, clip,
  terminated, chunks,
}

-- The delimiters ":\n"
abbrev pub is_delim : ℕ → Bool
is_delim c = c == b':' || c == b'\n'

infixl 5 ◌>>=◌
abbrev ◌>>=◌ {ℓ κ} : {A : Type ℓ} {B : Type κ} → Option A → (A → Option B) → Option B
none >>= f = none
some a >>= f = f a

-- The first two tokens of a line.
unfoldable pub entry : Bytes → Option (Bytes × Bytes)
entry line = do
  (name, rest) ← strtok is_delim line
  (hash, rest') ← strtok is_delim rest
  some (name, hash)

-- What `parse_shadow_hash` returns: -1, 1, or 0 with the hash in `out_hash`.
pub data Lookup : Type 0 where
  unreadable missing : Lookup
  found : Bytes → Lookup

-- The loop over the lines.
unfoldable pub find_hash : Bytes → ℕ → List Bytes → Lookup
find_hash user out_len [] = missing
find_hash user out_len (line ∷ lines) =
    let rest = find_hash user out_len lines in
    elim (entry (terminated line)) [
      | none ↦ rest
      | some (name, hash) ↦ if same name user then found (clip out_len hash) else rest
    ]

-- The file is its text, or `none` where it cannot be opened.
unfoldable pub parse_shadow_hash : Option Bytes → Bytes → ℕ → Lookup
parse_shadow_hash none user out_len = unreadable
parse_shadow_hash (some file) user out_len = find_hash user out_len (chunks 1023 file)

unfoldable pub check_shadow_hash_state : Bytes → ℕ
check_shadow_hash_state [] = 1
check_shadow_hash_state (c ∷ s) = if c == b'!' || c == b'*' then 2 else 0

-- `crypt` is the function of the C library: from a password and a hash to a hash, or to none.
module _ (crypt : Bytes → Bytes → Option Bytes) where
  abbrev pub check_hash : Bytes → Bytes → ℕ
  check_hash password hash = elim (crypt password hash) [
    | none ↦ 11
    | some computed ↦ if same computed hash then 0 else 12
  ]

  -- The code for the state of the hash, or that of the comparison.
  abbrev pub by_state : ℕ → Bytes → Bytes → ℕ
  by_state state password hash =
      if state == 0 then check_hash password hash else if state == 1 then 9 else 10

  -- The code by what the look into the file gave.
  abbrev pub answer : Bytes → Lookup → ℕ
  answer password unreadable = 8
  answer password missing = 7
  answer password (found hash) = by_state (check_shadow_hash_state hash) password hash

  unfoldable pub verify_user_password : Bytes → Bytes → Option Bytes → ℕ
  verify_user_password user password shadow = answer password (parse_shadow_hash shadow user 512)
