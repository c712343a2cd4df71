-- ===== src/Userland/Authd/Accounts.antt =====
-- The shadow file as a table of accounts.
use walu_os.Prelude.{
  ◌≤◌, ◌≡◌, ◌≢◌, ◌↔◌, refl, ap, sym, subst, ◌∙◌, inl, inr, if◌then◌else◌, Option, none, some, List,
  [], ◌∷◌, ◌++◌, append_assoc, Bytes, codes, same, same_iff, All, NoneOf, length, take, take_all,
  strtok, strtok-append, clip, terminated, chunks, chunks_from-line, is_break, no_newline,
  terminated_line, Bool-cases, Option-cases, arith, ◌⊎◌,
}
use walu_os.Userland.Authd.Shadow.{
  is_delim, entry, Lookup, missing, found, find_hash, parse_shadow_hash, check_shadow_hash_state,
  check_hash, by_state, answer, verify_user_password,
}

pub record Account : Type 0 where
  pub name : Bytes
  pub hash : Bytes
  pub rest : Bytes

-- A line of the file without its end.
abbrev pub body : Account → Bytes
body a = a.name ++ b':' ∷ (a.hash ++ b':' ∷ a.rest)

-- What the file can express.
pub record IsAccount (a : Account) : Type 0 where
  pub named : a.name ≢ []
  pub hashed : a.hash ≢ []
  pub name_plain : NoneOf is_delim a.name
  pub hash_plain : NoneOf is_delim a.hash
  pub line_plain : NoneOf is_break (body a)
  pub line_fits : length (body a) ≤ 1022
  pub hash_fits : length a.hash ≤ 511

abbrev pub file : List Account → Bytes
file [] = []
file (a ∷ es) = body a ++ b'\n' ∷ file es

-- The hash of the first account of a name.
abbrev pub hash_of : Bytes → List Account → Option Bytes
hash_of user [] = none
hash_of user (a ∷ es) = if same a.name user then some a.hash else hash_of user es

abbrev looked_up : Option Bytes → Lookup
looked_up none = missing
looked_up (some hash) = found hash

entry-body : (a : Account) → IsAccount a → entry (body a ++ b'\n' ∷ []) ≡ some (a.name, a.hash)
unfolding entry
entry-body a h =
    let tail_of = a.rest ++ b'\n' ∷ [] in
    let whole : body a ++ b'\n' ∷ [] ≡ a.name ++ b':' ∷ (a.hash ++ b':' ∷ tail_of) =
      append_assoc a.name _ _ ∙ ap (λ s. a.name ++ b':' ∷ s) (append_assoc a.hash _ _) in
    let name_token : strtok is_delim (a.name ++ b':' ∷ (a.hash ++ b':' ∷ tail_of))
        ≡ some (a.name, a.hash ++ b':' ∷ tail_of) =
      strtok-append is_delim a.name b':' (a.hash ++ b':' ∷ tail_of) h.named h.name_plain refl in
    let hash_token : strtok is_delim (a.hash ++ b':' ∷ tail_of) ≡ some (a.hash, tail_of) =
      strtok-append is_delim a.hash b':' tail_of h.hashed h.hash_plain refl in
    ap entry whole ∙ rw (name_token, hash_token) refl

pub find_hash-entry :
    (user line : Bytes) (lines : List Bytes) {name hash : Bytes}
    → entry (terminated line) ≡ some (name, hash)
    → find_hash user 512 (line ∷ lines)
      ≡ (if same name user then found (clip 512 hash) else find_hash user 512 lines)
unfolding find_hash
find_hash-entry user line lines e = rw (e, find_hash) refl

find_hash-file :
    (user : Bytes) (es : List Account)
    → All IsAccount es
    → find_hash user 512 (chunks 1023 (file es)) ≡ looked_up (hash_of user es)
unfolding find_hash
find_hash-file user [] h = refl
find_hash-file user (a ∷ es) (ha, h) =
    let line = body a ++ b'\n' ∷ [] in
    let token : entry (terminated line) ≡ some (a.name, a.hash) =
      ap entry (terminated_line (body a) ha.line_plain) ∙ entry-body a ha in
    let whole : clip 512 a.hash ≡ a.hash = take_all 511 a.hash ha.hash_fits in
    ap (find_hash user 512) (
      chunks_from-line 1023 1023 [] (body a) (file es) (no_newline (body a) ha.line_plain)
        (omega (arith, ha.line_fits)))
    ∙ find_hash-entry user line (chunks 1023 (file es)) token
    ∙ elim (Bool-cases (same a.name user)) [
      | inl e ↦ rw e (ap found whole)
      | inr e ↦ rw e (find_hash-file user es h)
    ]

-- The marks of a locked account.
abbrev pub IsLocked : Bytes → Type 0
IsLocked hash = (take 1 hash ≡ codes "!") ⊎ (take 1 hash ≡ codes "*")

hash_of-more :
    (user : Bytes) (es : List Account) {hash : Bytes}
    → All IsAccount es
    → hash_of user es ≡ some hash
    → hash ≢ []
hash_of-more user [] h e = absurd cc
hash_of-more user (a ∷ es) {hash} (ha, h) e = elim (Bool-cases (same a.name user)) [
  | inl t ↦
      let found_here : some a.hash ≡ some hash = sym (rw t) ∙ e in
      let same_hash : a.hash ≡ hash = cc in λ z. ha.hashed (same_hash ∙ z)
  | inr f ↦ hash_of-more user es h (sym (rw f) ∙ e)
]

check_shadow_hash_state_iff :
    (hash : Bytes) → hash ≢ [] → (check_shadow_hash_state hash ≡ 0) ↔ (¬ IsLocked hash)
unfolding check_shadow_hash_state
check_shadow_hash_state_iff [] h = absurd (h refl)
check_shadow_hash_state_iff (c ∷ s) h = ground arith

module _ (crypt : Bytes → Bytes → Option Bytes) where
  check_hash_iff :
      (password hash : Bytes)
      → (check_hash crypt password hash ≡ 0) ↔ (crypt password hash ≡ some hash)
  check_hash_iff password hash = elim (Option-cases (crypt password hash)) [
    | inl e ↦ rw e (ground arith)
    | inr (computed, e) ↦ rw e (ground (arith, same_iff computed hash))
  ]

  by_state_iff :
      (password hash : Bytes)
      → hash ≢ []
      → (by_state crypt (check_shadow_hash_state hash) password hash ≡ 0)
        ↔ ((¬ IsLocked hash) × (crypt password hash ≡ some hash))
  by_state_iff password hash more =
      ground (arith, check_shadow_hash_state_iff hash more, check_hash_iff password hash)

  verify-found :
      (user password shadow : Bytes) {l : Lookup}
      → find_hash user 512 (chunks 1023 shadow) ≡ l
      → verify_user_password crypt user password (some shadow) ≡ answer crypt password l
  unfolding verify_user_password parse_shadow_hash
  verify-found user password shadow e = ap (answer crypt password) e

  -- Of a shadow file whose lines are all accounts (a name and a hash that are not empty and hold no colon or
  -- line end, a line of at most 1022 bytes and a hash of at most 511), the password of a user is accepted
  -- exactly if the first account of that name has a hash that is not locked and that `crypt` gives
  -- back for the password.
  pub verify_user_password-file :
      (user password : Bytes) (es : List Account)
      → All IsAccount es
      → (verify_user_password crypt user password (some (file es)) ≡ 0) ↔ (
          (hash : Bytes) × (hash_of user es ≡ some hash)
          × (¬ IsLocked hash)
          × (crypt password hash ≡ some hash))
  verify_user_password-file user password es h =
      let shadow = verify-found user password (file es) (find_hash-file user es h) in
      elim (Option-cases (hash_of user es)) [
        | inl e ↦
            let code : verify_user_password crypt user password (some (file es)) ≡ 7 =
              shadow ∙ ap (λ o. answer crypt password (looked_up o)) e in
            (
              λ z. absurd (omega (arith, code, z)),
              λ (hash, e', unlocked, computed). absurd (ground (arith, e, e')),
            )
        | inr (hash, e) ↦
            let code : verify_user_password crypt user password (some (file es))
                ≡ by_state crypt (check_shadow_hash_state hash) password hash =
              shadow ∙ ap (λ o. answer crypt password (looked_up o)) e in
            let accepted = by_state_iff password hash (hash_of-more user es h e) in
            (
              λ z.
                  let (unlocked, computed) = accepted.0 (sym code ∙ z) in
                  (hash, e, unlocked, computed),
              λ (x, e', unlocked, computed).
                  let both : some x ≡ some hash = sym e' ∙ e in
                  let x_hash : x ≡ hash = cc in
                  code
                  ∙ accepted.1 (
                      subst (λ y. (¬ IsLocked y) × (crypt password y ≡ some y)) x_hash
                        (unlocked, computed)),
            )
      ]
