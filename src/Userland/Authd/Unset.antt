-- ===== src/Userland/Authd/Unset.antt =====
-- Accounts without a password: `strtok_r` passes over an empty field.
use walu_os.Prelude.{
  ◌≡◌, ◌≢◌, refl, sym, ◌∙◌, inl, inr, Option, none, some, List, [], ◌∷◌, Bytes, same, strtok,
  strtok-more, clip, terminated, chunks, Bool-cases, Option-cases, arith,
}
use walu_os.Userland.Authd.Accounts.{find_hash-entry}
use walu_os.Userland.Authd.Shadow.{
  is_delim, entry, Lookup, unreadable, missing, found, find_hash, parse_shadow_hash,
  check_shadow_hash_state, answer, check_hash, verify_user_password,
}

entry-more : (line : Bytes) {name hash : Bytes} → entry line ≡ some (name, hash) → hash ≢ []
unfolding entry
entry-more line {name} {hash} e = elim (Option-cases (strtok is_delim line)) [
  | inl none_first ↦ absurd (ground (arith, e, none_first))
  | inr ((first, rest), e1) ↦ elim (Option-cases (strtok is_delim rest)) [
    | inl none_second ↦ absurd (ground (arith, e, e1, none_second))
    | inr ((second, rest'), e2) ↦
        let e3 : entry line ≡ some (first, second) = rw (e1, entry) (rw e2 refl) in
        let both : ◌≡◌ {A = Option (Bytes × Bytes)} (some (first, second)) (some (name, hash)) =
          sym e3 ∙ e in
        let second_hash : second ≡ hash = cc in λ z. strtok-more is_delim rest e2 (second_hash ∙ z)
  ]
]

clip-more : (s : Bytes) → s ≢ [] → clip 512 s ≢ []
clip-more [] h z = h z
clip-more (c ∷ s) h z = absurd cc

find_skip :
    (user line : Bytes) (lines : List Bytes)
    → entry (terminated line) ≡ none
    → find_hash user 512 (line ∷ lines) ≡ find_hash user 512 lines
unfolding find_hash
find_skip user line lines e = rw (e, find_hash) refl

find_hash-more :
    (user : Bytes) (lines : List Bytes) {hash : Bytes}
    → find_hash user 512 lines ≡ found hash
    → hash ≢ []
unfolding find_hash
find_hash-more user [] e = absurd cc
find_hash-more user (line ∷ lines) {hash = h} e = elim (Option-cases (entry (terminated line))) [
  | inl skipped ↦ find_hash-more user lines (sym (find_skip user line lines skipped) ∙ e)
  | inr ((name, hash), token) ↦ elim (Bool-cases (same name user)) [
    | inl t ↦
        let both : found (clip 512 hash) ≡ found h =
          sym (find_hash-entry user line lines token ∙ rw t refl) ∙ e in
        let clipped : clip 512 hash ≡ h = cc in
        λ z. clip-more hash (entry-more (terminated line) token) (clipped ∙ z)
    | inr f ↦
        find_hash-more user lines (sym (find_hash-entry user line lines token ∙ rw f refl) ∙ e)
  ]
]

check_shadow_hash_state-ne : (hash : Bytes) → hash ≢ [] → check_shadow_hash_state hash ≢ 1
unfolding check_shadow_hash_state
check_shadow_hash_state-ne [] h = absurd (h refl)
check_shadow_hash_state-ne (c ∷ s) h = ground arith

module _ (crypt : Bytes → Bytes → Option Bytes) where
  check_hash-ne : (password hash : Bytes) → check_hash crypt password hash ≢ 9
  check_hash-ne password hash = elim (Option-cases (crypt password hash)) [
    | inl e ↦ rw (e, check_hash) (λ z. absurd (omega (arith, z)))
    | inr (computed, e) ↦ rw (e, check_hash) (ground arith)
  ]

  answer-ne :
      (password : Bytes) (l : Lookup)
      → ((hash : Bytes) → l ≡ found hash → hash ≢ [])
      → answer crypt password l ≢ 9
  answer-ne password unreadable h = λ z. absurd (omega (arith, z))
  answer-ne password missing h = λ z. absurd (omega (arith, z))
  answer-ne password (found hash) h =
      ground (arith, check_shadow_hash_state-ne hash (h hash refl), check_hash-ne password hash)

  -- Whatever the shadow file holds, `verify` never answers 9, the code of an account without a password.
  pub verify_never_unset :
      (user password : Bytes) (shadow : Option Bytes)
      → verify_user_password crypt user password shadow ≢ 9
  unfolding verify_user_password parse_shadow_hash
  verify_never_unset user password none = λ z. absurd (omega (arith, z))
  verify_never_unset user password (some file) =
      answer-ne password (find_hash user 512 (chunks 1023 file))
        (λ hash e. find_hash-more user (chunks 1023 file) e)
