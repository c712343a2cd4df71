-- ===== src/Userland/Authd/Strength.antt =====
-- The password policy of authd in words.
use walu_os.Prelude.{
  ℕ, ◌^◌, ◌≤◌, ◌<◌, ◌≡◌, ◌↔◌, ◌⊎◌, Bool, true, not, ◌&&◌, [], ◌∷◌, Bytes, length, arith,
}
use walu_os.Userland.Authd.Policy.{
  PasswordPolicy, Classes, is_upper, is_lower, is_digit, noted, classify, no_class, check_policy,
  is_short,
}

abbrev pub is_symbol : ℕ → Bool
is_symbol c = not (is_upper c) && not (is_lower c) && not (is_digit c)

-- Some byte of the text passes a test.
abbrev pub Has : (ℕ → Bool) → Bytes → Type 0
Has p [] = ⊥
Has p (c ∷ s) = (p c ≡ true) ⊎ Has p s

-- What `classify` notes, in words.
record Noted (k : Classes) (s : Bytes) (out : Classes) : Type 0 where
  upper : (out.has_upper ≡ true) ↔ ((k.has_upper ≡ true) ⊎ Has is_upper s)
  lower : (out.has_lower ≡ true) ↔ ((k.has_lower ≡ true) ⊎ Has is_lower s)
  digit : (out.has_digit ≡ true) ↔ ((k.has_digit ≡ true) ⊎ Has is_digit s)
  symbol : (out.has_symbol ≡ true) ↔ ((k.has_symbol ≡ true) ⊎ Has is_symbol s)

classify-Noted : (k : Classes) (s : Bytes) → Noted k s (classify k s)
unfolding classify
classify-Noted k [] = ground arith
classify-Noted k (c ∷ s) =
    let h = classify-Noted (noted k c) s in
    record {
      upper = ground (arith, h);
      lower = ground (arith, h);
      digit = ground (arith, h);
      symbol = ground (arith, h);
    }

abbrev Wants : Bool → (ℕ → Bool) → Bytes → Type 0
Wants required p s = required ≡ true → Has p s

-- The policy on a password, by the code of the answer: the first demand that it does not meet, or 0.
pub record Judged (policy : PasswordPolicy) (s : Bytes) (code : ℕ) : Type 0 where
  pub accepted : (code ≡ 0) ↔ (
      (policy.min_len ≤ length s)
      × Wants policy.require_upper is_upper s
      × Wants policy.require_lower is_lower s
      × Wants policy.require_digit is_digit s
      × Wants policy.require_symbol is_symbol s)
  pub short : (code ≡ 1) ↔ (length s < policy.min_len)
  pub no_upper :
      (code ≡ 2) ↔ ((policy.min_len ≤ length s) × (¬ Wants policy.require_upper is_upper s))
  pub no_lower : (code ≡ 3) ↔ (
      (policy.min_len ≤ length s)
      × Wants policy.require_upper is_upper s
      × (¬ Wants policy.require_lower is_lower s))
  pub no_digit : (code ≡ 4) ↔ (
      (policy.min_len ≤ length s)
      × Wants policy.require_upper is_upper s
      × Wants policy.require_lower is_lower s
      × (¬ Wants policy.require_digit is_digit s))
  pub no_symbol : (code ≡ 5) ↔ (
      (policy.min_len ≤ length s)
      × Wants policy.require_upper is_upper s
      × Wants policy.require_lower is_lower s
      × Wants policy.require_digit is_digit s
      × (¬ Wants policy.require_symbol is_symbol s))

is_short_iff : (n m : ℕ) → n < 2 ^ 31 → (is_short n m ≡ true) ↔ (n < m)
is_short_iff n m h = ground arith

-- On a password of less than 2 ^ 31 bytes `check_policy` answers 0 exactly if the password is long enough and
-- has a byte of each class that the policy requires, and else the code of the first demand not met.
pub check_policy-Judged :
    (s : Bytes) (policy : PasswordPolicy)
    → length s < 2 ^ 31
    → Judged policy s (check_policy s policy)
unfolding check_policy
check_policy-Judged s policy h =
    let k = classify-Noted no_class s in
    let l = is_short_iff (length s) policy.min_len h in
    record {
      accepted = ground (arith, k, l);
      short = ground (arith, k, l);
      no_upper = ground (arith, k, l);
      no_lower = ground (arith, k, l);
      no_digit = ground (arith, k, l);
      no_symbol = ground (arith, k, l);
    }
