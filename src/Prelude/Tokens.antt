-- ===== src/Prelude/Tokens.antt =====
-- `strtok_r`: a line in tokens.
use Prim.Native.Nat.{ℕ}
use mathlib.Core.Path.{◌≡◌, refl, ap, ap₂, subst, sym, ◌∙◌}
use mathlib.Core.Logic.{◌≢◌, inl, inr}
use mathlib.Core.Bool.{Bool, true, false, not}
use mathlib.Core.Option.{Option, none, some}
use mathlib.Core.List.{[], ◌∷◌, ◌++◌}
use native.Mathlib.Omega.{arith}
use walu_os.Prelude.Tests.{Bool-cases}
use walu_os.Prelude.Text.{Bytes, take_while, drop_while, NoneOf, until-append, from-append}

-- The rest of a text behind its first byte.
abbrev pub tail : Bytes → Bytes
tail [] = []
tail (c ∷ s) = s

abbrev pub token_at : (ℕ → Bool) → Bytes → Option (Bytes × Bytes)
token_at d [] = none
token_at d (c ∷ s) = some (c ∷ take_while (λ x. not (d x)) s, tail (drop_while (λ x. not (d x)) s))

-- `strtok_r`: leading delimiters are passed over; the token ends before the next one, which is
-- overwritten.
unfoldable pub strtok : (ℕ → Bool) → Bytes → Option (Bytes × Bytes)
strtok d s = token_at d (drop_while d s)

-- A word ended by a delimiter is a token.
pub strtok-append :
    (d : ℕ → Bool) (w : Bytes) (c : ℕ) (r : Bytes)
    → w ≢ []
    → NoneOf d w
    → d c ≡ true
    → strtok d (w ++ c ∷ r) ≡ some (w, r)
unfolding strtok
strtok-append d [] c r more h e = absurd (more refl)
strtok-append d (x ∷ w) c r more (hx, h) e =
    let start : drop_while d (x ∷ w ++ c ∷ r) ≡ x ∷ w ++ c ∷ r = rw hx refl in
    ap (token_at d) start
    ∙ ap₂ (λ t rest. some (x ∷ t, tail rest)) (until-append d w c r h e) (from-append d w c r h e)

token_at-more : (d : ℕ → Bool) (s : Bytes) {t r : Bytes} → token_at d s ≡ some (t, r) → t ≢ []
token_at-more d [] e z = absurd cc
token_at-more d (c ∷ s) e z = absurd cc

-- A token is not empty.
pub strtok-more : (d : ℕ → Bool) (s : Bytes) {t r : Bytes} → strtok d s ≡ some (t, r) → t ≢ []
unfolding strtok
strtok-more d s = token_at-more d (drop_while d s)

-- The start of a token.
pub strtok_plain :
    (d : ℕ → Bool) (c : ℕ) (s : Bytes) → d c ≡ false → strtok d (c ∷ s) ≡ token_at d (c ∷ s)
unfolding strtok
strtok_plain d c s e = rw e refl

until-NoneOf : (d : ℕ → Bool) (s : Bytes) → NoneOf d (take_while (λ x. not (d x)) s)
until-NoneOf d [] = tt
until-NoneOf d (c ∷ s) = ground (arith, until-NoneOf d s)

token_at-NoneOf :
    (d : ℕ → Bool) (s : Bytes) {t r : Bytes}
    → token_at d (drop_while d s) ≡ some (t, r)
    → NoneOf d t
token_at-NoneOf d [] e = absurd cc
token_at-NoneOf d (c ∷ s) {t} {r} e = elim (Bool-cases (d c)) [
  | inl y ↦
      let passed : drop_while d (c ∷ s) ≡ drop_while d s = rw y refl in
      token_at-NoneOf d s (ap (token_at d) (sym passed) ∙ e)
  | inr n ↦
      let start : drop_while d (c ∷ s) ≡ c ∷ s = rw n refl in
      let both : ◌≡◌ {A = Option (Bytes × Bytes)}
          (some (c ∷ take_while (λ x. not (d x)) s, tail (drop_while (λ x. not (d x)) s)))
          (some (t, r)) =
        ap (token_at d) (sym start) ∙ e in
      let token : c ∷ take_while (λ x. not (d x)) s ≡ t = cc in
      subst (NoneOf d) token (n, until-NoneOf d s)
]

-- A token has no delimiter in it.
pub strtok-NoneOf : (d : ℕ → Bool) (s : Bytes) {t r : Bytes} → strtok d s ≡ some (t, r) → NoneOf d t
unfolding strtok
strtok-NoneOf d s = token_at-NoneOf d s
