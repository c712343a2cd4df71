-- ===== src/Prelude/Text.antt =====
-- Texts as lists of bytes, the bytes before the terminator, and what the C library does with them
-- (strcmp, strcspn, snprintf).
use Prim.Native.Nat.{ℕ, ◌-◌}
use Prim.Native.Char.{code}
use Prim.Native.String.{String}
use mathlib.Core.Path.{◌≡◌, refl, ap}
use mathlib.Core.Logic.{◌↔◌}
use mathlib.Core.Bool.{Bool, true, false, not, ◌&&◌, ◌||◌}
use mathlib.Core.List.{List, [], ◌∷◌, ◌++◌}
use native.Mathlib.Omega.{arith}
use walu_os.Prelude.Tests.{◌==◌, if◌then◌else◌}
use walu_os.Prelude.Lists.{take, All}

abbrev pub Bytes : Type 0
Bytes = List ℕ

-- The bytes of a literal in the source.
abbrev pub codes : String → Bytes
codes String.[] = []
codes (String.◌∷◌ c s) = code c ∷ codes s

-- `strcmp(s, t) == 0`
abbrev pub same : Bytes → Bytes → Bool
same [] [] = true
same [] (b ∷ t) = false
same (a ∷ s) [] = false
same (a ∷ s) (b ∷ t) = (a == b) && same s t

pub same_iff : (s t : Bytes) → (same s t ≡ true) ↔ (s ≡ t)
same_iff [] [] = ground arith
same_iff [] (b ∷ t) = ground arith
same_iff (a ∷ s) [] = ground arith
same_iff (a ∷ s) (b ∷ t) = ground (arith, same_iff s t)

pub same_refl : (s : Bytes) → same s s ≡ true
same_refl s = (same_iff s s).1 refl

abbrev pub take_while : (ℕ → Bool) → Bytes → Bytes
take_while p [] = []
take_while p (c ∷ cs) = if p c then c ∷ take_while p cs else []

abbrev pub drop_while : (ℕ → Bool) → Bytes → Bytes
drop_while p [] = []
drop_while p (c ∷ cs) = if p c then drop_while p cs else c ∷ cs

module _ (p : ℕ → Bool) where
  abbrev pub AllOf : Bytes → Type 0
  AllOf s = All (λ c. p c ≡ true) s

  abbrev pub NoneOf : Bytes → Type 0
  NoneOf s = All (λ c. p c ≡ false) s

  -- A test for it.
  abbrev pub is_clear : Bytes → Bool
  is_clear [] = true
  is_clear (c ∷ s) = if p c then false else is_clear s

  pub is_clear-NoneOf : (s : Bytes) → is_clear s ≡ true → NoneOf s
  is_clear-NoneOf [] e = tt
  is_clear-NoneOf (c ∷ s) e = ground (arith, is_clear-NoneOf s)

  pub take_while-append :
      (w : Bytes) (c : ℕ) (r : Bytes) → AllOf w → p c ≡ false → take_while p (w ++ c ∷ r) ≡ w
  take_while-append [] c r h e = rw e
  take_while-append (x ∷ w) c r (hx, h) e = rw hx (ap (◌∷◌ x) (take_while-append w c r h e))

  pub drop_while-append :
      (w : Bytes) (c : ℕ) (r : Bytes) → AllOf w → p c ≡ false → drop_while p (w ++ c ∷ r) ≡ c ∷ r
  drop_while-append [] c r h e = rw e
  drop_while-append (x ∷ w) c r (hx, h) e = rw hx (drop_while-append w c r h e)

  pub take_while_all : (w : Bytes) → AllOf w → take_while p w ≡ w
  take_while_all [] h = refl
  take_while_all (x ∷ w) (hx, h) = rw hx (ap (◌∷◌ x) (take_while_all w h))

  pub drop_while_all : (w : Bytes) → AllOf w → drop_while p w ≡ []
  drop_while_all [] h = refl
  drop_while_all (x ∷ w) (hx, h) = rw hx (drop_while_all w h)

  pub take_while-AllOf : (s : Bytes) → AllOf (take_while p s)
  take_while-AllOf [] = tt
  take_while-AllOf (c ∷ s) = ground (arith, take_while-AllOf s)

  pub take_while-drop_while : (s : Bytes) → take_while p s ++ drop_while p s ≡ s
  take_while-drop_while [] = refl
  take_while-drop_while (c ∷ s) = ground (arith, take_while-drop_while s)

-- `snprintf(buf, n, "%s", s)`, and what a buffer of `n` bytes keeps
abbrev pub clip : ℕ → Bytes → Bytes
clip n s = take (n - 1) s

abbrev pub is_end : ℕ → Bool
is_end c = c == b'\r' || c == b'\n'

-- `s[strcspn(s, "\r\n")] = '\0'`
abbrev pub chomp : Bytes → Bytes
chomp s = take_while (λ c. not (is_end c)) s

-- The text of a buffer ends at its first null byte.
abbrev pub terminated : Bytes → Bytes
terminated s = take_while (λ c. not (c == 0)) s

pub NoneOf-AllOf : (p : ℕ → Bool) (w : Bytes) → NoneOf p w → AllOf (λ c. not (p c)) w
NoneOf-AllOf p [] h = tt
NoneOf-AllOf p (c ∷ w) (hc, h) = (rw hc refl, NoneOf-AllOf p w h)

-- What stands before the first byte that passes a test.
pub until-append :
    (p : ℕ → Bool) (w : Bytes) (c : ℕ) (r : Bytes)
    → NoneOf p w
    → p c ≡ true
    → take_while (λ x. not (p x)) (w ++ c ∷ r) ≡ w
until-append p w c r h e = take_while-append (λ x. not (p x)) w c r (NoneOf-AllOf p w h) (rw e refl)

pub from-append :
    (p : ℕ → Bool) (w : Bytes) (c : ℕ) (r : Bytes)
    → NoneOf p w
    → p c ≡ true
    → drop_while (λ x. not (p x)) (w ++ c ∷ r) ≡ c ∷ r
from-append p w c r h e = drop_while-append (λ x. not (p x)) w c r (NoneOf-AllOf p w h) (rw e refl)

pub until_all : (p : ℕ → Bool) (w : Bytes) → NoneOf p w → take_while (λ x. not (p x)) w ≡ w
until_all p w h = take_while_all (λ x. not (p x)) w (NoneOf-AllOf p w h)

pub from_all : (p : ℕ → Bool) (w : Bytes) → NoneOf p w → drop_while (λ x. not (p x)) w ≡ []
from_all p w h = drop_while_all (λ x. not (p x)) w (NoneOf-AllOf p w h)

pub NoneOf-append : (p : ℕ → Bool) (s t : Bytes) → NoneOf p s → NoneOf p t → NoneOf p (s ++ t)
NoneOf-append p [] t hs ht = ht
NoneOf-append p (c ∷ s) t (hc, hs) ht = (hc, NoneOf-append p s t hs ht)
