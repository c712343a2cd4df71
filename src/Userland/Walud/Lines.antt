-- ===== src/Userland/Walud/Lines.antt =====
-- One line of a unit file, read by `parse_unit_file` of userland/walud/walud.c.
use walu_os.Prelude.{
  ℕ, ◌≤◌, ◌≡◌, refl, ap, ap₂, subst, ◌∙◌, ==_refl, Bool, true, false, not, ◌&&◌, ◌||◌, ◌==◌, some,
  [], ◌∷◌, ◌++◌, append_assoc, Bytes, NoneOf, NoneOf-append, length, is_break, terminated,
  terminated_line, until-append, from-append, arith,
}
use walu_os.Userland.Walud.Trim.{trim, strchr, split_at}
use walu_os.Userland.Walud.Trimmed.{IsTrimmed, IsTrimmed-append, trim-blanks, trim-IsTrimmed}
use walu_os.Userland.Walud.Unit.{Parser, assign, set_from, setting, trimmed_line, parse_line}

-- A text that a line can carry: no blanks at its ends, no end of a line and no null byte in it.
pub record IsValue (n : ℕ) (s : Bytes) : Type 0 where
  pub trimmed : IsTrimmed s
  pub unbroken : NoneOf is_break s
  pub fits : length s ≤ n

abbrev pub is_equals : ℕ → Bool
is_equals c = c == b'='

abbrev pub begins_setting : Bytes → Bool
begins_setting [] = false
begins_setting (c ∷ s) = not (c == b'#' || c == b';') && not (c == b'[')

-- What stands before the first `=`.
pub record IsKey (key : Bytes) : Type 0 where
  pub begins : begins_setting key ≡ true
  pub named : IsValue 20 key
  pub simple : NoneOf is_equals key
  pub front : IsTrimmed (key ++ b'=' ∷ [])

abbrev pub equation : Bytes → Bytes → Bytes
equation key value = key ++ b'=' ∷ value

equation-IsTrimmed :
    (key value : Bytes) → IsKey key → IsTrimmed value → IsTrimmed (equation key value)
equation-IsTrimmed key value k v =
    subst IsTrimmed (append_assoc key (b'=' ∷ []) value)
      (IsTrimmed-append (key ++ b'=' ∷ []) value k.front v)

pub equation-unbroken :
    (key value : Bytes) → IsKey key → NoneOf is_break value → NoneOf is_break (equation key value)
equation-unbroken key value k v =
    NoneOf-append is_break key (b'=' ∷ value) k.named.unbroken (refl, v)

abbrev pub set_to : Parser → Bytes → Bytes → Parser
set_to s key value = record s { unit = assign s.section s.unit key value }

strchr-append :
    (key value : Bytes) (c : ℕ)
    → NoneOf (λ x. x == c) key
    → strchr (key ++ c ∷ value) c ≡ some (key, value)
strchr-append key value c h =
    ap₂ split_at (from-append (λ x. x == c) key c value h (==_refl c))
      (until-append (λ x. x == c) key c value h (==_refl c))

setting-equation :
    (s : Parser) (key value : Bytes)
    → IsKey key
    → IsTrimmed value
    → setting s (equation key value) ≡ some (set_to s key value)
setting-equation s key value k v =
    ap (set_from s) (strchr-append key value b'=' k.simple)
    ∙ ap₂ (λ x y. some (record s { unit = assign s.section s.unit x y }))
        (trim-IsTrimmed key k.named.trimmed) (trim-IsTrimmed value v)

trimmed_line-setting :
    (s : Parser) (line : Bytes) → begins_setting line ≡ true → trimmed_line s line ≡ setting s line
trimmed_line-setting s [] h = absurd (ground (arith, h))
trimmed_line-setting s (c ∷ p) h = ground arith

begins-append : (key value : Bytes) → IsKey key → begins_setting (equation key value) ≡ true
begins-append [] value k = absurd (ground (arith, k.begins))
begins-append (c ∷ key) value k = k.begins

pub parse_line-equation :
    (s : Parser) (key value : Bytes)
    → IsKey key
    → IsTrimmed value
    → NoneOf is_break value
    → parse_line s (equation key value ++ b'\n' ∷ []) ≡ some (set_to s key value)
unfolding parse_line
parse_line-equation s key value k v u =
    let line = equation key value in
    let whole : trim (terminated (line ++ b'\n' ∷ [])) ≡ line =
      ap trim (terminated_line line (equation-unbroken key value k u))
      ∙ trim-blanks [] line (b'\n' ∷ []) tt (equation-IsTrimmed key value k v) (refl, tt) in
    ap (trimmed_line s) whole
    ∙ trimmed_line-setting s line (begins-append key value k)
    ∙ setting-equation s key value k v
