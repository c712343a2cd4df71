-- ===== src/Userland/Walud/Trimmed.antt =====
-- What `trim` of userland/walud/walud.c leaves alone.
use walu_os.Prelude.{
  ℕ, ◌≡◌, refl, ap, sym, ◌∙◌, false, [], ◌∷◌, ◌++◌, append-nil, Bytes, drop_while, drop_while_all,
  AllOf, subst,
}
use mathlib.Core.List.{reverse, reverse-append, reverse-reverse}
use walu_os.Userland.Walud.Trim.{is_blank, trim, trim_end}

-- The first byte, if there is one, is no blank.
abbrev pub Plain : Bytes → Type 0
Plain [] = Unit
Plain (c ∷ s) = is_blank c ≡ false

-- A text without blanks at either end.
pub record IsTrimmed (s : Bytes) : Type 0 where
  pub front : Plain s
  pub back : Plain (reverse s)

Plain-append : (s t : Bytes) → Plain s → Plain t → Plain (s ++ t)
Plain-append [] t hs ht = ht
Plain-append (c ∷ s) t hs ht = hs

pub IsTrimmed-append : (s t : Bytes) → IsTrimmed s → IsTrimmed t → IsTrimmed (s ++ t)
IsTrimmed-append s t hs ht = record {
  front = Plain-append s t hs.front ht.front;
  back = rw (reverse-append s t) (Plain-append (reverse t) (reverse s) ht.back hs.back);
}

-- All but the last byte.
drop_plain_front : (s : Bytes) (c : ℕ) → Plain (s ++ c ∷ []) → drop_while is_blank s ≡ s
drop_plain_front [] c h = refl
drop_plain_front (x ∷ s) c h = rw h refl

drop_blanks :
    (b s : Bytes) → AllOf is_blank b → drop_while is_blank (b ++ s) ≡ drop_while is_blank s
drop_blanks [] s h = refl
drop_blanks (c ∷ b) s (hc, h) = rw hc (drop_blanks b s h)

AllOf-append : (s t : Bytes) → AllOf is_blank s → AllOf is_blank t → AllOf is_blank (s ++ t)
AllOf-append [] t hs ht = ht
AllOf-append (c ∷ s) t (hc, hs) ht = (hc, AllOf-append s t hs ht)

AllOf-reverse : (s : Bytes) → AllOf is_blank s → AllOf is_blank (reverse s)
AllOf-reverse [] h = tt
AllOf-reverse (c ∷ s) (hc, h) =
    subst (AllOf is_blank) (sym (reverse-append (c ∷ []) s))
      (AllOf-append (reverse s) (c ∷ []) (AllOf-reverse s h) (hc, tt))

trim_end-blanks :
    (c : ℕ) (s b : Bytes)
    → AllOf is_blank b
    → Plain (reverse (c ∷ s))
    → trim_end (c ∷ (s ++ b)) ≡ c ∷ s
trim_end-blanks c s b hb h =
    let last : Plain (reverse s ++ c ∷ []) = subst Plain (reverse-append (c ∷ []) s) h in
    let kept : drop_while is_blank (reverse (s ++ b)) ≡ reverse s =
      ap (drop_while is_blank) (reverse-append s b)
      ∙ drop_blanks (reverse b) (reverse s) (AllOf-reverse b hb)
      ∙ drop_plain_front (reverse s) c last in
    ap (λ r. c ∷ reverse r) kept ∙ ap (◌∷◌ c) (reverse-reverse s)

-- `trim` removes the blanks (spaces, tabs and ends of lines) before and behind a text that neither begins nor ends
-- with one, and nothing of the text.
pub trim-blanks :
    (a s b : Bytes) → AllOf is_blank a → IsTrimmed s → AllOf is_blank b → trim (a ++ (s ++ b)) ≡ s
unfolding trim
trim-blanks a [] b ha h hb = ap trim_end (drop_blanks a b ha ∙ drop_while_all is_blank b hb)
trim-blanks a (c ∷ s) b ha h hb =
    let start : drop_while is_blank (c ∷ (s ++ b)) ≡ c ∷ (s ++ b) = rw (h.front) refl in
    ap trim_end (drop_blanks a (c ∷ (s ++ b)) ha ∙ start) ∙ trim_end-blanks c s b hb h.back

-- A trimmed text stays.
pub trim-IsTrimmed : (s : Bytes) → IsTrimmed s → trim s ≡ s
trim-IsTrimmed s h = ap trim (sym (append-nil s)) ∙ trim-blanks [] s [] tt h tt
