-- ===== src/Shell/Redraw.antt =====
-- The form feed (Ctrl+L) of kernel/src/core/shell.c prints `shell_line` without ending the text in it.
use walu_os.Prelude.{
  ℕ, zero, suc, ◌+◌, ◌≤◌, ◌<◌, ◌≡◌, ◌≢◌, refl, ap, sym, ◌∙◌, inl, inr, ◌==◌, ==_iff, lt→ltb,
  if◌then◌else◌, [], ◌∷◌, ◌++◌, Bytes, codes, All, length, drop, take_all, set, set_self, set_other,
  Bool-cases, arith,
}
use walu_os.Tty.{write, clear}
use walu_os.Tty.Lines.{IsText}
use walu_os.Shell.Defs.{Kernel, say, shell_prompt, text_from, line_text}
use walu_os.Shell.Loop.{take_byte, take_bytes, redraw}
use walu_os.Shell.Line.{
  stored, stored_below, holding, take_bytes-holding, take_bytes-append, text_from_end,
  text_from_more, IsText-ne,
}

-- A text of no bytes is not as long as one of some.
too_few : (c : ℕ) (cs : Bytes) {old : Bytes} → [] ≡ old → length (c ∷ cs) ≤ length old → ⊥
too_few c cs e h = omega (arith, h, ap length e)

text_from_none : (i : ℕ) (line : ℕ → ℕ) → [] ≡ text_from 0 i line
unfolding text_from
text_from_none i line = refl

text_from-set :
    (n i j : ℕ) (line : ℕ → ℕ) (c : ℕ) → i < j → text_from n j (set line i c) ≡ text_from n j line
unfolding text_from
text_from-set zero i j line c h = refl
text_from-set (suc n) i j line c h =
    let cell : set line i c j ≡ line j = set_other line i j c (λ e. absurd (omega (arith, h, e))) in
    ap (λ x. if x == 0 then [] else x ∷ text_from n (j + 1) (set line i c)) cell
    ∙ ap (λ r. if line j == 0 then [] else line j ∷ r)
        (text_from-set n i (j + 1) line c (omega (arith, h)))

text_from_next :
    (n i : ℕ) (line : ℕ → ℕ)
    → line i ≢ 0
    → text_from (suc n) i line ≡ line i ∷ text_from n (i + 1) line
text_from_next n i line ne = text_from_more n i line refl ne

-- Bytes stored at the front of a text leave its rest.
text_from-over :
    (n i : ℕ) (line : ℕ → ℕ) (cs old : Bytes)
    → All IsText cs
    → text_from n i line ≡ old
    → length cs ≤ length old
    → text_from n i (stored line i cs) ≡ cs ++ drop (length cs) old
text_from-over n i line [] old t e h = e
text_from-over zero i line (c ∷ cs) old t e h = absurd (too_few c cs (text_from_none i line ∙ e) h)
text_from-over (suc n) i line (c ∷ cs) old (tc, t) e h = elim (Bool-cases (line i == 0)) [
  | inl z ↦ absurd (too_few c cs (sym (text_from_end n i line ((==_iff (line i) 0).0 z)) ∙ e) h)
  | inr nz ↦
      let ne : line i ≢ 0 = λ z. absurd (ground (arith, nz, z)) in
      let front : old ≡ line i ∷ text_from n (i + 1) line = sym e ∙ text_from_next n i line ne in
      let from = stored (set line i c) (i + 1) cs in
      let cell : from i ≡ c =
        stored_below (set line i c) (i + 1) cs i (omega arith) ∙ set_self line i c in
      let rest = text_from n (i + 1) line in
      let fits : length cs ≤ length rest = omega (arith, h, ap length front) in
      text_from_more n i from cell (IsText-ne c tc)
      ∙ ap (◌∷◌ c) (
          text_from-over n (i + 1) (set line i c) cs rest t
            (text_from-set n i (i + 1) line c (omega arith)) fits)
      ∙ ap (λ o. c ∷ (cs ++ drop (suc (length cs)) o)) (sym front)
]

take_form_feed : (k : Kernel) → take_bytes k (0x0c ∷ []) ≡ redraw k
unfolding take_bytes take_byte
take_form_feed k = refl

redraw_console :
    (k : Kernel)
    → 0 < k.shell_len
    → (redraw k).io.console
      ≡ write (line_text k) ∷ write (codes "\u{1b}[1;32mwalu\u{1b}[0m> ") ∷ clear ∷ k.io.console
unfolding shell_prompt
redraw_console k h =
    let prompted = shell_prompt (say k clear) in
    ap (λ b. (if b then say prompted (write (line_text k)) else prompted).io.console)
      (lt→ltb 0 k.shell_len h)

pub redraw_ptys : (k : Kernel) → 0 < k.shell_len → (redraw k).io.ptys ≡ k.io.ptys
unfolding shell_prompt
redraw_ptys k h =
    let prompted = shell_prompt (say k clear) in
    ap (λ b. (if b then say prompted (write (line_text k)) else prompted).io.ptys)
      (lt→ltb 0 k.shell_len h)

-- A text and a form feed, as the shell takes them.
pub take_bytes-redraw :
    (k : Kernel) (cs : Bytes)
    → k.shell_len ≡ 0
    → All IsText cs
    → length cs ≤ 127
    → take_bytes k (cs ++ 0x0c ∷ []) ≡ redraw (holding k cs)
take_bytes-redraw k cs e t room =
    let held : take_bytes k cs ≡ holding k cs =
      take_bytes-holding k cs e t ∙ ap (holding k) (take_all 127 cs room) in
    take_bytes-append k cs (0x0c ∷ [])
    ∙ ap (λ x. take_bytes x (0x0c ∷ [])) held
    ∙ take_form_feed (holding k cs)

-- At an empty line, with an older text in the buffer, the shell that takes a shorter text and a form feed prints the
-- text and behind it the rest of the older one.
pub redraw_stale :
    (k : Kernel) (cs old : Bytes)
    → k.shell_len ≡ 0
    → line_text k ≡ old
    → All IsText cs
    → 0 < length cs
    → length cs ≤ length old
    → length cs ≤ 127
    → (take_bytes k (cs ++ 0x0c ∷ [])).io.console
      ≡ write (cs ++ drop (length cs) old)
        ∷ write (codes "\u{1b}[1;32mwalu\u{1b}[0m> ")
        ∷ clear
        ∷ k.io.console
unfolding shell_prompt
redraw_stale k cs old e stale t some_typed fits room =
    let shown : line_text (holding k cs) ≡ cs ++ drop (length cs) old =
      text_from-over 128 0 k.shell_line cs old t stale fits in
    ap (λ x. x.io.console) (take_bytes-redraw k cs e t room)
    ∙ redraw_console (holding k cs) some_typed
    ∙ ap (λ l. write l ∷ write (codes "\u{1b}[1;32mwalu\u{1b}[0m> ") ∷ clear ∷ k.io.console) shown
