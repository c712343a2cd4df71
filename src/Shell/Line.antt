-- ===== src/Shell/Line.antt =====
-- The line of kernel/src/core/shell.c: what is typed and what is executed.
use walu_os.Prelude.{
  ℕ, zero, suc, ◌+◌, ◌≤◌, ◌<◌, ◌≡◌, ◌≢◌, refl, ap, ◌∙◌, true, false, ==_ne, ltb, lt→ltb,
  le→ltb_false, if◌then◌else◌, [], ◌∷◌, ◌++◌, Bytes, All, length, take, set, set_self, set_other,
  arith, length-take, take-nil,
}
use walu_os.Tty.Lines.{IsText}
use walu_os.Shell.Defs.{Kernel, shell_prompt, shell_line_max, text_from, line_text}
use walu_os.Shell.Loop.{take_byte, take_bytes, store, finish_line, execute_command}

-- The array with bytes stored from index `i` on.
abbrev pub stored : (ℕ → ℕ) → ℕ → Bytes → ℕ → ℕ
stored line i [] = line
stored line i (c ∷ cs) = stored (set line i c) (i + 1) cs

pub stored_below : (line : ℕ → ℕ) (i : ℕ) (cs : Bytes) (j : ℕ) → j < i → stored line i cs j ≡ line j
stored_below line i [] j h = refl
stored_below line i (c ∷ cs) j h =
    stored_below (set line i c) (i + 1) cs j (omega (arith, h))
    ∙ set_other line i j c (λ e. absurd (omega (arith, h, e)))

-- What a byte of text does to the line.
unfoldable pub typed : Kernel → Bytes → Kernel
typed k cs = record k {
  shell_line = stored k.shell_line k.shell_len cs;
  shell_len = k.shell_len + length cs;
}

take_byte-text : (k : Kernel) (c : ℕ) → IsText c → take_byte k c ≡ store k c
unfolding take_byte
take_byte-text k c t = ground arith

abbrev kept : Kernel → ℕ → Kernel
kept k c = record k { shell_line = set k.shell_line k.shell_len c; shell_len = k.shell_len + 1 }

store_full : (k : Kernel) (c : ℕ) → 127 ≤ k.shell_len → store k c ≡ k
store_full k c h =
    let full : ltb (k.shell_len + 1) shell_line_max ≡ false = le→ltb_false _ _ (omega (arith, h)) in
    ap (λ b. if b then kept k c else k) full

store_more : (k : Kernel) (c : ℕ) → k.shell_len < 127 → store k c ≡ kept k c
store_more k c h =
    let more : ltb (k.shell_len + 1) shell_line_max ≡ true = lt→ltb _ _ (omega (arith, h)) in
    ap (λ b. if b then kept k c else k) more

-- As many bytes as there is room for are stored, and the others change nothing.
pub take_bytes-text :
    (room : ℕ) (k : Kernel) (cs : Bytes)
    → All IsText cs
    → k.shell_len + room ≡ 127
    → take_bytes k cs ≡ typed k (take room cs)
unfolding take_bytes typed
take_bytes-text room k [] t e =
    rw (take-nil) (ap (λ (l : ℕ). record k { shell_len = l }) (omega arith))
take_bytes-text zero k (c ∷ cs) (tc, t) e =
    ap (λ x. take_bytes x cs) (take_byte-text k c tc ∙ store_full k c (omega (arith, e)))
    ∙ take_bytes-text zero k cs t e
take_bytes-text (suc room) k (c ∷ cs) (tc, t) e =
    let line = set k.shell_line k.shell_len c in
    ap (λ x. take_bytes x cs) (take_byte-text k c tc ∙ store_more k c (omega (arith, e)))
    ∙ take_bytes-text room (record k { shell_line = line; shell_len = k.shell_len + 1 }) cs t
        (omega (arith, e))
    ∙ ap
        (λ (l : ℕ). record k {
          shell_line = stored line (k.shell_len + 1) (take room cs);
          shell_len = l;
        })
        (omega arith)

pub IsText-ne : (c : ℕ) → IsText c → c ≢ 0
IsText-ne c t = ground arith

pub text_from_end : (n i : ℕ) (line : ℕ → ℕ) → line i ≡ 0 → text_from (suc n) i line ≡ []
unfolding text_from
text_from_end n i line e = rw (e, text_from) refl

pub text_from_more :
    (n i : ℕ) (line : ℕ → ℕ) {c : ℕ}
    → line i ≡ c
    → c ≢ 0
    → text_from (suc n) i line ≡ c ∷ text_from n (i + 1) line
unfolding text_from
text_from_more n i line e ne = rw (e, text_from) (rw (==_ne _ 0 ne) refl)

-- The text that is read back from the array.
text_from-stored :
    (n i : ℕ) (line : ℕ → ℕ) (cs : Bytes)
    → All IsText cs
    → length cs < n
    → text_from n i (set (stored line i cs) (i + length cs) 0) ≡ cs
unfolding text_from
text_from-stored zero i line cs t h = absurd (omega (arith, h))
text_from-stored (suc n) i line [] t h =
    let last : set line (i + 0) 0 i ≡ 0 = ground arith in
    text_from_end n i (set line (i + 0) 0) last
text_from-stored (suc n) i line (c ∷ cs) (tc, t) h =
    let from = stored (set line i c) (i + 1) cs in
    let place : i + suc (length cs) ≡ (i + 1) + length cs = omega arith in
    let cell : set from (i + suc (length cs)) 0 i ≡ c =
      set_other from (i + suc (length cs)) i 0 (λ e. absurd (omega (arith, e)))
      ∙ stored_below (set line i c) (i + 1) cs i (omega arith)
      ∙ set_self line i c in
    text_from_more n i (set from (i + suc (length cs)) 0) cell (IsText-ne c tc)
    ∙ ap (λ j. c ∷ text_from n (i + 1) (set from j 0)) place
    ∙ ap (◌∷◌ c) (text_from-stored n (i + 1) (set line i c) cs t (omega (arith, h)))

pub take_bytes-append :
    (k : Kernel) (as' cs : Bytes) → take_bytes k (as' ++ cs) ≡ take_bytes (take_bytes k as') cs
unfolding take_bytes
take_bytes-append k [] cs = refl
take_bytes-append k (a ∷ as') cs = take_bytes-append (take_byte k a) as' cs

take_newline : (k : Kernel) → take_bytes k (b'\n' ∷ []) ≡ finish_line k
unfolding take_bytes take_byte
take_newline k = refl

-- The shell once a line has been ended: the text with a null byte stands in its buffer.
abbrev pub entered : Kernel → Bytes → Kernel
entered k text = record k {
  shell_line = set (stored k.shell_line 0 text) (length text) 0;
  shell_len = length text;
}

take-IsText : (n : ℕ) (cs : Bytes) → All IsText cs → All IsText (take n cs)
take-IsText zero cs t = tt
take-IsText (suc n) [] t = tt
take-IsText (suc n) (c ∷ cs) (tc, t) = (tc, take-IsText n cs t)

-- The shell with a text typed at an empty line.
abbrev pub holding : Kernel → Bytes → Kernel
holding k text = record k { shell_line = stored k.shell_line 0 text; shell_len = length text }

pub take_bytes-holding :
    (k : Kernel) (cs : Bytes)
    → k.shell_len ≡ 0
    → All IsText cs
    → take_bytes k cs ≡ holding k (take 127 cs)
unfolding typed
take_bytes-holding k cs e t =
    let text = take 127 cs in
    let length_zero : 0 + length text ≡ length text = omega arith in
    take_bytes-text 127 k cs t (omega (arith, e))
    ∙ ap
        (λ (l : ℕ). record k {
          shell_line = stored k.shell_line l text;
          shell_len = l + length text;
        })
        e
    ∙ ap (λ (l : ℕ). record k { shell_line = stored k.shell_line 0 text; shell_len = l })
        length_zero

-- At an empty line, the bytes of a text and the end of the line have the shell execute just that text, cut to its
-- first 127 bytes, print its prompt and begin an empty line.
pub take_bytes-line :
    (k : Kernel) (cs : Bytes)
    → k.shell_len ≡ 0
    → All IsText cs
    → let text = take 127 cs in
      take_bytes k (cs ++ b'\n' ∷ [])
      ≡ shell_prompt (record (execute_command (entered k text) text) { shell_len = 0 })
take_bytes-line k cs e t =
    let text = take 127 cs in
    let few : length text < 128 = omega (arith, length-take 127 cs) in
    let length_zero : length text ≡ 0 + length text = omega arith in
    let back : line_text (entered k text) ≡ text =
      ap (λ (j : ℕ). text_from 128 0 (set (stored k.shell_line 0 text) j 0)) length_zero
      ∙ text_from-stored 128 0 k.shell_line text (take-IsText 127 cs t) few in
    take_bytes-append k cs (b'\n' ∷ [])
    ∙ ap (λ x. take_bytes x (b'\n' ∷ [])) (take_bytes-holding k cs e t)
    ∙ take_newline (holding k text)
    ∙ ap (λ l. shell_prompt (record (execute_command (entered k text) l) { shell_len = 0 })) back
