-- ===== src/Tty/Lines.antt =====
-- What the line editor of kernel/src/core/tty.c makes of whole lines and of escape sequences.
use walu_os.Prelude.{
  ℕ, zero, suc, ◌+◌, ◌-◌, ◌≡◌, ◌≢◌, ◌<◌, ◌≤◌, ◌⊎◌, inl, inr, refl, ap, ap₂, subst, ◌∙◌, true, false,
  ltb, if◌then◌else◌, List, [], ◌∷◌, ◌++◌, append-nil, append_assoc, length, length-append,
  length-take, take, take_all, take-nil, lt→ltb, le→ltb_false, ltb→lt, ltb_false→le, arith, All,
  Bool-cases,
}
use mathlib.Core.List.{reverse, reverse-cons, reverse-reverse}
use walu_os.Tty.Defs.{Io, inject_bytes}
use walu_os.Tty.Sink.{Inv, waiting, capacity}
use walu_os.Tty.Canonical.{editor_of}
use walu_os.Tty.Refine.{Receives, inject_bytes-Receives}
use walu_os.Tty.Editor.{Editor, Step, keep, line_max, key, is_text, press_in, press, run, send_line}

-- A byte that canonical mode takes into the line: printable ASCII, a tab, or a byte of a longer UTF-8
-- sequence.
abbrev pub IsText : ℕ → Type 0
IsText b = ((0x20 ≤ b) × (b ≢ 0x7f)) ⊎ (b ≡ 0x09)

press-text :
    (line : List ℕ) (b : ℕ)
    → IsText b
    → press (keep line) b ≡ (
        if ltb (length line) line_max
        then record { editor = keep (b ∷ line); out = []; lost = 0; eaten = 0 }
        else (record { editor = keep line; out = []; lost = 1; eaten = 0 }))
unfolding press press_in key is_text
press-text line b t = ground arith

press-newline : (line : List ℕ) → press (keep line) b'\n' ≡ send_line line
unfolding press press_in key
press-newline line = refl

-- The line, with room for `room` more bytes, takes as many of the bytes of a text and loses the others.
pub run-text :
    (room : ℕ) (bs line : List ℕ)
    → All IsText bs
    → length line + room ≡ line_max
    → run (keep line) bs ≡ record {
      editor = keep (reverse (take room bs) ++ line);
      out = [];
      lost = length bs - room;
      eaten = 0;
    }
unfolding run
run-text room [] line t e =
    rw (take-nil)
      (ap (λ (k : ℕ). record { editor = keep line; out = []; lost = k; eaten = 0 }) (omega arith))
run-text zero (b ∷ bs) line t e =
    let full : ltb (length line) line_max ≡ false = le→ltb_false _ _ (omega arith) in
    rw (press-text line b t.0, full, run-text zero bs line t.1 e)
      (ap (λ (k : ℕ). record { editor = keep line; out = []; lost = k; eaten = 0 }) (omega arith))
run-text (suc room) (b ∷ bs) line t e =
    let more : ltb (length line) line_max ≡ true = lt→ltb _ _ (omega arith) in
    rw
      (
        press-text line b t.0,
        more,
        run-text room bs (b ∷ line) t.1 (omega arith),
        reverse-cons,
        append_assoc,
      )
      (ap
        (λ (k : ℕ). record {
          editor = keep (reverse (take room bs) ++ (b ∷ line));
          out = [];
          lost = k;
          eaten = 0;
        })
        (omega arith))

pub run-append :
    (e : Editor) (bs cs : List ℕ)
    → run e (bs ++ cs) ≡ (
        let s = run e bs in
        let t = run s.editor cs in
        record {
          editor = t.editor;
          out = s.out ++ t.out;
          lost = s.lost + t.lost;
          eaten = s.eaten + t.eaten;
        })
unfolding run
run-append e [] cs =
    ap₂
      (λ (k n : ℕ). record {
        editor = (run e cs).editor;
        out = (run e cs).out;
        lost = k;
        eaten = n;
      })
      (omega arith) (omega arith)
run-append e (b ∷ bs) cs =
    rw (run-append (press e b).editor bs cs, append_assoc)
      (ap₂
        (λ (k n : ℕ). record {
          editor = (run (run (press e b).editor bs).editor cs).editor;
          out =
              (press e b).out
              ++ ((run (press e b).editor bs).out
                  ++ (run (run (press e b).editor bs).editor cs).out);
          lost = k;
          eaten = n;
        })
        (omega arith) (omega arith))

pub length-reverse : (xs : List ℕ) → length (reverse xs) ≡ length xs
length-reverse [] = refl
length-reverse (x ∷ xs) =
    omega
      (arith, ap length (reverse-cons x xs), length-append (reverse xs) (x ∷ []), length-reverse xs)

run-newline :
    (line : List ℕ)
    → run (keep line) (b'\n' ∷ []) ≡ record {
      editor = keep [];
      out = if ltb (length line) line_max then reverse line ++ (b'\n' ∷ []) else reverse line;
      lost = if ltb (length line) line_max then 0 else 1;
      eaten = 0;
    }
unfolding run
run-newline line = elim (Bool-cases (ltb (length line) line_max)) [
  | inl more ↦ rw (press-newline line, more, append-nil, reverse-cons)
  | inr full ↦ rw (press-newline line, full, append-nil)
]

-- A line of text and its end, typed from an empty line.
run-line :
    (bs : List ℕ)
    → All IsText bs
    → run (keep []) (bs ++ (b'\n' ∷ [])) ≡ record {
      editor = keep [];
      out = if ltb (length bs) line_max then bs ++ (b'\n' ∷ []) else take line_max bs;
      lost = length bs + 1 - line_max;
      eaten = 0;
    }
run-line bs t =
    rw
      (
        run-append (keep []) bs (b'\n' ∷ []),
        run-text line_max bs [] t refl,
        append-nil,
        run-newline,
        reverse-reverse,
        length-reverse,
      )
      (elim (Bool-cases (ltb (length bs) line_max)) [
        | inl short ↦
            let h = ltb→lt _ _ short in
            let whole : take line_max bs ≡ bs = take_all line_max bs (omega arith) in
            rw (whole, short)
              (ap
                (λ (k : ℕ). record {
                  editor = keep [];
                  out = bs ++ (b'\n' ∷ []);
                  lost = k;
                  eaten = 0;
                })
                (omega arith))
        | inr long ↦
            let h = ltb_false→le _ _ long in
            let cut : ltb (length (take line_max bs)) line_max ≡ false =
              le→ltb_false _ _ (omega (arith, length-take line_max bs)) in
            rw (cut, long)
              (ap
                (λ (k : ℕ). record {
                  editor = keep [];
                  out = take line_max bs;
                  lost = k;
                  eaten = 0;
                })
                (omega arith))
      ])

line_received :
    {io : Io} (bs : List ℕ)
    → Inv io
    → io.tty.canonical ≡ true
    → editor_of io.tty ≡ keep []
    → All IsText bs
    → Receives io
        (run (keep []) (bs ++ (b'\n' ∷ [])))
        (bs ++ (b'\n' ∷ []))
        (inject_bytes io (bs ++ (b'\n' ∷ [])))
line_received {io} bs v on empty t =
    subst
      (λ e.
        Receives io (run e (bs ++ (b'\n' ∷ []))) (bs ++ (b'\n' ∷ []))
          (inject_bytes io (bs ++ (b'\n' ∷ []))))
      empty (inject_bytes-Receives (bs ++ (b'\n' ∷ [])) v on)

-- At a prompt (canonical mode, no escape sequence begun, an empty line), a line of text and its end
-- reach the reader as typed, behind what waits there, if the line has at most 510 bytes and the queue has
-- room for it; the line is empty again, and nothing is dropped.
pub short_line-waiting :
    {io : Io} (bs : List ℕ)
    → Inv io
    → io.tty.canonical ≡ true
    → editor_of io.tty ≡ keep []
    → All IsText bs
    → length bs < line_max
    → length (waiting io) + length bs < capacity
    → let out = inject_bytes io (bs ++ (b'\n' ∷ [])) in
      (waiting out ≡ waiting io ++ (bs ++ (b'\n' ∷ [])))
      × (editor_of out.tty ≡ keep [])
      × (out.tty.drop_count ≡ io.tty.drop_count)
      × (out.tty.line_overflow_count ≡ io.tty.line_overflow_count)
short_line-waiting {io} bs v on empty t short fits =
    let r = line_received bs v on empty t in
    let e : (run (keep []) (bs ++ (b'\n' ∷ []))).out ≡ bs ++ (b'\n' ∷ []) =
      rw (run-line bs t, lt→ltb _ _ short) in
    (
      r.reads
          ∙ rw e (
              take_all capacity _ (
                omega (
                  arith,
                  length-append (waiting io) (bs ++ (b'\n' ∷ [])),
                  length-append bs (b'\n' ∷ []),
                ))),
      r.edits ∙ ap (λ (s : Step). s.editor) (run-line bs t),
      omega (
        arith,
        r.drops,
        v.drop_fits,
        ap length e,
        length-append bs (b'\n' ∷ []),
        ap (λ (s : Step). s.lost) (run-line bs t),
      ),
      omega (arith, r.overflows, v.overflow_fits, ap (λ (s : Step). s.lost) (run-line bs t)),
    )
