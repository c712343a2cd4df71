-- ===== src/Tty/Editor.antt =====
-- What canonical mode of kernel/src/core/tty.c promises, on lists alone: a line being typed, a filter
-- that swallows escape sequences, and the bytes that each key sends to the reader.
use walu_os.Prelude.{
  ℕ, ◌+◌, Bool, not, ◌&&◌, ◌||◌, ◌==◌, if◌then◌else◌, ltb, leb, List, [], ◌∷◌, ◌++◌, length,
}
use mathlib.Core.List.{reverse}

pub data Escape : Type 0 where
  resting started control : Escape

pub record Editor : Type 0 where
  pub line : List ℕ  -- the latest byte first
  pub escape : Escape

-- What a key sends to the reader, how many bytes the full line buffer refused, and how many were part
-- of an escape sequence.
pub record Step : Type 0 where
  pub editor : Editor
  pub out : List ℕ
  pub lost : ℕ
  pub eaten : ℕ

-- The longest line, its end included.
abbrev pub line_max : ℕ
line_max = 511

abbrev pub keep : List ℕ → Editor
keep line = record { line = line; escape = resting }

abbrev pub without_last : List ℕ → List ℕ
without_last [] = []
without_last (x ∷ xs) = xs

-- A line that is full has no room for its end either.
abbrev pub send_line : List ℕ → Step
send_line line =
    if ltb (length line) line_max
    then (record { editor = keep []; out = reverse (b'\n' ∷ line); lost = 0; eaten = 0 })
    else (record { editor = keep []; out = reverse line; lost = 1; eaten = 0 })

abbrev pub send_pending : List ℕ → List ℕ
send_pending [] = 0x04 ∷ []
send_pending (x ∷ xs) = reverse (x ∷ xs)

unfoldable pub is_text : ℕ → Bool
is_text b = leb 0x20 b || b == 0x09

unfoldable pub key : List ℕ → ℕ → Step
key line b =
    if b == 0x03
    then (record { editor = keep []; out = b ∷ []; lost = 0; eaten = 0 })
    else (if b == 0x0c
        then (record { editor = keep line; out = b ∷ []; lost = 0; eaten = 0 })
        else (if b == 0x08 || b == 0x7f
            then (record { editor = keep (without_last line); out = []; lost = 0; eaten = 0 })
            else (if b == b'\n'
                then send_line line
                else (if b == 0x04
                    then (record { editor = keep []; out = send_pending line; lost = 0; eaten = 0 })
                    else (if not (is_text b)
                        then (record { editor = keep line; out = []; lost = 0; eaten = 0 })
                        else (if ltb (length line) line_max
                            then (record {
                              editor = keep (b ∷ line);
                              out = [];
                              lost = 0;
                              eaten = 0;
                            })
                            else (record {
                              editor = keep line;
                              out = [];
                              lost = 1;
                              eaten = 0;
                            })))))))

abbrev pub silent : List ℕ → Escape → Step
silent line e = record {
  editor = record { line = line; escape = e };
  out = [];
  lost = 0;
  eaten = 1;
}

unfoldable pub press_in : Escape → List ℕ → ℕ → Step
press_in resting line b = if b == 0x1b then silent line started else key line b
press_in started line b = silent line (if b == b'[' || b == b'O' then control else resting)
press_in control line b = silent line (if leb b'@' b && leb b b'~' then resting else control)

unfoldable pub press : Editor → ℕ → Step
press e b = press_in e.escape e.line b

unfoldable pub run : Editor → List ℕ → Step
run e [] = record { editor = e; out = []; lost = 0; eaten = 0 }
run e (b ∷ bs) =
    let s = press e b in
    let rest = run s.editor bs in
    record {
      editor = rest.editor;
      out = s.out ++ rest.out;
      lost = s.lost + rest.lost;
      eaten = s.eaten + rest.eaten;
    }
