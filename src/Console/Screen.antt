-- ===== src/Console/Screen.antt =====
-- The state of kernel/src/core/console.c and its operations on the screen. The two backends keep the
-- same grid of cells: VGA memory holds it, and the framebuffer is drawn from it.
use walu_os.Prelude.{
  ℕ, zero, suc, ◌+◌, ◌-◌, ◌*◌, Bool, false, ◌&&◌, ◌||◌, ◌==◌, if◌then◌else◌, ltb, leb, set, u8,
  bit_and, bit_or,
}

-- `ANSI_GROUND`, `ANSI_ESC` and `ANSI_CSI`
pub data AnsiState : Type 0 where
  ansi_ground ansi_esc ansi_csi : AnsiState

pub record Cell : Type 0 where
  pub char : ℕ
  pub color : ℕ

pub record Console : Type 0 where
  pub cells : ℕ → ℕ → Cell  -- by row and column
  pub term_cols : ℕ
  pub term_rows : ℕ
  pub cursor_row : ℕ
  pub cursor_col : ℕ
  pub saved_cursor_row : ℕ
  pub saved_cursor_col : ℕ
  pub ansi_fg : ℕ
  pub ansi_bg : ℕ
  pub ansi_parser_state : AnsiState
  pub ansi_params : ℕ → ℕ
  pub ansi_param_count : ℕ
  pub ansi_param_current : ℕ
  pub ansi_param_active : Bool
  pub utf8_codepoint : ℕ
  pub utf8_needed : ℕ
  pub utf8_total : ℕ

abbrev pub current_color : Console → ℕ
current_color c = u8 (bit_or (c.ansi_bg * 16) (bit_and c.ansi_fg 0x0f))

unfoldable pub put_cell : Console → ℕ → ℕ → ℕ → ℕ → Console
put_cell c row col char color =
    if leb c.term_rows row || leb c.term_cols col then c else (record c {
      cells = set c.cells row (set (c.cells row) col (record { char = char; color = color }));
    })

abbrev pub blank : ℕ → Cell
blank color = record { char = 0x20; color = color }

unfoldable pub clear_all : Console → ℕ → Console
clear_all c color = record c {
  cells = λ y x. if ltb y c.term_rows && ltb x c.term_cols then blank color else c.cells y x;
}

-- Each row takes the next one's cells, and the last row is blank.
unfoldable pub scroll_up : Console → ℕ → Console
scroll_up c color = record c {
  cells = λ y x.
      if ltb x c.term_cols && ltb y c.term_rows
      then (if y + 1 == c.term_rows then blank color else c.cells (y + 1) x)
      else c.cells y x;
}

unfoldable pub scroll_if_needed : Console → Console
scroll_if_needed c =
    if ltb c.cursor_row c.term_rows
    then c
    else (record (scroll_up c (current_color c)) { cursor_row = c.term_rows - 1 })

-- The loop of `clear_line_range`, with the number of rounds left first.
unfoldable pub clear_from : ℕ → Console → ℕ → ℕ → Console
clear_from zero c row x = c
clear_from (suc n) c row x = clear_from n (put_cell c row x 0x20 (current_color c)) row (x + 1)

unfoldable pub clear_line_range : Console → ℕ → ℕ → ℕ → Console
clear_line_range c row col_start col_end =
    let from = if leb c.term_cols col_start then c.term_cols - 1 else col_start in
    let to = if leb c.term_cols col_end then c.term_cols - 1 else col_end in
    if leb c.term_rows row
    then c
    else (if ltb to from then c else clear_from (to + 1 - from) c row from)

unfoldable pub raw_put_visible : Console → ℕ → Console
raw_put_visible c char =
    let put = put_cell c c.cursor_row c.cursor_col char (current_color c) in
    scroll_if_needed (
      if leb c.term_cols (c.cursor_col + 1)
      then (record put { cursor_col = 0; cursor_row = c.cursor_row + 1 })
      else (record put { cursor_col = c.cursor_col + 1 }))

unfoldable pub raw_newline : Console → Console
raw_newline c = scroll_if_needed (record c { cursor_col = 0; cursor_row = c.cursor_row + 1 })

abbrev pub reset_params : Console → Console
reset_params c = record c {
  ansi_param_count = 0;
  ansi_param_current = 0;
  ansi_param_active = false;
}

-- `console_clear`
unfoldable pub clear : Console → Console
clear c =
    let reset = record (reset_params c) {
      ansi_fg = 15;
      ansi_bg = 0;
      ansi_parser_state = ansi_ground;
      utf8_codepoint = 0;
      utf8_needed = 0;
      utf8_total = 0;
    } in
    record (clear_all reset (current_color reset)) {
      cursor_row = 0;
      cursor_col = 0;
      saved_cursor_row = 0;
      saved_cursor_col = 0;
    }

-- `console_backspace`
unfoldable pub backspace : Console → Console
backspace c =
    let moved =
      if c.cursor_col == 0
      then (record c { cursor_row = c.cursor_row - 1; cursor_col = c.term_cols - 1 })
      else (record c { cursor_col = c.cursor_col - 1 }) in
    if c.cursor_col == 0 && c.cursor_row == 0
    then c
    else put_cell moved moved.cursor_row moved.cursor_col 0x20 (current_color moved)
