-- ===== src/Console/Tests.antt =====
-- Runs of kernel/src/core/console.c on small inputs, and its theorems at them.
use walu_os.Prelude.{
  ℕ, ◌-◌, ◌≡◌, ◌≤◌, refl, false, ◌==◌, if◌then◌else◌, List, [], ◌∷◌, length, set, All, arith,
}
use mathlib.Core.List.{reverse}
use walu_os.Console.Screen.{Console, ansi_ground, blank}
use walu_os.Console.Ansi.{execute_csi}
use walu_os.Console.Defs.{write}
use walu_os.Console.Cursor.{Inv}
use walu_os.Console.Bytes.{write-Inv}
use walu_os.Console.Position.{execute_csi-position}
use walu_os.Console.Numbers.{write_dec, value_of, IsDigit, write_dec-digits}

-- A VGA console with the cursor in the last cell.
abbrev vga : Console
vga = record {
  cells = λ y x. blank 15;
  term_cols = 80;
  term_rows = 25;
  cursor_row = 24;
  cursor_col = 79;
  saved_cursor_row = 0;
  saved_cursor_col = 0;
  ansi_fg = 15;
  ansi_bg = 0;
  ansi_parser_state = ansi_ground;
  ansi_params = set (set (λ i. 0) 0 3) 1 7;
  ansi_param_count = 2;
  ansi_param_current = 0;
  ansi_param_active = false;
  utf8_codepoint = 0;
  utf8_needed = 0;
  utf8_total = 0;
}

vga-Inv : Inv 25 80 vga
vga-Inv = record {
  rows_pos = omega arith;
  cols_pos = omega arith;
  row_in = omega arith;
  col_in = omega arith;
  params_in = omega arith;
  rows_is = refl;
  cols_is = refl;
  needed_in = omega arith;
}

-- A letter, a broken UTF-8 sequence, a far movement, and an erased display.
abbrev noise : List ℕ
noise =
    b'A' ∷ 0xe2 ∷ 0x82 ∷ b'z' ∷ 0x1b ∷ b'[' ∷ b'9' ∷ b'9' ∷ b'B' ∷ 0x1b ∷ b'[' ∷ b'1' ∷ b'J' ∷ 0x08
    ∷ 0x0a ∷ []

write-Inv_example : Inv 25 80 (write vga noise)
write-Inv_example = write-Inv noise vga-Inv

execute_csi-position_example : execute_csi vga b'H' ≡ record vga {
  cursor_row = if 3 == 0 then vga.term_rows - 1 else 3 - 1;
  cursor_col = if 7 == 0 then vga.term_cols - 1 else 7 - 1;
}
execute_csi-position_example =
    execute_csi-position vga 3 7 refl refl refl (omega arith, omega arith)
      (omega arith, omega arith)

write_dec-digits_example :
    (ds : List ℕ) × (write_dec vga 4096 ≡ write vga (reverse ds))
    × (value_of ds ≡ 4096)
    × All IsDigit ds
    × (1 ≤ length ds)
write_dec-digits_example = write_dec-digits vga 4096 (omega arith)
