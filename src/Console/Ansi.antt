-- ===== src/Console/Ansi.antt =====
-- The escape sequences of kernel/src/core/console.c. An `int` is kept modulo 2 ^ 32; where a
-- parameter overflows, which C leaves undefined, it wraps around.
use walu_os.Prelude.{
  ℕ, zero, suc, ◌+◌, ◌-◌, ◌^◌, Bool, true, false, not, ◌&&◌, ◌||◌, ◌==◌, if◌then◌else◌, ltb, leb,
  set, u8, u32, u64, bit_and,
}
use walu_os.Console.Screen.{Console, clear_line_range, clear}

abbrev pub max_params : ℕ
max_params = 8

-- `ansi_base_to_vga`
abbrev pub base_to_vga : ℕ → ℕ
base_to_vga n =
    if n == 1 then 4 else (if n == 3 then 6 else (if n == 4 then 1 else (if n == 6 then 3 else n)))

unfoldable pub color_to_vga : ℕ → Bool → ℕ
color_to_vga ansi_color bright =
    let vga = base_to_vga (bit_and ansi_color 7) in
    if bright && ltb vga 8 then u8 (vga + 8) else vga

abbrev pub within : ℕ → ℕ → ℕ → Bool
within low high code = leb low code && leb code high

unfoldable pub sgr_apply : Console → ℕ → Console
sgr_apply c code =
    if code == 0
    then (record c { ansi_fg = 15; ansi_bg = 0 })
    else (if code == 1
        then (if ltb c.ansi_fg 8 then (record c { ansi_fg = c.ansi_fg + 8 }) else c)
        else (if code == 22
            then (if leb 8 c.ansi_fg then (record c { ansi_fg = c.ansi_fg - 8 }) else c)
            else (if within 30 37 code
                then (record c { ansi_fg = color_to_vga (code - 30) false })
                else (if within 90 97 code
                    then (record c { ansi_fg = color_to_vga (code - 90) true })
                    else (if code == 39
                        then (record c { ansi_fg = 15 })
                        else (if within 40 47 code
                            then (record c { ansi_bg = color_to_vga (code - 40) false })
                            else (if within 100 107 code
                                then (record c { ansi_bg = color_to_vga (code - 100) true })
                                else (if code == 49 then (record c { ansi_bg = 0 }) else c))))))))

abbrev pub param_at : Console → ℕ → ℕ → ℕ
param_at c i fallback = if leb c.ansi_param_count i then fallback else c.ansi_params i

unfoldable pub push_current_param : Console → Console
push_current_param c =
    let stored =
      if ltb c.ansi_param_count max_params
      then (record c {
        ansi_params =
            set c.ansi_params c.ansi_param_count
              (if c.ansi_param_active then c.ansi_param_current else 0);
        ansi_param_count = c.ansi_param_count + 1;
      })
      else c in
    if not c.ansi_param_active && c.ansi_param_count == 0
    then c
    else (record stored { ansi_param_current = 0; ansi_param_active = false })

-- The loop of `m` at index `i`, with the number of rounds left first.
unfoldable pub sgr_from : ℕ → ℕ → Console → Console
sgr_from zero i c = c
sgr_from (suc n) i c = sgr_from n (i + 1) (sgr_apply c (c.ansi_params i))

-- `(size_t)(param - 1)`: a negative `int` becomes a number close to 2 ^ 64.
abbrev pub size_of_int : ℕ → ℕ
size_of_int n = if ltb n 2147483648 then n else n + (2 ^ 64 - 2 ^ 32)

abbrev pub before : ℕ → ℕ
before n = size_of_int (u32 (n + 2 ^ 32 - 1))

abbrev pub cap : ℕ → ℕ → ℕ
cap limit n = if leb limit n then limit - 1 else n

-- The count of a movement: at least 1.
abbrev pub steps : Console → ℕ
steps c = let n = param_at c 0 1 in if n == 0 || leb 2147483648 n then 1 else n

-- The loops of `J` over whole rows, from row `y`, with the number of rounds left first.
unfoldable pub clear_rows : ℕ → Console → ℕ → Console
clear_rows zero c y = c
clear_rows (suc n) c y = clear_rows n (clear_line_range c y 0 (c.term_cols - 1)) (y + 1)

unfoldable pub erase_display : Console → ℕ → Console
erase_display c mode =
    if mode == 2
    then clear c
    else (if mode == 0
        then clear_rows (c.term_rows - (c.cursor_row + 1))
            (clear_line_range c c.cursor_row c.cursor_col (c.term_cols - 1)) (c.cursor_row + 1)
        else (if mode == 1
            then (let rows = clear_rows c.cursor_row c 0 in
                clear_line_range rows rows.cursor_row 0 rows.cursor_col)
            else c))

unfoldable pub erase_line : Console → ℕ → Console
erase_line c mode =
    if mode == 0
    then clear_line_range c c.cursor_row c.cursor_col (c.term_cols - 1)
    else (if mode == 1
        then clear_line_range c c.cursor_row 0 c.cursor_col
        else (if mode == 2 then clear_line_range c c.cursor_row 0 (c.term_cols - 1) else c))

abbrev pub up_to : ℕ → ℕ → ℕ
up_to n by = if ltb by n then n - by else 0

unfoldable pub execute_csi : Console → ℕ → Console
execute_csi c final =
    let n = steps c in
    if final == b'm'
    then (if c.ansi_param_count == 0 then sgr_apply c 0 else sgr_from c.ansi_param_count 0 c)
    else (if final == b'H' || final == b'f'
        then (record c {
          cursor_row = cap c.term_rows (before (param_at c 0 1));
          cursor_col = cap c.term_cols (before (param_at c 1 1));
        })
        else (if final == b'A'
            then (record c { cursor_row = up_to c.cursor_row n })
            else (if final == b'B'
                then (record c { cursor_row = cap c.term_rows (u64 (c.cursor_row + n)) })
                else (if final == b'C'
                    then (record c { cursor_col = cap c.term_cols (u64 (c.cursor_col + n)) })
                    else (if final == b'D'
                        then (record c { cursor_col = up_to c.cursor_col n })
                        else (if final == b'J'
                            then erase_display c (param_at c 0 0)
                            else (if final == b'K'
                                then erase_line c (param_at c 0 0)
                                else (if final == b's'
                                    then (record c {
                                      saved_cursor_row = c.cursor_row;
                                      saved_cursor_col = c.cursor_col;
                                    })
                                    else (if final == b'u'
                                        then (record c {
                                          cursor_row = cap c.term_rows c.saved_cursor_row;
                                          cursor_col = cap c.term_cols c.saved_cursor_col;
                                        })
                                        else c)))))))))
