-- ===== src/Console/Cursor.antt =====
-- The cursor of kernel/src/core/console.c and the screen, under the operations that draw.
use walu_os.Prelude.{
  ℕ, zero, suc, ◌+◌, ◌-◌, ◌≡◌, ◌<◌, ◌≤◌, refl, ap, sym, subst, ◌∙◌, inl, inr, ◌||◌, ◌==◌,
  if◌then◌else◌, ltb, leb, ltb→lt, arith, Bool-cases,
}
use walu_os.Console.Screen.{
  Console, put_cell, clear_all, scroll_up, scroll_if_needed, clear_from, clear_line_range,
  raw_put_visible, raw_newline, clear, backspace, current_color,
}

-- The screen has a cell, and the cursor and the the parsers' counts lie in their ranges.
pub record Inv (rows cols : ℕ) (c : Console) : Type 0 where
  pub rows_pos : 0 < c.term_rows
  pub cols_pos : 0 < c.term_cols
  pub row_in : c.cursor_row < c.term_rows
  pub col_in : c.cursor_col < c.term_cols
  pub params_in : c.ansi_param_count ≤ 8
  pub rows_is : c.term_rows ≡ rows
  pub cols_is : c.term_cols ≡ cols
  pub needed_in : c.utf8_needed ≤ 3

-- Only cells changed.
pub record Painted (c out : Console) : Type 0 where
  pub same : out ≡ record c { cells = out.cells }

pub Painted-refl : (c : Console) → Painted c c
Painted-refl c = record { same = refl }

module _ {rows cols : ℕ} where
  pub Painted-Inv : {c out : Console} → Painted c out → Inv rows cols c → Inv rows cols out
  Painted-Inv {c} {out} e v = subst (Inv rows cols) (sym e.same) (record {
    rows_pos = v.rows_pos;
    cols_pos = v.cols_pos;
    row_in = v.row_in;
    col_in = v.col_in;
    params_in = v.params_in;
    needed_in = v.needed_in;
    rows_is = v.rows_is;
    cols_is = v.cols_is;
  })

pub Painted-Painted : {c mid out : Console} → Painted c mid → Painted mid out → Painted c out
Painted-Painted {c} {mid} {out} e f = record {
  same = f.same ∙ ap {A = Console} {B = Console} (λ k. record k { cells = out.cells }) e.same;
}

pub put_cell-Painted :
    (c : Console) (row col char color : ℕ) → Painted c (put_cell c row col char color)
unfolding put_cell
put_cell-Painted c row col char color =
    elim (Bool-cases (leb c.term_rows row || leb c.term_cols col)) [
      | inl off ↦ rw off (Painted-refl c)
      | inr on ↦ rw on (record { same = refl })
    ]

clear_from-Painted : (n : ℕ) (c : Console) (row x : ℕ) → Painted c (clear_from n c row x)
unfolding clear_from
clear_from-Painted zero c row x = Painted-refl c
clear_from-Painted (suc n) c row x =
    Painted-Painted (put_cell-Painted c row x 0x20 (current_color c))
      (clear_from-Painted n _ row (x + 1))

pub clear_line_range-Painted :
    (c : Console) (row from to : ℕ) → Painted c (clear_line_range c row from to)
unfolding clear_line_range
clear_line_range-Painted c row from to = elim (Bool-cases (leb c.term_rows row)) [
  | inl off ↦ rw off (Painted-refl c)
  | inr on ↦
      let a = if leb c.term_cols from then c.term_cols - 1 else from in
      let b = if leb c.term_cols to then c.term_cols - 1 else to in
      elim (Bool-cases (ltb b a)) [
        | inl none_left ↦ rw (on, none_left) (Painted-refl c)
        | inr some_left ↦ rw (on, some_left) (clear_from-Painted (b + 1 - a) c row a)
      ]
]

module _ {rows cols : ℕ} where
  -- A cursor that may have moved one row past the last one is brought back.
  scroll_if_needed-Inv :
      (c : Console)
      → 0 < c.term_rows
      → c.cursor_col < c.term_cols
      → c.ansi_param_count ≤ 8
      → c.utf8_needed ≤ 3
      → c.term_rows ≡ rows
      → c.term_cols ≡ cols
      → Inv rows cols (scroll_if_needed c)
  unfolding scroll_if_needed scroll_up
  scroll_if_needed-Inv c some_rows col_in count needed same_rows same_cols =
      elim (Bool-cases (ltb c.cursor_row c.term_rows)) [
        | inl inside ↦ rw inside (record {
          rows_pos = some_rows;
          cols_pos = omega arith;
          row_in = ltb→lt _ _ inside;
          col_in = col_in;
          params_in = count;
          needed_in = needed;
          rows_is = same_rows;
          cols_is = same_cols;
        })
        | inr past ↦ rw past (record {
          rows_pos = some_rows;
          cols_pos = omega arith;
          row_in = omega arith;
          col_in = col_in;
          params_in = count;
          needed_in = needed;
          rows_is = same_rows;
          cols_is = same_cols;
        })
      ]

  pub raw_put_visible-Inv :
      {c : Console} (char : ℕ) → Inv rows cols c → Inv rows cols (raw_put_visible c char)
  unfolding raw_put_visible
  raw_put_visible-Inv {c} char v =
      let e = put_cell-Painted c c.cursor_row c.cursor_col char (current_color c) in
      let p = Painted-Inv e v in
      let wide = ap (λ (k : Console). k.term_cols) e.same in
      elim (Bool-cases (leb c.term_cols (c.cursor_col + 1))) [
        | inl wrap ↦ rw wrap (
            scroll_if_needed-Inv _ p.rows_pos p.cols_pos p.params_in p.needed_in p.rows_is
              p.cols_is)
        | inr room ↦ rw room (
            scroll_if_needed-Inv _ p.rows_pos (ground arith) p.params_in p.needed_in p.rows_is
              p.cols_is)
      ]

  pub raw_newline-Inv : {c : Console} → Inv rows cols c → Inv rows cols (raw_newline c)
  unfolding raw_newline
  raw_newline-Inv v =
      scroll_if_needed-Inv _ v.rows_pos v.cols_pos v.params_in v.needed_in v.rows_is v.cols_is

  pub clear-Inv : {c : Console} → Inv rows cols c → Inv rows cols (clear c)
  unfolding clear clear_all
  clear-Inv v = record {
    rows_pos = v.rows_pos;
    cols_pos = v.cols_pos;
    row_in = v.rows_pos;
    col_in = v.cols_pos;
    params_in = omega arith;
    needed_in = omega arith;
    rows_is = v.rows_is;
    cols_is = v.cols_is;
  }

  pub backspace-Inv : {c : Console} → Inv rows cols c → Inv rows cols (backspace c)
  unfolding backspace
  backspace-Inv {c} v = elim (Bool-cases (c.cursor_col == 0)) [
    | inl start ↦ elim (Bool-cases (c.cursor_row == 0)) [
      | inl top ↦ rw (start, top) v
      | inr below ↦
          rw (start, below)
            (Painted-Inv (put_cell-Painted _ _ _ 0x20 _) (record {
              rows_pos = v.rows_pos;
              cols_pos = v.cols_pos;
              row_in = omega (arith, v.row_in);
              col_in = omega (arith, v.cols_pos);
              params_in = v.params_in;
              needed_in = v.needed_in;
              rows_is = v.rows_is;
              cols_is = v.cols_is;
            }))
    ]
    | inr later ↦ rw later (
        Painted-Inv (put_cell-Painted _ _ _ 0x20 _) (record {
          rows_pos = v.rows_pos;
          cols_pos = v.cols_pos;
          row_in = v.row_in;
          col_in = omega (arith, v.col_in);
          params_in = v.params_in;
          needed_in = v.needed_in;
          rows_is = v.rows_is;
          cols_is = v.cols_is;
        }))
  ]
