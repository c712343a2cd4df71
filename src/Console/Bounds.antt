-- ===== src/Console/Bounds.antt =====
-- The cursor of kernel/src/core/console.c under control sequences.
use walu_os.Prelude.{
  ℕ, zero, suc, ◌+◌, ◌-◌, ◌≡◌, ◌<◌, refl, sym, subst, inl, inr, Bool, true, false, not, ◌&&◌, ◌||◌,
  ◌==◌, if◌then◌else◌, ltb, leb, ltb→lt, arith, Bool-cases,
}
use walu_os.Console.Screen.{Console}
use walu_os.Console.Ansi.{
  sgr_apply, sgr_from, push_current_param, execute_csi, clear_rows, erase_display, erase_line,
  steps, cap, up_to, max_params, within,
}
use walu_os.Console.Cursor.{
  Inv, Painted, Painted-Inv, Painted-Painted, Painted-refl, clear_line_range-Painted, clear-Inv,
}

-- A choice keeps what both of its sides have.
pub either :
    (P : Console → Type 0) (test : Bool) {a b : Console} → P a → P b → P (if test then a else b)
either P true x y = x
either P false x y = y

clear_rows-Painted : (n : ℕ) (c : Console) (y : ℕ) → Painted c (clear_rows n c y)
unfolding clear_rows
clear_rows-Painted zero c y = Painted-refl c
clear_rows-Painted (suc n) c y =
    Painted-Painted (clear_line_range-Painted c y 0 (c.term_cols - 1))
      (clear_rows-Painted n _ (y + 1))

-- Only colours changed.
record Coloured (c out : Console) : Type 0 where
  same : out ≡ record c { ansi_fg = out.ansi_fg; ansi_bg = out.ansi_bg }

module _ {rows cols : ℕ} where
  Coloured-Inv : {c out : Console} → Coloured c out → Inv rows cols c → Inv rows cols out
  Coloured-Inv {c} {out} e v = subst (Inv rows cols) (sym e.same) (record {
    rows_pos = v.rows_pos;
    cols_pos = v.cols_pos;
    row_in = v.row_in;
    col_in = v.col_in;
    params_in = v.params_in;
    needed_in = v.needed_in;
    rows_is = v.rows_is;
    cols_is = v.cols_is;
  })

sgr_apply-Coloured : (c : Console) (code : ℕ) → Coloured c (sgr_apply c code)
unfolding sgr_apply
sgr_apply-Coloured c code =
    let P = Coloured c in
    let fg = c.ansi_fg in
    either P (code == 0) (record { same = refl })
      (either P (code == 1) (either P (ltb fg 8) (record { same = refl }) (record { same = refl }))
        (either P (code == 22)
          (either P (leb 8 fg) (record { same = refl }) (record { same = refl }))
          (either P (within 30 37 code) (record { same = refl })
            (either P (within 90 97 code) (record { same = refl })
              (either P (code == 39) (record { same = refl })
                (either P (within 40 47 code) (record { same = refl })
                  (either P (within 100 107 code) (record { same = refl })
                    (either P (code == 49) (record { same = refl }) (record { same = refl })))))))))

module _ {rows cols : ℕ} where
  sgr_apply-Inv : {c : Console} (code : ℕ) → Inv rows cols c → Inv rows cols (sgr_apply c code)
  sgr_apply-Inv {c} code v = Coloured-Inv (sgr_apply-Coloured c code) v

  sgr_from-Inv : (n i : ℕ) {c : Console} → Inv rows cols c → Inv rows cols (sgr_from n i c)
  unfolding sgr_from
  sgr_from-Inv zero i v = v
  sgr_from-Inv (suc n) i {c} v = sgr_from-Inv n (i + 1) (sgr_apply-Inv (c.ansi_params i) v)

  pub push_current_param-Inv :
      {c : Console} → Inv rows cols c → Inv rows cols (push_current_param c)
  unfolding push_current_param
  push_current_param-Inv {c} v =
      elim (Bool-cases (not c.ansi_param_active && c.ansi_param_count == 0)) [
        | inl idle ↦ rw idle v
        | inr busy ↦ elim (Bool-cases (ltb c.ansi_param_count max_params)) [
          | inl room ↦
              rw (busy, room)
                (record {
                  rows_pos = v.rows_pos;
                  cols_pos = v.cols_pos;
                  row_in = v.row_in;
                  col_in = v.col_in;
                  params_in = omega (arith, ltb→lt _ _ room);
                  needed_in = v.needed_in;
                  rows_is = v.rows_is;
                  cols_is = v.cols_is;
                })
          | inr full ↦
              rw (busy, full)
                (record {
                  rows_pos = v.rows_pos;
                  cols_pos = v.cols_pos;
                  row_in = v.row_in;
                  col_in = v.col_in;
                  params_in = v.params_in;
                  needed_in = v.needed_in;
                  rows_is = v.rows_is;
                  cols_is = v.cols_is;
                })
        ]
      ]

  moved :
      {c : Console} (row col saved_row saved_col : ℕ)
      → row < c.term_rows
      → col < c.term_cols
      → Inv rows cols c
      → Inv rows cols (record c {
        cursor_row = row;
        cursor_col = col;
        saved_cursor_row = saved_row;
        saved_cursor_col = saved_col;
      })
  moved row col sr sc hr hc v = record {
    rows_pos = v.rows_pos;
    cols_pos = v.cols_pos;
    row_in = hr;
    col_in = hc;
    params_in = v.params_in;
    needed_in = v.needed_in;
    rows_is = v.rows_is;
    cols_is = v.cols_is;
  }

cap-lt : (limit n : ℕ) → 0 < limit → cap limit n < limit
cap-lt limit n h = ground arith

up_to-lt : (limit n by : ℕ) → n < limit → up_to n by < limit
up_to-lt limit n by h = ground arith

module _ {rows cols : ℕ} where
  erase_display-Inv :
      {c : Console} (mode : ℕ) → Inv rows cols c → Inv rows cols (erase_display c mode)
  unfolding erase_display
  erase_display-Inv {c} mode v = either (Inv rows cols) (mode == 2) (clear-Inv v) (
      either (Inv rows cols) (mode == 0)
        (Painted-Inv
          (Painted-Painted (clear_line_range-Painted c c.cursor_row c.cursor_col (c.term_cols - 1))
            (clear_rows-Painted (c.term_rows - (c.cursor_row + 1)) _ (c.cursor_row + 1)))
          v)
        (either (Inv rows cols) (mode == 1)
          (Painted-Inv (clear_line_range-Painted _ _ 0 _)
            (Painted-Inv (clear_rows-Painted c.cursor_row c 0) v))
          v))

  erase_line-Inv : {c : Console} (mode : ℕ) → Inv rows cols c → Inv rows cols (erase_line c mode)
  unfolding erase_line
  erase_line-Inv {c} mode v =
      either (Inv rows cols) (mode == 0) (Painted-Inv (clear_line_range-Painted c _ _ _) v) (
        either (Inv rows cols) (mode == 1) (Painted-Inv (clear_line_range-Painted c _ _ _) v)
          (either (Inv rows cols) (mode == 2) (Painted-Inv (clear_line_range-Painted c _ _ _) v) v))

  pub execute_csi-Inv :
      {c : Console} (final : ℕ) → Inv rows cols c → Inv rows cols (execute_csi c final)
  unfolding execute_csi
  execute_csi-Inv {c} final v =
      let row = cap-lt c.term_rows in
      let col = cap-lt c.term_cols in
      either (Inv rows cols) (final == b'm')
        (either (Inv rows cols) (c.ansi_param_count == 0) (sgr_apply-Inv 0 v)
          (sgr_from-Inv c.ansi_param_count 0 v))
        (either (Inv rows cols) (final == b'H' || final == b'f')
          (moved _ _ _ _ (row _ v.rows_pos) (col _ v.cols_pos) v)
          (either (Inv rows cols) (final == b'A')
            (moved _ _ _ _ (up_to-lt c.term_rows c.cursor_row (steps c) v.row_in) v.col_in v)
            (either (Inv rows cols) (final == b'B') (moved _ _ _ _ (row _ v.rows_pos) v.col_in v) (
              either (Inv rows cols) (final == b'C') (moved _ _ _ _ v.row_in (col _ v.cols_pos) v) (
                either (Inv rows cols) (final == b'D')
                  (moved _ _ _ _ v.row_in (up_to-lt c.term_cols c.cursor_col (steps c) v.col_in) v)
                  (either (Inv rows cols) (final == b'J') (erase_display-Inv _ v) (
                    either (Inv rows cols) (final == b'K') (erase_line-Inv _ v) (
                      either (Inv rows cols) (final == b's') (moved _ _ _ _ v.row_in v.col_in v) (
                        either (Inv rows cols) (final == b'u')
                          (moved _ _ _ _ (row _ v.rows_pos) (col _ v.cols_pos) v) v)))))))))
