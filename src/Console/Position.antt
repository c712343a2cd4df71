-- ===== src/Console/Position.antt =====
-- The sequence of kernel/src/core/console.c that places the cursor.
use walu_os.Prelude.{
  ℕ, ◌+◌, ◌-◌, ◌^◌, ◌≡◌, ◌<◌, ◌≤◌, ap₂, inl, inr, ◌==◌, ==_iff, if◌then◌else◌, u32, [], ◌∷◌, arith,
  Bool-cases,
}
use walu_os.Console.Screen.{Console}
use walu_os.Console.Ansi.{execute_csi, push_current_param, before, cap}
use walu_os.Console.Defs.{putc, write, handle_ground_byte, handle_csi_byte, to_ground}

cap-before : (limit n : ℕ) → 1 ≤ n → n ≤ limit → n < 2147483648 → cap limit (before n) ≡ n - 1
cap-before limit n pos le small =
    let e : u32 (n + 2 ^ 32 - 1) ≡ n - 1 = omega arith in rw e (ground arith)

cap-before_zero : (limit : ℕ) → limit < 2 ^ 63 → cap limit (before 0) ≡ limit - 1
cap-before_zero limit small = ground arith

-- With the row and the column given and both on the screen (counted from 1), `H` puts the cursor there and changes
-- nothing else; with a parameter 0 in the place of either, it goes to the last row or column instead of
-- the first.
pub execute_csi-position :
    (c : Console) (row col : ℕ)
    → c.ansi_param_count ≡ 2
    → c.ansi_params 0 ≡ row
    → c.ansi_params 1 ≡ col
    → (row ≤ c.term_rows) × (col ≤ c.term_cols)
    → (c.term_rows < 2147483648) × (c.term_cols < 2147483648)
    → execute_csi c b'H' ≡ record c {
      cursor_row = if row == 0 then c.term_rows - 1 else row - 1;
      cursor_col = if col == 0 then c.term_cols - 1 else col - 1;
    }
unfolding execute_csi
execute_csi-position c row col two r k (rows, cols) (small_rows, small_cols) =
    let place : (limit n : ℕ)
        → n ≤ limit
        → limit < 2147483648
        → cap limit (before n) ≡ (if n == 0 then limit - 1 else n - 1) =
      λ limit n le small. elim (Bool-cases (n == 0)) [
        | inl z ↦ rw ((==_iff n 0).0 z) (cap-before_zero limit (omega arith))
        | inr nz ↦ rw nz (cap-before limit n (ground arith) le (omega arith))
      ] in
    ap₂ {A = ℕ} {B = ℕ} {C = Console} (λ y x. record c { cursor_row = y; cursor_col = x })
      (rw (two, r) (place c.term_rows row rows small_rows))
      (rw (two, k) (place c.term_cols col cols small_cols))

-- Outside any sequence, ESC [ 0 ; 0 H puts the cursor into the last row and column.
pub write-cursor_zero :
    (c : Console)
    → (c.term_rows < 2147483648) × (c.term_cols < 2147483648)
    → let out = write (to_ground c) (0x1b ∷ b'[' ∷ b'0' ∷ b';' ∷ b'0' ∷ b'H' ∷ []) in
      (out.cursor_row ≡ c.term_rows - 1) × (out.cursor_col ≡ c.term_cols - 1)
unfolding write putc handle_ground_byte handle_csi_byte push_current_param execute_csi
write-cursor_zero c (rows, cols) =
    (cap-before_zero c.term_rows (omega arith), cap-before_zero c.term_cols (omega arith))
