-- ===== src/Console.antt =====
-- The text console of sys/printf.c: print_to_screen, scoll_screen_up and clear_screen over the
-- 80-column video memory, of which the rows 0 to 23 scroll. The column of the cursor and the offsets
-- into the memory are the 32-bit patterns of the source's ints; the row is never negative.
pub mod Cursor
pub mod Scroll
pub mod Size
use plum_os.Prelude.{ℕ, zero, suc, ◌+◌, ◌-◌, ◌*◌, ◌%◌, ◌^◌, Bool, ◌||◌, ◌==◌, ltb, if◌then◌else◌}
use plum_os.Prelude.Ints.{is_positive}

abbrev pub max_column : ℕ
max_column = 80

abbrev pub max_row : ℕ
max_row = 24

-- `screen_buffer` is a function of the offset; `row` and `col` are the cursor; stdin_buf_size is an int too.
pub record Screen : Type 0 where
  pub cells : ℕ → ℕ
  pub row : ℕ
  pub col : ℕ
  pub stdin_buf_size : ℕ

abbrev pub set_cell : ℕ → ℕ → Screen → Screen
set_cell i c s = record s { cells = λ j. if i == j then c else s.cells j }

-- `i * MAX_COLUMN * 2 + j * 2`
unfoldable pub offset : ℕ → ℕ → ℕ
offset i j = (i * max_column * 2 + j * 2) % 2 ^ 32

-- `screen_buffer[i * MAX_COLUMN * 2 + j * 2] = c;` and 0 behind it
unfoldable pub put_cell : ℕ → ℕ → ℕ → Screen → Screen
put_cell i j c s = set_cell ((offset i j + 1) % 2 ^ 32) 0 (set_cell (offset i j) c s)

-- the loop over the columns of row i, with `n` columns left from column j on
unfoldable pub copy_row : ℕ → ℕ → ℕ → Screen → Screen
unfolding put_cell
copy_row zero i j s = s
copy_row (suc n) i j s = copy_row n i (j + 1) (put_cell i j (s.cells (offset (i + 1) j)) s)

unfoldable pub blank_row : ℕ → ℕ → ℕ → Screen → Screen
unfolding put_cell
blank_row zero i j s = s
blank_row (suc n) i j s = blank_row n i (j + 1) (put_cell i j 32 s)

-- the loop over the rows from row i on, with n rows left
unfoldable pub copy_rows : ℕ → ℕ → Screen → Screen
unfolding copy_row
copy_rows zero i s = s
copy_rows (suc n) i s = copy_rows n (i + 1) (copy_row max_column i 0 s)

unfoldable pub scoll_screen_up : Screen → Screen
scoll_screen_up s = blank_row max_column (max_row - 1) 0 (copy_rows (max_row - 1) 0 s)

-- `nrow = cursor.row + 1;` with a scroll at the last row; then `cursor.row = nrow; cursor.col = 0;`
unfoldable pub next_row : Screen → Screen
next_row s =
    if (s.row + 1) == max_row
    then (let t = scoll_screen_up s in record t { row = max_row - 1; col = 0 })
    else record s { row = s.row + 1; col = 0 }

-- `if ((ncol = cursor.col + 1) != MAX_COLUMN) cursor.col = ncol; else ...`
unfoldable pub advance : Screen → Screen
advance s =
    let ncol = (s.col + 1) % 2 ^ 32 in
    if ncol == max_column then next_row s else record s { col = ncol }

-- the loop of a tab, with `n` blanks left
unfoldable pub put_blanks : ℕ → Screen → Screen
unfolding put_cell
put_blanks zero s = s
put_blanks (suc n) s =
    let t = put_cell s.row s.col 32 s in put_blanks n (record t { col = (t.col + 1) % 2 ^ 32 })

-- TAB - t_sp for `t_sp = cursor.col % TAB`, which takes the sign of the column
unfoldable pub tab_width : ℕ → ℕ
tab_width col = if ltb col (2 ^ 31) then 8 - col % 8 else 8 + (2 ^ 32 - col) % 8

-- 9 is a tab, 10 a newline, 8 and 13 print nothing, 14 stands for a backspace.
unfoldable pub print_to_screen : ℕ → Screen → Screen
unfolding put_cell
print_to_screen c s =
    if c == 10
    then next_row s
    else if c == 9
    then advance (put_blanks (tab_width s.col) s)
    else if c == 14
    then if is_positive s.stdin_buf_size
      then (let left = (s.col + (2 ^ 32 - 1)) % 2 ^ 32 in
          record (put_cell s.row left 32 s) { col = left })
      else s
    else if (c == 8) || (c == 13)
    then s
    else advance (put_cell s.row s.col c s)

unfoldable pub scroll_times : ℕ → Screen → Screen
scroll_times zero s = s
scroll_times (suc n) s = scroll_times n (scoll_screen_up s)

unfoldable pub clear_screen : Screen → Screen
clear_screen s = let t = scroll_times s.row s in record t { row = 0 }
