-- ===== src/Console/Size.antt =====
-- print_to_screen reads stdin_buf_size.
use plum_os.Prelude.{ℕ, zero, suc, ◌+◌, ◌-◌, ◌%◌, ◌^◌, ◌≡◌, refl, ◌∙◌, ◌||◌, ◌==◌, if_both}
use plum_os.Prelude.Ints.{is_positive}
use plum_os.Console.{
  Screen, max_row, max_column, put_cell, offset, copy_row, blank_row, copy_rows, scoll_screen_up,
  next_row, advance, put_blanks, tab_width, print_to_screen,
}

abbrev SameSize : Screen → Screen → Type 0
SameSize s t = t.stdin_buf_size ≡ s.stdin_buf_size

put_cell-size : (i j c : ℕ) (s : Screen) → SameSize s (put_cell i j c s)
unfolding put_cell
put_cell-size i j c s = refl

copy_row-size : (n i j : ℕ) (s : Screen) → SameSize s (copy_row n i j s)
unfolding copy_row
copy_row-size zero i j s = refl
copy_row-size (suc n) i j s =
    copy_row-size n i (j + 1) (put_cell i j (s.cells (offset (i + 1) j)) s)

blank_row-size : (n i j : ℕ) (s : Screen) → SameSize s (blank_row n i j s)
unfolding blank_row
blank_row-size zero i j s = refl
blank_row-size (suc n) i j s = blank_row-size n i (j + 1) (put_cell i j 32 s)

copy_rows-size : (n i : ℕ) (s : Screen) → SameSize s (copy_rows n i s)
unfolding copy_rows
copy_rows-size zero i s = refl
copy_rows-size (suc n) i s =
    copy_rows-size n (i + 1) (copy_row max_column i 0 s) ∙ copy_row-size max_column i 0 s

scoll_screen_up-size : (s : Screen) → SameSize s (scoll_screen_up s)
unfolding scoll_screen_up
scoll_screen_up-size s =
    blank_row-size max_column (max_row - 1) 0 (copy_rows (max_row - 1) 0 s)
    ∙ copy_rows-size (max_row - 1) 0 s

next_row-size : (s : Screen) → SameSize s (next_row s)
unfolding next_row
next_row-size s =
    if_both (SameSize s) ((s.row + 1) == max_row) (λ _. scoll_screen_up-size s) (λ _. refl)

advance-size : (s : Screen) → SameSize s (advance s)
unfolding advance
advance-size s =
    if_both (SameSize s) ((s.col + 1) % 2 ^ 32 == max_column) (λ _. next_row-size s) (λ _. refl)

put_blanks-size : (n : ℕ) (s : Screen) → SameSize s (put_blanks n s)
unfolding put_blanks
put_blanks-size zero s = refl
put_blanks-size (suc n) s =
    let t = put_cell s.row s.col 32 s in put_blanks-size n (record t { col = (t.col + 1) % 2 ^ 32 })

-- Printing types nothing.
pub print_to_screen-size : (c : ℕ) (s : Screen) → SameSize s (print_to_screen c s)
unfolding print_to_screen
print_to_screen-size c s =
    if_both (SameSize s) (c == 10) (λ _. next_row-size s)
      λ _.
        if_both (SameSize s) (c == 9)
          (λ _. advance-size (put_blanks (tab_width s.col) s) ∙ put_blanks-size (tab_width s.col) s)
          λ _.
            if_both (SameSize s) (c == 14)
              (λ _. if_both (SameSize s) (is_positive s.stdin_buf_size) (λ _. refl) (λ _. refl))
              λ _.
                if_both (SameSize s) ((c == 8) || (c == 13)) (λ _. refl)
                  (λ _. advance-size (put_cell s.row s.col c s))
