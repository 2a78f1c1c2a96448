-- ===== src/Console/Cursor.antt =====
-- Where print_to_screen of sys/printf.c leaves the cursor.
use plum_os.Prelude.{
  ℕ, zero, suc, ◌+◌, ◌-◌, ◌%◌, ◌^◌, ◌≤◌, ◌<◌, ◌≡◌, refl, ◌≢◌, arith, ◌==◌, ap, ◌∙◌, if_both, ==_iff,
  ◌||◌, true,
}
use plum_os.Prelude.Ints.{is_positive}
use plum_os.Console.{Screen, put_cell, next_row, advance, put_blanks, tab_width, print_to_screen}

-- The cursor stands on one of the 24 rows and 80 columns.
pub record OnScreen (s : Screen) : Type 0 where
  pub row_in : s.row < 24
  pub col_in : s.col < 80

advance-OnScreen : (s : Screen) → OnScreen s → OnScreen (advance s)
unfolding advance next_row
advance-OnScreen s i = record {
  row_in = ground (arith, i.row_in);
  col_in = ground (arith, i.col_in);
}

next_row-OnScreen : (s : Screen) → OnScreen s → OnScreen (next_row s)
unfolding next_row
next_row-OnScreen s i = record { row_in = ground (arith, i.row_in); col_in = ground arith }

-- The blanks move the column alone.
put_blanks-row : (n : ℕ) (s : Screen) → (put_blanks n s).row ≡ s.row
unfolding put_blanks put_cell
put_blanks-row zero s = refl
put_blanks-row (suc n) s = put_blanks-row n _

put_blanks-col : (n : ℕ) (s : Screen) → n + s.col < 2 ^ 32 → (put_blanks n s).col ≡ n + s.col
unfolding put_blanks put_cell
put_blanks-col zero s h = omega arith
put_blanks-col (suc n) s h = put_blanks-col n _ (omega arith) ∙ omega arith

tab_width-low : (c : ℕ) → c < 2 ^ 31 → tab_width c ≡ 8 - c % 8
unfolding tab_width
tab_width-low c h = ground arith

tab_end : (s : Screen) → s.col < 80 → (put_blanks (tab_width s.col) s).col ≡ 8 - s.col % 8 + s.col
tab_end s h =
    put_blanks-col (tab_width s.col) s (omega (arith, tab_width-low s.col (omega arith)))
    ∙ ap (λ (w : ℕ). w + s.col) (tab_width-low s.col (omega arith))

tab_OnScreen :
    (s : Screen) → OnScreen s → s.col < 72 → OnScreen (advance (put_blanks (tab_width s.col) s))
tab_OnScreen s i h = advance-OnScreen (put_blanks (tab_width s.col) s) (record {
  row_in = rw (put_blanks-row (tab_width s.col) s) i.row_in;
  col_in = rw (tab_end s i.col_in) (omega arith);
})

step_left : (c : ℕ) → c ≢ 0 → c < 80 → (c + (2 ^ 32 - 1)) % 2 ^ 32 < 80
step_left c h l = omega arith

-- Whatever is printed with the cursor on the screen, it stays there, but for a tab from column 72 on
-- and for a backspace in column 0 while typed characters wait.
pub print_to_screen-OnScreen :
    (c : ℕ) (s : Screen)
    → OnScreen s
    → (c ≡ 9 → s.col < 72)
    → (c ≡ 14 → is_positive s.stdin_buf_size ≡ true → s.col ≢ 0)
    → OnScreen (print_to_screen c s)
unfolding print_to_screen
print_to_screen-OnScreen c s i tab back =
    if_both OnScreen (c == 10) (λ _. next_row-OnScreen s i)
      λ _.
        if_both OnScreen (c == 9) (λ e. tab_OnScreen s i (tab ((==_iff c 9).0 e)))
          λ _.
            if_both OnScreen (c == 14)
              (λ e.
                if_both OnScreen (is_positive s.stdin_buf_size)
                  (λ z. record {
                    row_in = i.row_in;
                    col_in = step_left s.col (back ((==_iff c 14).0 e) z) i.col_in;
                  })
                  λ _. i)
              λ _.
                if_both OnScreen ((c == 8) || (c == 13)) (λ _. i)
                  λ _. advance-OnScreen _ (record { row_in = i.row_in; col_in = i.col_in })

advance_past : (s : Screen) → s.col ≡ 80 → (advance s).col ≡ 81
unfolding advance
advance_past s h = rw h refl

-- A tab from column 72 on leaves the cursor in column 81 of an 80-column row.
pub print_to_screen_tab : (s : Screen) → 72 ≤ s.col → s.col < 80 → (print_to_screen 9 s).col ≡ 81
unfolding print_to_screen
print_to_screen_tab s l h =
    advance_past (put_blanks (tab_width s.col) s) (tab_end s h ∙ omega arith)
