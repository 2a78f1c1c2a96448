-- ===== src/Examples/Texts.antt =====
-- Strings, formats, the console and the clock at concrete inputs.
use plum_os.Prelude.{ℕ, ◌≡◌, refl, some, List, [], ◌∷◌, arith}
use plum_os.Strings.{strcmp}
use plum_os.Strings.Compare.{IsText, Decides, strcmp-Decides}
use plum_os.Format.{vsprintf, plain, int_to_string}
use plum_os.Format.Numbers.{ReadsInt, int_value, int_to_string-ReadsInt}
use plum_os.Format.Pieces.{
  Piece, literal, int_piece, string_piece, format_of, args_of, rendered_all, vsprintf-rendered_all,
}
use plum_os.Console.{Screen, print_to_screen, scoll_screen_up}
use plum_os.Console.Cursor.{OnScreen, print_to_screen-OnScreen}
use plum_os.Console.Scroll.{glyph, scoll_screen_up-glyph}
use plum_os.Clock.{Clock}
use plum_os.Clock.Time.{OnTime, ticked, ticked-OnTime}

-- "ls" and "cat"
abbrev ls : List ℕ
ls = 108 ∷ 115 ∷ []

abbrev cat : List ℕ
cat = 99 ∷ 97 ∷ 116 ∷ []

ls-IsText : IsText ls
ls-IsText = (omega arith, omega arith, (omega arith, omega arith, tt))

cat-IsText : IsText cat
cat-IsText = (omega arith, omega arith, (omega arith, omega arith, (omega arith, omega arith, tt)))

strcmp-Decides_example :
    Decides ls cat (strcmp (some (108 ∷ 115 ∷ 0 ∷ [])) (some (99 ∷ 97 ∷ 116 ∷ 0 ∷ [])))
strcmp-Decides_example = strcmp-Decides ls cat [] [] ls-IsText cat-IsText

-- -1
int_to_string-ReadsInt_example : ReadsInt (int_value 4294967295) (int_to_string 4294967295)
int_to_string-ReadsInt_example = int_to_string-ReadsInt 4294967295 (omega arith) (omega arith)

-- "a%d%s"
abbrev pieces : List Piece
pieces = literal 97 ∷ int_piece 42 ∷ string_piece (some (108 ∷ 115 ∷ 0 ∷ [])) ∷ []

vsprintf-rendered_all_example :
    vsprintf plain (format_of pieces) (args_of pieces) ≡ some (rendered_all pieces)
vsprintf-rendered_all_example =
    vsprintf-rendered_all pieces
      ((omega arith, omega arith), ((omega arith, omega arith), (tt, tt)))

-- The cursor is at the end of the last row.
abbrev filled : Screen
filled = record { cells = λ i. i; row = 23; col = 79; stdin_buf_size = 0 }

print_to_screen-OnScreen_example : OnScreen (print_to_screen 97 filled)
print_to_screen-OnScreen_example =
    print_to_screen-OnScreen 97 filled (record { row_in = omega arith; col_in = omega arith })
      (λ e. absurd (omega arith)) (λ e h. absurd (omega (arith, e)))

scoll_screen_up-glyph_example : glyph (scoll_screen_up filled) 5 7 ≡ glyph filled 6 7
scoll_screen_up-glyph_example = scoll_screen_up-glyph filled 5 7 (omega arith) (omega arith)

-- One tick before midday
abbrev morning : Clock
morning = record { ticks = 4319999; sec = 59; min = 59; hour = 11 }

ticked-OnTime_example : OnTime (ticked 150 morning)
ticked-OnTime_example =
    ticked-OnTime 150 morning (omega arith)
      (record { sec_in = omega arith; min_in = omega arith; total = refl })
