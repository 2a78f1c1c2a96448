-- ===== src/Format/Pieces.antt =====
-- vsprintf of sys/printf.c against a description of the format as a list of pieces.
use plum_os.Prelude.{
  ℕ, ◌%◌, ◌^◌, ◌<◌, ◌≡◌, refl, ◌≢◌, Option, none, some, List, [], ◌∷◌, ◌++◌, ==_ne,
}
use plum_os.Prelude.Int.{ℤ}
use plum_os.Format.{
  Arg, int_arg, long_arg, str_arg, vsprintf, plain, copied, convert, convert_long, conversion,
  long_conversion, longlong_to_string, longlong_to_hexstring, int_to_string, until_nul, text_of,
}
use plum_os.Format.Numbers.{
  Reads, ReadsInt, int_value, longlong_to_string-Reads, longlong_to_hexstring-Reads,
  int_to_string-ReadsInt,
}

-- A character that stands for itself, or %c, %s, %d, %x, %p, %lx, %lu with its argument.
pub data Piece : Type 0 where
  literal : ℕ → Piece
  char_piece : ℕ → Piece
  string_piece : Option (List ℕ) → Piece
  int_piece hex_piece pointer_piece long_hex_piece unsigned_piece : ℕ → Piece

abbrev pub format_of : List Piece → List ℕ
format_of [] = []
format_of (literal c ∷ ps) = c ∷ format_of ps
format_of (char_piece n ∷ ps) = 37 ∷ 99 ∷ format_of ps
format_of (string_piece s ∷ ps) = 37 ∷ 115 ∷ format_of ps
format_of (int_piece n ∷ ps) = 37 ∷ 100 ∷ format_of ps
format_of (hex_piece n ∷ ps) = 37 ∷ 120 ∷ format_of ps
format_of (pointer_piece n ∷ ps) = 37 ∷ 112 ∷ format_of ps
format_of (long_hex_piece n ∷ ps) = 37 ∷ 108 ∷ 120 ∷ format_of ps
format_of (unsigned_piece n ∷ ps) = 37 ∷ 108 ∷ 117 ∷ format_of ps

abbrev pub args_of : List Piece → List Arg
args_of [] = []
args_of (literal c ∷ ps) = args_of ps
args_of (char_piece n ∷ ps) = int_arg n ∷ args_of ps
args_of (string_piece s ∷ ps) = str_arg s ∷ args_of ps
args_of (int_piece n ∷ ps) = int_arg n ∷ args_of ps
args_of (hex_piece n ∷ ps) = long_arg n ∷ args_of ps
args_of (pointer_piece n ∷ ps) = long_arg n ∷ args_of ps
args_of (long_hex_piece n ∷ ps) = long_arg n ∷ args_of ps
args_of (unsigned_piece n ∷ ps) = long_arg n ∷ args_of ps

-- The text that a number printer leaves.
abbrev pub text_in : Option (ℕ × List ℕ) → List ℕ
text_in none = []
text_in (some r) = until_nul r.1

abbrev pub rendered : Piece → List ℕ
rendered (literal c) = c ∷ []
rendered (char_piece n) = n % 256 ∷ []
rendered (string_piece s) = text_of s
rendered (int_piece n) = text_in (int_to_string n)
rendered (hex_piece n) = text_in (longlong_to_hexstring n)
rendered (pointer_piece n) = 48 ∷ 120 ∷ text_in (longlong_to_hexstring n)
rendered (long_hex_piece n) = text_in (longlong_to_hexstring n)
rendered (unsigned_piece n) = text_in (longlong_to_string n)

abbrev pub rendered_all : List Piece → List ℕ
rendered_all [] = []
rendered_all (p ∷ ps) = rendered p ++ rendered_all ps

-- No literal is a `%` or NUL, numbers are 64-bit or 32-bit patterns, and no int is the least one.
abbrev pub Fits : Piece → Type 0
Fits (literal c) = (c ≢ 37) × (c ≢ 0)
Fits (char_piece n) = Unit {0}
Fits (string_piece s) = Unit {0}
Fits (int_piece n) = (n < 2 ^ 32) × (n ≢ 2 ^ 31)
Fits (hex_piece n) = n < 2 ^ 64
Fits (pointer_piece n) = n < 2 ^ 64
Fits (long_hex_piece n) = n < 2 ^ 64
Fits (unsigned_piece n) = n < 2 ^ 64

abbrev pub AllFit : List Piece → Type 0
AllFit [] = Unit {0}
AllFit (p ∷ ps) = Fits p × AllFit ps

copied_read :
    (radix n : ℕ) (o : Option (ℕ × List ℕ)) → Reads radix n o → copied o ≡ some (text_in o)
copied_read radix n none h = absurd h
copied_read radix n (some r) h = refl

copied_read_int : (z : ℤ) (o : Option (ℕ × List ℕ)) → ReadsInt z o → copied o ≡ some (text_in o)
copied_read_int z none h = absurd h
copied_read_int z (some r) h = refl

hex_copied :
    (n : ℕ)
    → n < 2 ^ 64
    → copied (longlong_to_hexstring n) ≡ some (text_in (longlong_to_hexstring n))
hex_copied n h = copied_read 16 n (longlong_to_hexstring n) (longlong_to_hexstring-Reads n h)

-- vsprintf, on a format of literals and the conversions %c, %s, %d, %x, %p, %lx and %lu with one
-- fitting argument each, writes the pieces one after the other.
pub vsprintf-rendered_all :
    (ps : List Piece)
    → AllFit ps
    → vsprintf plain (format_of ps) (args_of ps) ≡ some (rendered_all ps)
unfolding vsprintf convert convert_long conversion long_conversion
vsprintf-rendered_all [] h = refl
vsprintf-rendered_all (literal c ∷ ps) h =
    rw (vsprintf, ==_ne c 0 h.0.1, ==_ne c 37 h.0.0) (rw (vsprintf-rendered_all ps h.1) refl)
vsprintf-rendered_all (char_piece n ∷ ps) h = rw (vsprintf-rendered_all ps h.1) refl
vsprintf-rendered_all (string_piece s ∷ ps) h = rw (vsprintf-rendered_all ps h.1) refl
vsprintf-rendered_all (int_piece n ∷ ps) h =
    rw (copied_read_int (int_value n) (int_to_string n) (int_to_string-ReadsInt n h.0.0 h.0.1))
      (rw (vsprintf-rendered_all ps h.1) refl)
vsprintf-rendered_all (hex_piece n ∷ ps) h =
    rw (hex_copied n h.0) (rw (vsprintf-rendered_all ps h.1) refl)
vsprintf-rendered_all (pointer_piece n ∷ ps) h =
    rw (hex_copied n h.0) (rw (vsprintf-rendered_all ps h.1) refl)
vsprintf-rendered_all (long_hex_piece n ∷ ps) h =
    rw (hex_copied n h.0) (rw (vsprintf-rendered_all ps h.1) refl)
vsprintf-rendered_all (unsigned_piece n ∷ ps) h =
    rw (copied_read 10 n (longlong_to_string n) (longlong_to_string-Reads n h.0))
      (rw (vsprintf-rendered_all ps h.1) refl)
