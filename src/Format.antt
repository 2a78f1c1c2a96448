-- ===== src/Format.antt =====
-- Number printing and vsprintf of sys/printf.c. A number is written from the end of a buffer of 80
-- bytes towards its start; `none` is a write before the start. A list stands for the bytes from
-- `&buf[pos]` to the end of the buffer.
pub mod Numbers
pub mod Pieces
use plum_os.Prelude.{
  ℕ, zero, suc, ◌+◌, ◌-◌, ◌*◌, ◌/◌, ◌%◌, ◌^◌, Bool, true, false, ◌&&◌, Option, none, some, List, [],
  ◌∷◌, ◌++◌, ◌==◌, ltb, leb, if◌then◌else◌, get_or,
}
use plum_os.Prelude.Partial.{◌>>=◌}

abbrev pub num_buf : ℕ
num_buf = 80

-- `digit + '0'` as a char
abbrev pub decimal_digit : ℕ → ℕ
decimal_digit d = (d + 48) % 256

abbrev pub hex_table : List ℕ
hex_table = 48 ∷ 49 ∷ 50 ∷ 51 ∷ 52 ∷ 53 ∷ 54 ∷ 55 ∷ 56 ∷ 57 ∷ 65 ∷ 66 ∷ 67 ∷ 68 ∷ 69 ∷ 70 ∷ []

-- `buf[--pos] = c`
abbrev pub push : ℕ → ℕ → List ℕ → Option (ℕ × List ℕ)
push zero c out = none
push (suc pos) c out = some (pos, c ∷ out)

-- `while (n >= radix) { digit = n % radix; n /= radix; buf[--pos] = ...; } buf[--pos] = ...;`
unfoldable pub digits_loop : ℕ → (ℕ → ℕ) → ℕ → ℕ → List ℕ → Option (ℕ × List ℕ)
digits_loop radix char zero n out = none
digits_loop radix char (suc pos) n out = elim (leb radix n) [
  | true ↦ digits_loop radix char pos (n / radix) (char (n % radix) ∷ out)
  | false ↦ some (pos, char n ∷ out)
]

unfoldable pub longlong_to_string : ℕ → Option (ℕ × List ℕ)
longlong_to_string n = do end ← push num_buf 0 []; digits_loop 10 decimal_digit end.0 n end.1

unfoldable pub longlong_to_hexstring : ℕ → Option (ℕ × List ℕ)
longlong_to_hexstring n = do
  end ← push num_buf 0 []
  digits_loop 16 (λ d. get_or hex_table d 0) end.0 n end.1

-- `n` is the 32-bit pattern of the int; `n = -n` and the signed tests read it as such. The pattern
-- of the least int is its own negation, whose loop ends at once.
unfoldable pub int_to_string : ℕ → Option (ℕ × List ℕ)
int_to_string n =
    let negative = leb (2 ^ 31) n in
    let m = if negative then (2 ^ 32 - n) % 2 ^ 32 else n in
    (do
      end ← push num_buf 0 []
      digits ←
          (if leb (2 ^ 31) m
            then push end.0 (decimal_digit m) end.1
            else digits_loop 10 decimal_digit end.0 m end.1)
      if negative then push digits.0 45 digits.1 else some digits)

-- An argument of a `va_list`; a string may be NULL.
pub data Arg : Type 0 where
  int_arg : ℕ → Arg
  long_arg : ℕ → Arg
  str_arg : Option (List ℕ) → Arg

-- `while (s[j] != 0) str[idx++] = s[j++];` over the bytes of a buffer
unfoldable pub until_nul : List ℕ → List ℕ
until_nul [] = []
until_nul (c ∷ s) = if c == 0 then [] else c ∷ until_nul s

abbrev null_text : List ℕ
null_text = 60 ∷ 110 ∷ 117 ∷ 108 ∷ 108 ∷ 62 ∷ []

abbrev pub text_of : Option (List ℕ) → List ℕ
text_of none = null_text
text_of (some s) = until_nul s

abbrev copied : Option (ℕ × List ℕ) → Option (List ℕ)
copied none = none
copied (some r) = some (until_nul r.1)

-- The characters that the chain of tests after a `%` tells apart.
pub data Conversion : Type 0 where
  of_char of_string of_int of_hex of_pointer of_long of_other : Conversion

unfoldable pub conversion : ℕ → Conversion
conversion c =
    if c == 99
    then of_char
    else if c == 115
    then of_string
    else if c == 100
    then of_int
    else if c == 120
    then of_hex
    else if c == 112
    then of_pointer
    else if c == 108
    then of_long
    else of_other

-- After `%l`: `x`, `u` or another character.
pub data LongConversion : Type 0 where
  long_hex long_decimal long_other : LongConversion

unfoldable pub long_conversion : ℕ → LongConversion
long_conversion c = if c == 120 then long_hex else if c == 117 then long_decimal else long_other

-- What the conversion writes, and the arguments behind it. `none`: an argument that is missing or of
-- another type, to which C gives no value.
unfoldable pub convert : Conversion → ℕ → List Arg → Option (List ℕ × List Arg)
convert of_char c (int_arg n ∷ args) = some (n % 256 ∷ [], args)
convert of_string c (str_arg s ∷ args) = some (text_of s, args)
convert of_int c (int_arg n ∷ args) = do s ← copied (int_to_string n); some (s, args)
convert of_hex c (long_arg n ∷ args) = do s ← copied (longlong_to_hexstring n); some (s, args)
convert of_pointer c (long_arg n ∷ args) = do
  s ← copied (longlong_to_hexstring n)
  some (48 ∷ 120 ∷ s, args)
convert of_other c args = some (37 ∷ c ∷ [], args)
convert _ c args = none

unfoldable pub convert_long : LongConversion → ℕ → List Arg → Option (List ℕ × List Arg)
convert_long long_hex c (long_arg n ∷ args) = do
  s ← copied (longlong_to_hexstring n)
  some (s, args)
convert_long long_decimal c (long_arg n ∷ args) = do
  s ← copied (longlong_to_string n)
  some (s, args)
convert_long long_other c args = some (37 ∷ 108 ∷ c ∷ [], args)
convert_long _ c args = none

-- Where the scan of the format stands: in plain text, behind a `%`, or behind a `%l`.
pub data Scan : Type 0 where
  plain percent long : Scan

abbrev pub emit : List ℕ → Option (List ℕ) → Option (List ℕ)
emit out none = none
emit out (some rest) = some (out ++ rest)

-- The format is the list of its bytes; the end of the list stands for its NUL, as a 0 in it does. Either
-- ends the run in plain text and behind a `%`. Behind a `%l` the source writes the NUL and reads on, which
-- at the end of the list is `none`.
unfoldable pub vsprintf : Scan → List ℕ → List Arg → Option (List ℕ)
vsprintf plain [] args = some []
vsprintf percent [] args = some []
vsprintf long [] args = none
vsprintf plain (c ∷ fmt) args = elim (c == 0) [
  | true ↦ some []
  | false ↦ elim (c == 37) [
    | true ↦ vsprintf percent fmt args
    | false ↦ emit (c ∷ []) (vsprintf plain fmt args)
  ]
]
vsprintf percent (c ∷ fmt) args = elim (c == 0) [
  | true ↦ some []
  | false ↦ elim (conversion c) [
    | of_long ↦ vsprintf long fmt args
    | v ↦ (do out ← convert v c args; emit out.0 (vsprintf plain fmt out.1))
  ]
]
vsprintf long (c ∷ fmt) args = do
  out ← convert_long (long_conversion c) c args
  emit out.0 (vsprintf plain fmt out.1)
