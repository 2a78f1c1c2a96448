-- ===== src/Command.antt =====
-- parse_cmds of libc/shlib.c. cmd is the list of the bytes from the pointer to the end of its array; an
-- argument is the list of the bytes stored in its block, without the NUL behind them. `none` is a read
-- outside of the array, or the end of the fuel, which bounds the rounds of the outer loop.
pub mod Words
use plum_os.Prelude.{
  ℕ, zero, suc, ◌+◌, ◌-◌, Bool, true, false, ◌&&◌, ◌||◌, not, Option, none, some, List, [], ◌∷◌,
  ◌++◌, ◌==◌, ltb, leb, if◌then◌else◌, length,
}
use plum_os.Prelude.Partial.{◌>>=◌}

abbrev pub max_arg_num : ℕ
max_arg_num = 8

abbrev pub max_cmd_size : ℕ
max_cmd_size = 256

abbrev pub space : ℕ
space = 32

abbrev pub newline : ℕ
newline = 10

abbrev pub hash : ℕ
hash = 35

abbrev pub quote : ℕ
quote = 34

-- The inner loop ends in an error, or with an argument and the pointer behind it.
pub data NextArg : Type 0 where
  ugly : NextArg
  arg : List ℕ → List ℕ → NextArg

abbrev pub stored : ℕ → Option NextArg → Option NextArg
stored c none = none
stored c (some ugly) = some ugly
stored c (some (arg bytes p)) = some (arg (c ∷ bytes) p)

-- *p is NUL, newline or '#'.
abbrev pub is_end : ℕ → Bool
is_end c = (c == 0) || (c == newline) || (c == hash)

-- A closing quote, with p behind it
unfoldable pub closed : List ℕ → Option NextArg
closed [] = none
closed (d ∷ p) =
    if not (d == space) && not (d == newline) && not (d == 0)
    then some ugly
    else some (arg (quote ∷ []) (d ∷ p))

-- The inner loop, with i bytes stored
unfoldable pub take_arg : ℕ → Bool → List ℕ → Option NextArg
take_arg i quote_flag [] = none
take_arg i quote_flag (c ∷ p) =
    let plain = take_arg (i + 1) quote_flag p in
    let quoted = take_arg (i + 1) true p in
    if is_end c || not (ltb i (max_cmd_size - 1))
    then some (arg [] (c ∷ p))
    else if (c == quote) && not quote_flag
    then stored c quoted
    else if c == quote
    then closed p
    else if (c == space) && not quote_flag
    then some (arg [] (c ∷ p))
    else stored c plain

unfoldable pub skip_spaces : List ℕ → Option (List ℕ)
skip_spaces [] = none
skip_spaces (c ∷ p) = let rest = skip_spaces p in if c == space then rest else some (c ∷ p)

abbrev pub first_byte : List ℕ → Option ℕ
first_byte [] = none
first_byte (c ∷ p) = some c

-- The result behind the outer loop; `some none` is NULL.
abbrev pub finished : List (List ℕ) → Option (List (List ℕ))
finished args = if leb max_arg_num (length args) then none else some args

-- The outer loop, from the arguments found so far
unfoldable pub parse_loop : ℕ → List (List ℕ) → List ℕ → Option (Option (List (List ℕ)))
parse_loop zero args p = none
parse_loop (suc fuel) args p = do
  c ← first_byte p
  if is_end c || not (ltb (length args) max_arg_num) then some (finished args) else (do
    q ← skip_spaces p
    a ← take_arg 0 false q
    elim a [
      | ugly ↦ some none
      | arg bytes r ↦ do
        d ← first_byte r
        if ltb 0 (length bytes) && ltb (length bytes) max_cmd_size
            then parse_loop fuel (args ++ bytes ∷ []) r
            else if leb max_cmd_size (length bytes)
            then some none
            else if is_end d
            then some (finished args)
            else parse_loop fuel args r
    ])

-- The arguments, without the NULL behind them; arg_size is their number.
unfoldable pub parse_cmds : ℕ → List ℕ → Option (Option (List (List ℕ)))
parse_cmds fuel cmd = parse_loop fuel [] cmd
