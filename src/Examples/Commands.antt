-- ===== src/Examples/Commands.antt =====
-- Runs of libc/shlib.c at concrete variables and commands.
use plum_os.Prelude.{
  ℕ, zero, suc, ap, some_inj, drop, ◌≤◌, ◌≡◌, ◌≢◌, refl, Option, none, some, List, [], ◌∷◌, ◌++◌,
  length, arith, if◌then◌else◌, leb,
}
use plum_os.Strings.Compare.{IsText}
use plum_os.Shell.{VarList, get_var, set_var}
use plum_os.Shell.Lookup.{IsSlot}
use plum_os.Shell.Answers.{looked_up, get_var-looked_up}
use plum_os.Shell.Variables.{IsText-append}
use plum_os.Shell.Store.{get_var-set_var}
use plum_os.Command.{parse_cmds}
use plum_os.Command.Words.{words, parse_cmds-words}

-- A block of n bytes
abbrev filled : ℕ → List ℕ
filled zero = []
filled (suc n) = 255 ∷ filled n

length-filled : (n : ℕ) → length (filled n) ≡ n
length-filled zero = refl
length-filled (suc n) = omega (arith, length-filled n)

-- PATH= and /bin
abbrev path : List ℕ
path = 80 ∷ 65 ∷ 84 ∷ 72 ∷ 61 ∷ []

abbrev bin : List ℕ
bin = 47 ∷ 98 ∷ 105 ∷ 110 ∷ []

not_nul : (c : ℕ) → 1 ≤ c → c ≢ 0
not_nul c h e = omega (arith, e)

path-IsText : IsText path
path-IsText = (
  not_nul 80 (omega arith),
  omega arith,
  (
    not_nul 65 (omega arith),
    omega arith,
    (
      not_nul 84 (omega arith),
      omega arith,
      (not_nul 72 (omega arith), omega arith, (not_nul 61 (omega arith), omega arith, tt)),
    ),
  ),
)

bin-IsText : IsText bin
bin-IsText = (
  not_nul 47 (omega arith),
  omega arith,
  (
    not_nul 98 (omega arith),
    omega arith,
    (not_nul 105 (omega arith), omega arith, (not_nul 110 (omega arith), omega arith, tt)),
  ),
)

path-bin-IsText : IsText (path ++ bin)
path-bin-IsText = IsText-append path bin path-IsText bin-IsText

get_var-set_var_example :
    (after : VarList) × (set_var (filled 2048) (none ∷ none ∷ []) (path ++ 0 ∷ []) (bin ++ 0 ∷ [])
      ≡ some after)
    × ((r : Option (List ℕ)) × (get_var (filled 2048) (some after) (path ++ 0 ∷ []) ≡ some r)
        × IsSlot r (some bin))
get_var-set_var_example =
    get_var-set_var (filled 2048) (filled 2048) path [] bin [] (none ∷ none ∷ []) [] path-IsText
      bin-IsText (omega arith) (length-filled 2048) (length-filled 2048) (refl, (refl, refl))
      (omega arith) (omega arith)

get_var-looked_up_example :
    (r : Option (List ℕ)) × (get_var
        (filled 2048)
        (some (some ((path ++ bin) ++ 0 ∷ []) ∷ none ∷ []))
        (path ++ 0 ∷ [])
      ≡ some r)
    × IsSlot r (looked_up path ((path ++ bin) ∷ []))
get_var-looked_up_example =
    get_var-looked_up (filled 2048) path [] (some ((path ++ bin) ++ 0 ∷ []) ∷ none ∷ [])
      ((path ++ bin) ∷ []) path-IsText (omega arith) (length-filled 2048)
      ((path-bin-IsText, ([], refl)), (refl, refl)) (omega arith) (omega arith)
      (λ t e. omega (arith, ap (λ z. length (drop 5 z)) (some_inj e)))

-- ls and /bin, with two spaces between them
abbrev line : List ℕ
line = 108 ∷ 115 ∷ 32 ∷ 32 ∷ 47 ∷ 98 ∷ 105 ∷ 110 ∷ []

line-words : words line ≡ (108 ∷ 115 ∷ []) ∷ bin ∷ []
line-words = refl

parse_cmds-words_example :
    parse_cmds 9 (line ++ 0 ∷ [])
    ≡ some (if leb 8 (length (words line)) then none else some (words line))
parse_cmds-words_example =
    parse_cmds-words 9 line []
      (
        refl,
        refl,
        (
          refl,
          refl,
          (refl, refl, (refl, refl, (refl, refl, (refl, refl, (refl, refl, (refl, refl, tt)))))),
        ),
      )
      (omega arith, (omega arith, tt)) (omega arith)
