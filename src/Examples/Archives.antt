-- ===== src/Examples/Archives.antt =====
-- A header of the archive.
use plum_os.Prelude.{ℕ, zero, suc, ◌≡◌, refl, some, List, [], ◌∷◌, ◌++◌, arith}
use plum_os.Prelude.Int.{ℤ}
use plum_os.Strings.{strcmp}
use plum_os.Strings.Compare.{IsText}
use plum_os.Shell.{is_zero}
use plum_os.Archive.{PosixHeaderUstar, get_filesz}
use plum_os.Archive.Octal.{octal_digits, get_filesz-octal_digits}
use plum_os.Archive.Traverse.{slash, traverse_tarfs}
use plum_os.Archive.Match.{File, Laid, first_hit, traverse_tarfs-first_hit}
use plum_os.Archive.Directory.{
  same_text, strcmp-Judges, belongs_to_dir, passes_dir, belongs_to_dir-Judges,
}
use plum_os.Archive.Open.{TarfsFile}
use plum_os.Archive.Opened.{Opened}
use plum_os.Archive.Calls.{dot, go_up}
use plum_os.Archive.Up.{go_up-parent}

-- A file of 1234 bytes
abbrev header : PosixHeaderUstar
header = record { name = 97 ∷ 0 ∷ []; size = octal_digits 11 1234 ++ 0 ∷ []; typeflag = 48 }

get_filesz-octal_digits_example : get_filesz header ≡ some 1234
get_filesz-octal_digits_example =
    get_filesz-octal_digits 11 1234 48 [] (97 ∷ 0 ∷ []) (omega arith) (omega arith)

-- An archive with one file a of 8 bytes, from 4096 to 5120
abbrev a_header : PosixHeaderUstar
a_header = record { name = 97 ∷ 0 ∷ []; size = octal_digits 2 8 ++ 0 ∷ []; typeflag = 48 }

abbrev a_file : File
a_file = record { header = a_header; title = 97 ∷ []; bytes = 8 }

a-IsText : IsText (97 ∷ [])
a-IsText = ((λ e. absurd (omega (arith, e))), omega arith, tt)

a_sized : get_filesz a_header ≡ some 8
a_sized = get_filesz-octal_digits 2 8 48 [] (97 ∷ 0 ∷ []) (omega arith) (omega arith)

a-Laid : Laid (λ _. a_header) 5120 4096 (a_file ∷ [])
a-Laid = (
  refl,
  record { is_text = a-IsText; behind = []; named = refl; sized = a_sized; small = omega arith },
  refl,
)

traverse_tarfs-first_hit_example :
    traverse_tarfs (λ _. a_header) 5120 2 (0 ∷ 0 ∷ 0 ∷ []) (97 ∷ 0 ∷ []) 4096 strcmp
    ≡ some (first_hit same_text (97 ∷ []) 4096 (a_file ∷ []))
traverse_tarfs-first_hit_example =
    traverse_tarfs-first_hit (λ _. a_header) 5120 strcmp same_text (97 ∷ []) [] (0 ∷ 0 ∷ 0 ∷ []) 2
      4096 (a_file ∷ []) strcmp-Judges a-IsText (omega arith) (omega arith) (omega arith)
      (omega arith) a-Laid

belongs_to_dir-Judges_example :
    (z : ℤ) × (belongs_to_dir (some (47 ∷ 0 ∷ [])) (some (97 ∷ 0 ∷ [])) ≡ some z)
    × (is_zero z ≡ passes_dir (47 ∷ []) (97 ∷ []))
belongs_to_dir-Judges_example =
    belongs_to_dir-Judges (47 ∷ []) (97 ∷ []) [] []
      ((λ e. absurd (omega (arith, e))), omega arith, tt) a-IsText

blanks : ℕ → List ℕ
blanks zero = []
blanks (suc n) = 0 ∷ blanks n

abbrev no_file : TarfsFile
no_file = record {
  mode = blanks 16;
  name = blanks 128;
  free_flag = 0;
  type = 0;
  start_addr = 0;
  size = 0;
  pos = 0;
}

-- a/b/..
go_up-parent_example :
    go_up (97 ∷ slash ∷ 98 ∷ slash ∷ dot ∷ dot ∷ 0 ∷ [])
    ≡ some (97 ∷ slash ∷ 0 ∷ slash ∷ dot ∷ dot ∷ 0 ∷ [])
go_up-parent_example =
    go_up-parent (97 ∷ []) [] [] 98 a-IsText ((λ e. absurd (omega (arith, e))), omega arith, tt)
      (refl, tt)
