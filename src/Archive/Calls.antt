-- ===== src/Archive/Calls.antt =====
-- open, close and chdir of sys/syscall.c over tarfs_open and tarfs_close.
use plum_os.Prelude.{
  ℕ, zero, suc, ◌+◌, ◌-◌, Bool, false, ◌&&◌, ◌||◌, not, Option, none, some, List, [], ◌∷◌, ◌==◌,
  leb, if◌then◌else◌,
}
use plum_os.Prelude.Int.{ℤ, pos, negsuc, minus_one}
use plum_os.Prelude.Partial.{◌>>=◌}
use plum_os.Strings.{strlen, strncpy, set_at}
use plum_os.Archive.{PosixHeaderUstar}
use plum_os.Archive.Traverse.{slash, byte_at}
use plum_os.Archive.Open.{FileArray, Outcome, hangs, exits, gives, tarfs_open, tarfs_close}

abbrev pub dot : ℕ
dot = 46

-- `while (cwd[len] == '/') len--;`: below 0 the read is outside of the array.
unfoldable pub skip_back : List ℕ → ℕ → Option ℕ
skip_back cwd zero = do c ← byte_at cwd 0; if c == slash then none else some 0
skip_back cwd (suc n) =
    let rest = skip_back cwd n in
    do c ← byte_at cwd (suc n); if c == slash then rest else some (suc n)

-- `while (len >= 0 && cwd[len] != '/') len--;`: where the last '/' is, or none for -1
unfoldable pub last_slash : List ℕ → ℕ → Option (Option ℕ)
last_slash cwd zero = do c ← byte_at cwd 0; some (if c == slash then some 0 else none)
last_slash cwd (suc n) =
    let rest = last_slash cwd n in
    do c ← byte_at cwd (suc n); if c == slash then some (some (suc n)) else rest

-- Whether the name ends with "/.."
unfoldable pub ends_with_up : List ℕ → ℕ → Option Bool
ends_with_up cwd len =
    if leb 3 len
    then (do
      c ← byte_at cwd (len - 1)
      d ← byte_at cwd (len - 2)
      e ← byte_at cwd (len - 3)
      some ((c == dot) && (d == dot) && (e == slash)))
    else some false

unfoldable pub cut_behind : List ℕ → Option ℕ → Option (List ℕ)
cut_behind cwd none = do a ← set_at cwd 0 slash; set_at a 1 0
cut_behind cwd (some i) = set_at cwd (i + 1) 0

unfoldable pub go_up : List ℕ → Option (List ℕ)
go_up cwd = do
  len ← strlen cwd
  up ← ends_with_up cwd len
  if up then (do i ← skip_back cwd (len - 3); j ← last_slash cwd i; cut_behind cwd j) else some cwd

-- "r"
abbrev pub read_mode : List ℕ
read_mode = 114 ∷ 0 ∷ []

unfoldable pub closed_again : ℤ → Outcome (Unit {0}) → List ℕ → Outcome (ℤ × List ℕ)
closed_again r hangs cwd = hangs
closed_again r exits cwd = exits
closed_again r (gives u files) cwd = gives (r, cwd) files

-- What chdir does with the result of tarfs_open; `old` is the current directory of the process.
unfoldable pub moved_to : List ℕ → Outcome ℤ → Option (Outcome (ℤ × List ℕ))
moved_to old hangs = some hangs
moved_to old exits = some exits
moved_to old (gives (pos zero) files) = some (gives (minus_one, old) files)
moved_to old (gives (pos (suc i)) files) = do
  len ← strlen (files (suc i)).name
  cwd ← strncpy old (files (suc i)).name len
  r ← tarfs_close (suc i) files
  some (closed_again (pos 0) r cwd)
moved_to old (gives (negsuc n) files) = some (gives (minus_one, old) files)

unfoldable pub returned : Outcome (Unit {0}) → Outcome ℤ
returned hangs = hangs
returned exits = exits
returned (gives u files) = gives (pos 0) files

unfoldable pub close_file : ℤ → FileArray → Option (Outcome ℤ)
close_file (pos fd) files =
    if (fd == 0) || (fd == 1) || (fd == 2)
    then some hangs
    else (do r ← tarfs_close fd files; some (returned r))
close_file (negsuc n) files = some hangs

module _ (header : ℕ → PosixHeaderUstar) (starts ends fuel : ℕ) (local newfname : List ℕ) where
  unfoldable pub open_file : List ℕ → ℕ → ℕ → FileArray → Option (Outcome ℤ)
  open_file path flag mode files =
      if not (flag == 0) || not (mode == 0)
      then some hangs
      else tarfs_open header starts ends fuel local newfname path read_mode files

  -- `copied` is the local array after copy_from_user, whose result is not looked at.
  unfoldable pub chdir : List ℕ → List ℕ → FileArray → Option (Outcome (ℤ × List ℕ))
  chdir copied old files = do
    cwd ← go_up copied
    r ← tarfs_open header starts ends fuel local newfname cwd read_mode files
    moved_to old r
