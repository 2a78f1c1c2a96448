-- ===== src/Archive/Traverse.antt =====
-- traverse_tarfs of sys/tarfs.c. `header` gives the header at each address of the archive, which ends at
-- `ends`; both are what the linker puts into the kernel. `none` is a read or a write outside of an array, or
-- the end of the fuel, which bounds the rounds of the loop. A checker is strcmp or belongs_to_dir.
use plum_os.Prelude.{
  ℕ, zero, suc, ◌+◌, ◌-◌, ◌%◌, ◌^◌, Option, none, some, List, [], ◌∷◌, ◌==◌, ltb, if◌then◌else◌,
  bit_and,
}
use plum_os.Prelude.Int.{ℤ}
use plum_os.Prelude.Partial.{◌>>=◌}
use plum_os.Prelude.Ints.{widened_int}
use plum_os.Strings.{strlen, strncpy, set_at}
use plum_os.Shell.{is_zero}
use plum_os.Archive.{PosixHeaderUstar, get_filesz}

abbrev pub Checker : Type 0
Checker = Option (List ℕ) → Option (List ℕ) → Option ℤ

abbrev pub ft_dir : ℕ
ft_dir = 0

abbrev pub ft_file : ℕ
ft_file = 1

abbrev pub tarfs_header : ℕ
tarfs_header = 512

abbrev pub slash : ℕ
slash = 47

-- ROUND_TO_512 of an int
unfoldable pub round_to_512 : ℕ → ℕ
round_to_512 n = bit_and ((n + 512 - 1) % 2 ^ 32) (2 ^ 32 - 512)

-- `s[i]`
unfoldable pub byte_at : List ℕ → ℕ → Option ℕ
byte_at [] i = none
byte_at (c ∷ s) zero = some c
byte_at (c ∷ s) (suc i) = byte_at s i

-- The local array `name` with the name of a directory
unfoldable pub dir_name : List ℕ → List ℕ → Option (List ℕ)
dir_name name filename = do
  namesz ← strlen filename
  c ← elim namesz [ zero ↦ none | suc i ↦ byte_at filename i ]
  if c == slash
      then strncpy name filename namesz
      else (do a ← strncpy name filename namesz; b ← set_at a namesz slash; set_at b (namesz + 1) 0)

-- Where the file at p ends and the next header stands
unfoldable pub next_header : PosixHeaderUstar → ℕ → Option ℕ
next_header h p = do
  size ← get_filesz h
  some ((p + widened_int (round_to_512 ((size + tarfs_header) % 2 ^ 32))) % 2 ^ 64)

module _ (header : ℕ → PosixHeaderUstar) (ends : ℕ) where
  -- The loop: the address of the header found and the type of its file, or NULL
  unfoldable pub traverse_loop : ℕ → List ℕ → List ℕ → ℕ → Checker → Option (Option (ℕ × ℕ))
  traverse_loop zero name filename p checker = none
  traverse_loop (suc fuel) name filename p checker =
      let h = header p in
      let as_dir = (do
        d ← dir_name name filename
        r ← checker (some d) (some h.name)
        if is_zero r
            then some (some (p, ft_dir))
            else traverse_loop fuel d filename (p + tarfs_header) checker) in
      let as_file = (do
        r ← checker (some filename) (some h.name)
        if is_zero r
            then some (some (p, ft_file))
            else (do q ← next_header h p; traverse_loop fuel name filename q checker)) in
      if ltb p ends then (if h.typeflag == 53 then as_dir else as_file) else some none

  unfoldable pub traverse_tarfs : ℕ → List ℕ → List ℕ → ℕ → Checker → Option (Option (ℕ × ℕ))
  traverse_tarfs fuel name filename start_addr checker = do
    namesz ← strlen filename
    traverse_loop fuel name filename start_addr checker
